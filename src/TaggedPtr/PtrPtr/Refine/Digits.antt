-- ===== src/TaggedPtr/PtrPtr/Refine/Digits.antt =====
-- The flags of both structs by their digits, and the assertions of the generic one.
use nodecpp_foundation.Base.{ℕ, ◌-◌, ◌<◌, ◌%◌, ◌^◌, bit, bit_and, bit_or, not, ◌&&◌, ◌||◌}
use nodecpp_foundation.Base.{Bool-cases, inl, inr, bit-ones, ltb, ◌==◌, ◌≡◌, refl, arith}
use nodecpp_foundation.Base.Words.{shl, complement, test_bit, bit_laws, shl-one}
use nodecpp_foundation.Base.{bit-and, bit-mod, bit-zero, bit_ext}
use nodecpp_foundation.TaggedPtr.PtrPtr.Optimized
use nodecpp_foundation.TaggedPtr.PtrPtr.Optimized.{
  Config, IsConfig, zombie_indicator, allocptr_mask,
}
use nodecpp_foundation.TaggedPtr.PtrPtr.Optimized.Parts.{flag_bit, aligned_digit}
use nodecpp_foundation.TaggedPtr.PtrPtr.Generic
use nodecpp_foundation.TaggedPtr.PtrPtr.Refine.{IsAllocation}

module _ (c : Config) (cfg : IsConfig c) where
  open c use {lower, nflags}

  pub max_data_same : Generic.max_data c ≡ Optimized.max_data c
  unfolding Generic.max_data Optimized.max_data
  max_data_same = elim (Bool-cases (ltb c.dataminsize 32)) [
    | inl small ↦ rw small
    | inr wide ↦
        let e : c.dataminsize ≡ 32 = ground (arith, cfg) in rw (wide, e) (unfold shl in refl)
  ]

  pub generic_assertion : (p : ℕ) → IsAllocation c p → bit_and p (shl 1 lower - 1) ≡ 0
  generic_assertion p h = bit_ext _ _ λ i.
      rw (shl-one lower (omega (arith, cfg)), bit-and, bit-ones i lower)
        (ground (arith, aligned_digit c cfg p i h, bit-zero i))

  -- Flag `pos` of the generic struct.
  pub generic_flag :
      (pos : ℕ) (g : Generic.Tagged) → pos < 64 → Generic.has_flag c pos g ≡ bit g.flags pos
  unfolding Generic.has_flag
  generic_flag pos g h = test_bit g.flags pos h

  -- The flags agree exactly when their digits do.
  pub flags_of_digits :
      (g : Generic.Tagged) (o : Optimized.Tagged) (q : ℕ)
      → (ltb q nflags && bit o.allocptr q) ≡ (ltb q nflags && bit g.flags q)
      → (ltb q nflags && Optimized.has_flag c q o) ≡ (ltb q nflags && Generic.has_flag c q g)
  flags_of_digits g o q h = ground (arith, h, flag_bit c cfg q o, generic_flag q g, cfg)

  pub digits_of_flags :
      (g : Generic.Tagged) (o : Optimized.Tagged) (q : ℕ)
      → (ltb q nflags && Optimized.has_flag c q o) ≡ (ltb q nflags && Generic.has_flag c q g)
      → (ltb q nflags && bit o.allocptr q) ≡ (ltb q nflags && bit g.flags q)
  digits_of_flags g o q h = ground (arith, h, flag_bit c cfg q o, generic_flag q g, cfg)

  pub generic_set_digit :
      (f pos q : ℕ)
      → pos < nflags
      → q < nflags
      → bit (bit_or f (shl 1 pos) % 2 ^ 16) q ≡ (q == pos || bit f q)
  generic_set_digit f pos q h k =
      rw (bit-mod q 16 (bit_or f (shl 1 pos))) (simp bit_laws (ground (arith, cfg)))

  pub generic_unset_digit :
      (f pos q : ℕ)
      → pos < nflags
      → q < nflags
      → bit (bit_and f (complement (shl 1 pos)) % 2 ^ 16) q ≡ (not (q == pos) && bit f q)
  generic_unset_digit f pos q h k =
      rw (bit-mod q 16 (bit_and f (complement (shl 1 pos)))) (simp bit_laws (ground (arith, cfg)))
