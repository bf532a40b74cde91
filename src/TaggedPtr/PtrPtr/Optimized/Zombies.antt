-- ===== src/TaggedPtr/PtrPtr/Optimized/Zombies.antt =====
-- What is left of the two words when they are marked a zombie, and how two objects exchange words.
use nodecpp_foundation.Base.{ℕ, ◌+◌, ◌-◌, true, false, bit, bit_and}
use nodecpp_foundation.Base.{leb, ◌==◌, bit_ext}
use nodecpp_foundation.Base.{Bool-cases, inl, inr, ap, if◌then◌else◌, ◌≡◌, arith}
use nodecpp_foundation.Base.Words.{bit_laws, bit-word_shl, bit-word_shr, shr, shl}
use nodecpp_foundation.Base.Store.{Store}
use nodecpp_foundation.TaggedPtr.Layout.{any_ptr_value_bits_mask}
use nodecpp_foundation.Base.Outcome.{ok, throws, zero_access, zombie_access}
use nodecpp_foundation.TaggedPtr.PtrPtr.Optimized.{
  Config, IsConfig, Tagged, get_data, is_zombie, get_ptr, get_dereferencable_ptr, get_allocated_ptr,
  get_dereferencable_allocated_ptr, set_zombie, zombie_indicator, swap, swap_words,
}
use nodecpp_foundation.TaggedPtr.PtrPtr.Optimized.Digits.{bit-get_data}

module _ (c : Config) (cfg : IsConfig c) where
  open c use {lower, nflags}

  mark_kept : bit_and (zombie_indicator c) any_ptr_value_bits_mask ≡ zombie_indicator c
  mark_kept = bit_ext _ _ λ i. simp bit_laws (ground (arith, cfg))

  -- After `set_zombie` the object says that it is a zombie. The getters for dereferencing throw
  -- zombie access; the two others throw zero-pointer access.
  pub set_zombie_lem :
      (w : Tagged)
      → (is_zombie c (set_zombie c w) ≡ true)
        × (get_ptr c (set_zombie c w) ≡ throws zero_access)
        × (get_allocated_ptr c (set_zombie c w) ≡ throws zero_access)
        × (get_dereferencable_ptr c (set_zombie c w) ≡ throws zombie_access)
        × (get_dereferencable_allocated_ptr c (set_zombie c w) ≡ throws zombie_access)
  unfolding set_zombie is_zombie get_ptr get_allocated_ptr get_dereferencable_ptr
      get_dereferencable_allocated_ptr
  set_zombie_lem w = (
    ground (arith, mark_kept),
    ground (arith, mark_kept),
    ground (arith, mark_kept),
    ground (arith, mark_kept),
    ground (arith, mark_kept),
  )

  mark_high : (i : ℕ) → bit (zombie_indicator c) (48 + i) ≡ false
  mark_high i = simp bit_laws (ground (arith, cfg))

  digit_again :
      (w : Tagged) (i : ℕ)
      → leb 16 i ≡ true
      → bit (get_data c w) (16 + (i - 16)) ≡ bit (get_data c w) i
  digit_again w i h = ap (bit (get_data c w)) {x = 16 + (i - 16)} {y = i} (ground arith)

  -- `set_zombie` erases the lowest 16 digits of the data and keeps the others.
  pub get_data-set_zombie :
      (w : Tagged) → get_data c (set_zombie c w) ≡ shl (shr (get_data c w) 16) 16
  unfolding set_zombie
  get_data-set_zombie w = bit_ext _ _ λ i.
      rw
        (
          bit-get_data c cfg (record w { ptr = zombie_indicator c }) i,
          bit-word_shl i (shr (get_data c w) 16) 16,
          bit-word_shr,
          mark_high i,
        )
        (elim (Bool-cases (leb 16 i)) [
          | inl high ↦ rw (digit_again w i high, bit-get_data c cfg w i) (ground (arith, high, cfg))
          | inr low ↦ ground (arith, low)
        ])

-- `swap` of two live objects exchanges their words, also where they are one object, and touches no
-- other object.
pub swap_lem :
    (c : Config) (s : Store Tagged) (this other q : ℕ)
    → is_zombie c (s this) ≡ false
    → is_zombie c (s other) ≡ false
    → (s' : Store Tagged) × (swap c s this other ≡ ok s')
      × (s' q ≡ (if q == other then s this else (if q == this then s other else s q)))
unfolding swap
swap_lem c s this other q a b =
    (swap_words c s this other, ground (arith, a, b), unfold swap_words in ground arith)
