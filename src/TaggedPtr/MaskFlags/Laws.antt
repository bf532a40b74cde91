-- ===== src/TaggedPtr/MaskFlags/Laws.antt =====
-- The mask, the address and the flags of `optimized_allocated_ptr_with_mask_and_flags_64_`, and where
-- the two structs differ.
use nodecpp_foundation.Base.{
  ℕ, ◌+◌, ◌^◌, ◌%◌, ◌≤◌, ◌<◌, false, not, ◌&&◌, ◌||◌, bit, bit_and, bit_or,
}
use nodecpp_foundation.Base.{◌==◌, ◌≡◌, refl, ap, arith, bit_ext, bit-mod, bit-zero, bit_above}
use nodecpp_foundation.Base.Words.{shl, ones, complement, test_bit, bit_laws, shl-one}
use nodecpp_foundation.Base.Outcome.{ok, throws, assertion_failed}
use nodecpp_foundation.TaggedPtr.MaskFlags.Optimized
use nodecpp_foundation.TaggedPtr.MaskFlags.Optimized.{Word, ptr_mask}
use nodecpp_foundation.TaggedPtr.MaskFlags.Generic

-- A multiple of the alignment, of 48 digits.
abbrev pub IsAllocated : ℕ → ℕ → Type 0
IsAllocated lower p = (p < 2 ^ 48) × (p % 2 ^ lower ≡ 0)

module _ (lower masksize : ℕ) (cfg : (masksize ≤ lower) × (lower ≤ 48)) where
  aligned_digit : (p i : ℕ) → IsAllocated lower p → i < lower → bit p i ≡ false
  aligned_digit p i h lt =
      ground (arith, bit-mod i lower p, ap (λ (t : ℕ). bit t i) h.1, bit-zero i)

  allocated_passes :
      (p : ℕ) → IsAllocated lower p → bit_and p (complement (ptr_mask lower masksize)) ≡ 0
  allocated_passes p h = bit_ext _ _ λ i.
      simp bit_laws (ground (arith, bit-zero i, bit_above i 48 p h.0, aligned_digit p i h, cfg))

  flag_bit :
      (pos : ℕ) (w : Word)
      → pos < 16
      → Optimized.has_flag lower masksize pos w ≡ bit w.ptr (48 + pos)
  unfolding Optimized.has_flag
  flag_bit pos w h = test_bit w.ptr (48 + pos) (omega arith)

  -- Where the shift of an `int` by `masksize` is defined and positive, `set_mask` accepts a mask of `masksize` digits;
  -- `get_mask` then returns it, and the address and the flags read as before.
  pub set_mask_lem :
      (w : Word) (mask pos : ℕ)
      → masksize < 31
      → mask < 2 ^ masksize
      → pos < 16
      → (w' : Word) × (Optimized.set_mask lower masksize w mask ≡ ok w')
        × (Optimized.get_mask lower masksize w' ≡ mask)
        × (Optimized.get_ptr lower masksize w' ≡ Optimized.get_ptr lower masksize w)
        × (Optimized.has_flag lower masksize pos w' ≡ Optimized.has_flag lower masksize pos w)
  unfolding Optimized.set_mask Optimized.get_mask Optimized.get_ptr
  set_mask_lem w mask pos small h k = (
    record { ptr = bit_or (bit_and w.ptr (complement (ones lower))) mask },
    ground (arith, shl-one masksize, cfg),
    bit_ext _ _ λ i. simp bit_laws (ground (arith, bit_above i masksize mask h, cfg)),
    bit_ext _ _ λ i. simp bit_laws (ground (arith, bit_above i masksize mask h, cfg)),
    ground (
      arith,
      flag_bit pos w k,
      flag_bit pos (record { ptr = bit_or (bit_and w.ptr (complement (ones lower))) mask }) k,
      digit,
    ),
  )
    where
      digit :
          bit (bit_or (bit_and w.ptr (complement (ones lower))) mask) (48 + pos)
          ≡ bit w.ptr (48 + pos)
      digit = simp bit_laws (ground (arith, bit_above (48 + pos) masksize mask h, cfg))

  -- `set_flag` and `unset_flag` change their flag, and no other flag, address or mask.
  pub has_flag-set_flag :
      (w : Word) (pos other : ℕ)
      → pos < 16
      → other < 16
      → let on = Optimized.set_flag lower masksize pos w in
        let off = Optimized.unset_flag lower masksize pos w in
        (Optimized.has_flag lower masksize other on
          ≡ (other == pos || Optimized.has_flag lower masksize other w))
        × (Optimized.has_flag lower masksize other off
            ≡ (not (other == pos) && Optimized.has_flag lower masksize other w))
        × (Optimized.get_ptr lower masksize on ≡ Optimized.get_ptr lower masksize w)
        × (Optimized.get_ptr lower masksize off ≡ Optimized.get_ptr lower masksize w)
        × (Optimized.get_mask lower masksize on ≡ Optimized.get_mask lower masksize w)
        × (Optimized.get_mask lower masksize off ≡ Optimized.get_mask lower masksize w)
  unfolding Optimized.set_flag Optimized.unset_flag Optimized.get_mask Optimized.get_ptr
  has_flag-set_flag w pos other h k = (
    ground
        (arith, flag_bit other w k, flag_bit other (Optimized.set_flag lower masksize pos w) k, on),
    ground (
      arith,
      flag_bit other w k,
      flag_bit other (Optimized.unset_flag lower masksize pos w) k,
      off,
    ),
    bit_ext _ _ λ i. simp bit_laws (ground (arith, cfg)),
    bit_ext _ _ λ i. simp bit_laws (ground (arith, cfg)),
    bit_ext _ _ λ i. simp bit_laws (ground (arith, cfg)),
    bit_ext _ _ λ i. simp bit_laws (ground (arith, cfg)),
  )
    where
      on :
          bit (bit_or w.ptr (shl 1 (48 + pos))) (48 + other)
          ≡ (other == pos || bit w.ptr (48 + other))
      on = simp bit_laws (ground arith)

      off :
          bit (bit_and w.ptr (complement (shl 1 (48 + pos)))) (48 + other)
          ≡ (not (other == pos) && bit w.ptr (48 + other))
      off = simp bit_laws (ground arith)

  -- `set_ptr` accepts an allocated address and keeps the mask. It clears every flag, where the
  -- generic struct keeps them.
  pub set_ptr_clears_flags :
      (w : Word) (g : Generic.Masked) (p pos : ℕ)
      → IsAllocated lower p
      → pos < 16
      → (w' : Word) × (Optimized.set_ptr lower masksize w p ≡ ok w')
        × (Optimized.get_ptr lower masksize w' ≡ p)
        × (Optimized.get_mask lower masksize w' ≡ Optimized.get_mask lower masksize w)
        × (Optimized.has_flag lower masksize pos w' ≡ false)
        × (g' : Generic.Masked) × (Generic.set_ptr lower masksize g p ≡ ok g')
        × (Generic.get_ptr lower masksize g' ≡ p)
        × (Generic.has_flag lower masksize pos g' ≡ Generic.has_flag lower masksize pos g)
  unfolding Optimized.set_ptr Optimized.get_ptr Optimized.get_mask Generic.set_ptr Generic.get_ptr
      Generic.has_flag
  set_ptr_clears_flags w g p pos h k = (
    stored,
    ground (arith, allocated_passes p h),
    bit_ext _ _ λ i. simp bit_laws (ground (arith, bit_above i 48 p h.0, aligned_digit p i h, cfg)),
    bit_ext _ _ λ i. simp bit_laws (ground (arith, cfg)),
    ground (arith, flag_bit pos stored k, digit),
    record g { ptr = p },
    ground (arith, allocated_passes p h),
    refl,
    refl,
  )
    where
      stored : Word
      stored = record {
        ptr = bit_or (bit_and w.ptr (ones lower)) (bit_and p (complement (ones lower)));
      }

      digit : bit stored.ptr (48 + pos) ≡ false
      digit = simp bit_laws (ground (arith, bit_above (48 + pos) 48 p h.0, cfg))

-- The assertion of the generic `set_mask` does not look at the new mask: any is stored, cut to a
-- byte, where the optimized struct refuses one that is too long.
pub set_mask_unchecked :
    (lower masksize : ℕ) (g : Generic.Masked) (w : Word) (mask : ℕ)
    → masksize < 31
    → g.mask < shl 1 masksize
    → shl 1 masksize ≤ mask
    → (g' : Generic.Masked) × (Generic.set_mask lower masksize g mask ≡ ok g')
      × (Generic.get_mask lower masksize g' ≡ mask % 2 ^ 8)
      × (Optimized.set_mask lower masksize w mask ≡ throws assertion_failed)
unfolding Generic.set_mask Generic.get_mask Optimized.set_mask
set_mask_unchecked lower masksize g w mask small h k =
    (record g { mask = mask % 2 ^ 8 }, ground arith, refl, ground arith)
