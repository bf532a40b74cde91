-- ===== src/TaggedPtr/PtrPtr/Optimized/Digits.antt =====
-- The digits of the two words after `set_data`, and of what `get_data` reads.
use nodecpp_foundation.Base.{
  bit-or, bit-and, ℕ, ◌+◌, ◌-◌, ◌^◌, ◌<◌, ◌&&◌, ◌||◌, bit, bit_and, bit_or, ltb, leb,
}
use nodecpp_foundation.Base.{Bool-cases, inl, inr, if◌then◌else◌, ◌≡◌, refl, arith}
use nodecpp_foundation.Base.Words.{bit_laws, bit-word_ones, bit-word_shl, shr, shl, ones}
use nodecpp_foundation.Base.{bit_ext, bit_above}
use nodecpp_foundation.TaggedPtr.Layout.{upper_data_mask, any_ptr_value_bits_mask}
use nodecpp_foundation.TaggedPtr.PtrPtr.Optimized.{
  Config, IsConfig, Tagged, store_data, get_data, allocptr_mask, alloc_ptr_flags_mask,
  allocptr_upper_part_mask_in_data, allocptr_upper_part_offset_in_data,
  allocptr_lower_part_mask_in_data, allocptr_lower_part_offset_in_data,
}

module _ (c : Config) (cfg : IsConfig c) where
  open c use {lower, nflags}

  -- The upper 16 digits of `ptr` hold the lowest 16 of the data.
  pub bit-store_data-ptr :
      (w : Tagged) (d i : ℕ)
      → bit (store_data c w d).ptr i
        ≡ (if ltb i 48 then bit w.ptr i else (ltb i 64 && bit d (i - 48)))
  unfolding store_data
  bit-store_data-ptr w d i = simp bit_laws (ground arith)

  -- What `set_data` keeps of `allocptr`.
  kept_part :
      (a i : ℕ)
      → bit (bit_and a (bit_or (allocptr_mask c) (alloc_ptr_flags_mask c))) i
        ≡ (bit a i && (ltb i nflags || (leb lower i && ltb i 48)))
  kept_part a i = simp bit_laws (ground (arith, cfg))

  -- Where it puts the highest digits of the data.
  upper_part :
      (d i : ℕ)
      → bit
          (shl
            (shr
              (bit_and d (allocptr_upper_part_mask_in_data c))
              (allocptr_upper_part_offset_in_data c))
            48)
          i
        ≡ (leb 48 i
            && (ltb i 64
                && (leb (16 + lower - nflags) (16 + nflags + (i - 48))
                    && bit d (16 + nflags + (i - 48)))))
  upper_part d i = simp bit_laws (ground (arith, cfg))

  -- Where it puts the digits between.
  lower_part :
      (d i : ℕ)
      → bit
          (shl
            (shr
              (bit_and d (allocptr_lower_part_mask_in_data c))
              (allocptr_lower_part_offset_in_data c))
            nflags)
          i
        ≡ (leb nflags i && (ltb i lower && bit d (16 + (i - nflags))))
  lower_part d i = simp bit_laws (ground (arith, cfg))

  -- The digits of `allocptr` between the flags and `lower` hold the next ones, its upper 16 the rest.
  pub bit-store_data-allocptr :
      (w : Tagged) (d i : ℕ)
      → bit (store_data c w d).allocptr i ≡ (
          if ltb i nflags
          then bit w.allocptr i
          else (if ltb i lower
              then bit d (16 + (i - nflags))
              else (if ltb i 48
                  then bit w.allocptr i
                  else (ltb i 64
                      && (leb (16 + lower - nflags) (16 + nflags + (i - 48))
                          && bit d (16 + nflags + (i - 48)))))))
  unfolding store_data
  bit-store_data-allocptr w d i =
      simp (bit-or, kept_part, upper_part, lower_part) (ground (arith, cfg))

  highest_read :
      (a i : ℕ)
      → bit (shr (bit_and a upper_data_mask) (32 - nflags)) i
        ≡ (leb (16 + nflags) i && (ltb i (32 + nflags) && bit a (32 - nflags + i)))
  highest_read a i = simp bit_laws (ground (arith, cfg))

  lowest_read :
      (p i : ℕ) → bit (shr (bit_and p upper_data_mask) 48) i ≡ (ltb i 16 && bit p (48 + i))
  lowest_read p i = simp bit_laws (ground arith)

  middle_read :
      (a i : ℕ)
      → bit (shl (bit_and a (shl (ones (lower - nflags)) nflags)) (16 - nflags)) i
        ≡ (leb 16 i && (ltb i (16 + lower - nflags) && bit a (i - (16 - nflags))))
  middle_read a i = simp bit_laws (ground (arith, cfg))

  -- What `get_data` reads, whether or not `allocptr` has digits for data below the address.
  pub bit-get_data :
      (w : Tagged) (i : ℕ)
      → bit (get_data c w) i ≡ (
          ((leb (16 + nflags) i && (ltb i (32 + nflags) && bit w.allocptr (32 - nflags + i)))
            || (ltb i 16 && bit w.ptr (48 + i)))
          || (leb 16 i && (ltb i (16 + lower - nflags) && bit w.allocptr (i - (16 - nflags)))))
  unfolding get_data
  bit-get_data w i = elim (Bool-cases (ltb 0 (lower - nflags))) [
    | inl some_rest ↦ rw some_rest (simp (bit-or, highest_read, lowest_read, middle_read) refl)
    | inr no_rest ↦ rw no_rest (simp (bit-or, highest_read, lowest_read) (ground arith))
  ]

  module _ (w : Tagged) (d : ℕ) where
    highest_stored :
        (i : ℕ)
        → (leb (16 + nflags) i
            && (ltb i (32 + nflags) && bit (store_data c w d).allocptr (32 - nflags + i)))
          ≡ (leb (16 + lower - nflags) i && (ltb i (32 + nflags) && bit d i))
    highest_stored i = rw (bit-store_data-allocptr w d (32 - nflags + i)) (ground (arith, cfg))

    middle_stored :
        (i : ℕ)
        → (leb 16 i
            && (ltb i (16 + lower - nflags) && bit (store_data c w d).allocptr (i - (16 - nflags))))
          ≡ (leb 16 i && (ltb i (16 + lower - nflags) && bit d i))
    middle_stored i = rw (bit-store_data-allocptr w d (i - (16 - nflags))) (ground (arith, cfg))

    lowest_stored :
        (i : ℕ) → (ltb i 16 && bit (store_data c w d).ptr (48 + i)) ≡ (ltb i 16 && bit d i)
    lowest_stored i = rw (bit-store_data-ptr w d (48 + i)) (ground arith)

    -- `get_data` reads what `set_data` stored.
    pub get_data-store_data : d < 2 ^ 32 → get_data c (store_data c w d) ≡ d
    get_data-store_data fits = bit_ext (get_data c (store_data c w d)) d λ i.
        rw (bit-get_data, highest_stored i, middle_stored i, lowest_stored i)
          (ground (arith, bit_above i 32 d fits, cfg))

    -- `set_data` leaves both addresses and the flags alone.
    pub ptr-store_data :
        bit_and (store_data c w d).ptr any_ptr_value_bits_mask
        ≡ bit_and w.ptr any_ptr_value_bits_mask
    ptr-store_data =
        bit_ext _ _ λ i. simp (bit-and, bit-store_data-ptr, bit-word_ones) (ground arith)

    pub allocptr-store_data :
        bit_and (store_data c w d).allocptr (allocptr_mask c) ≡ bit_and w.allocptr (allocptr_mask c)
    allocptr-store_data = bit_ext _ _ λ i.
        simp (bit-and, bit-store_data-allocptr, bit-word_shl, bit-word_ones) (ground (arith, cfg))

    pub flag-store_data :
        (pos : ℕ) → pos < nflags → bit (store_data c w d).allocptr pos ≡ bit w.allocptr pos
    flag-store_data pos h = rw (bit-store_data-allocptr w d pos) (ground arith)
