-- ===== src/TaggedPtr/MaskFlags/Optimized.antt =====
-- `optimized_allocated_ptr_with_mask_and_flags_64_`: one word, the mask in the digits below the
-- alignment and the flags in the upper 16.
use nodecpp_foundation.Base.{ℕ, ◌+◌, ◌-◌, bit_and, bit_or, Bool, not, ltb, ◌==◌}
use nodecpp_foundation.Base.Words.{shl, ones, complement}
use nodecpp_foundation.TaggedPtr.Layout.{pointer_bit_size, unused_upper_bit_count}
use nodecpp_foundation.Base.Outcome.{Outcome, ok, asserting, ◌>>=◌}
use nodecpp_foundation.TaggedPtr.MaskFlags.{int_shl}

pub record Word : Type 0 where
  pub ptr : ℕ

-- `lower` is `allocated_ptr_unused_lower_bit_count`.
module _ (lower masksize : ℕ) where
  abbrev pub ptr_mask : ℕ
  ptr_mask = shl (ones (pointer_bit_size - lower - unused_upper_bit_count)) lower

  abbrev pub upper_data_offset : ℕ
  upper_data_offset = pointer_bit_size - unused_upper_bit_count

  abbrev pub lower_data_mask : ℕ
  lower_data_mask = ones lower

  -- `init()`
  unfoldable pub init_empty : Word
  init_empty = record { ptr = 0 }

  unfoldable pub init : ℕ → Outcome Word
  init ptr_ = asserting (bit_and ptr_ (complement ptr_mask) == 0) (ok (record { ptr = ptr_ }))

  unfoldable pub set_ptr : Word → ℕ → Outcome Word
  set_ptr w ptr_ = asserting (bit_and ptr_ (complement ptr_mask) == 0) (
      ok (record {
        ptr = bit_or (bit_and w.ptr lower_data_mask) (bit_and ptr_ (complement lower_data_mask));
      }))

  unfoldable pub get_ptr : Word → ℕ
  get_ptr w = bit_and w.ptr ptr_mask

  unfoldable pub set_flag : ℕ → Word → Word
  set_flag pos w = record { ptr = bit_or w.ptr (shl 1 (upper_data_offset + pos)) }

  unfoldable pub unset_flag : ℕ → Word → Word
  unset_flag pos w = record { ptr = bit_and w.ptr (complement (shl 1 (upper_data_offset + pos))) }

  unfoldable pub has_flag : ℕ → Word → Bool
  has_flag pos w = not (bit_and w.ptr (shl 1 (upper_data_offset + pos)) == 0)

  unfoldable pub get_mask : Word → ℕ
  get_mask w = bit_and w.ptr lower_data_mask

  unfoldable pub set_mask : Word → ℕ → Outcome Word
  set_mask w mask = int_shl masksize >>= λ bound.
      asserting (ltb mask bound)
        (ok (record { ptr = bit_or (bit_and w.ptr (complement lower_data_mask)) mask }))
