-- ===== src/TaggedPtr/MaskFlags/Generic.antt =====
-- `generic_allocated_ptr_with_mask_and_flags_`: `flags` is a `uint16_t` and `mask` a `uint8_t`.
use nodecpp_foundation.Base.{ℕ, ◌-◌, ◌%◌, ◌^◌, bit_and, bit_or, Bool, not, ltb, ◌==◌}
use nodecpp_foundation.Base.Words.{shl, ones, complement}
use nodecpp_foundation.TaggedPtr.Layout.{pointer_bit_size, unused_upper_bit_count}
use nodecpp_foundation.Base.Outcome.{Outcome, ok, asserting, ◌>>=◌}
use nodecpp_foundation.TaggedPtr.MaskFlags.{int_shl}

pub record Masked : Type 0 where
  pub ptr : ℕ
  pub flags : ℕ
  pub mask : ℕ

module _ (lower masksize : ℕ) where
  abbrev pub ptr_mask : ℕ
  ptr_mask = shl (ones (pointer_bit_size - lower - unused_upper_bit_count)) lower

  -- `init()`
  unfoldable pub init_empty : Masked
  init_empty = record { ptr = 0; flags = 0; mask = 0 }

  unfoldable pub init : ℕ → Outcome Masked
  init ptr_ =
      asserting (bit_and ptr_ (complement ptr_mask) == 0)
        (ok (record { ptr = ptr_; flags = 0; mask = 0 }))

  unfoldable pub set_ptr : Masked → ℕ → Outcome Masked
  set_ptr g ptr_ =
      asserting (bit_and ptr_ (complement ptr_mask) == 0) (ok (record g { ptr = ptr_ }))

  unfoldable pub get_ptr : Masked → ℕ
  get_ptr g = g.ptr

  unfoldable pub set_flag : ℕ → Masked → Masked
  set_flag pos g = record g { flags = bit_or g.flags (shl 1 pos) % 2 ^ 16 }

  unfoldable pub unset_flag : ℕ → Masked → Masked
  unset_flag pos g = record g { flags = bit_and g.flags (complement (shl 1 pos)) % 2 ^ 16 }

  unfoldable pub has_flag : ℕ → Masked → Bool
  has_flag pos g = not (bit_and g.flags (shl 1 pos) == 0)

  unfoldable pub get_mask : Masked → ℕ
  get_mask g = g.mask

  -- Its assertion reads the member `mask`, not the argument.
  unfoldable pub set_mask : Masked → ℕ → Outcome Masked
  set_mask g mask_ = int_shl masksize >>= λ bound.
      asserting (ltb g.mask bound) (ok (record g { mask = mask_ % 2 ^ 8 }))
