-- ===== src/TaggedPtr/Flags/Generic.antt =====
-- `generic_allocated_ptr_with_flags_`: `flags` is a `uint8_t`. It is promoted to `int` in each
-- expression, and the result is cut to 8 digits when it is stored.
use nodecpp_foundation.Base.{ℕ, ◌%◌, ◌^◌, bit_and, bit_or, Bool, not, ◌==◌}
use nodecpp_foundation.Base.Words.{shl, complement}

pub record Flagged : Type 0 where
  pub ptr : ℕ
  pub flags : ℕ

unfoldable pub init : ℕ → Flagged
init ptr_ = record { ptr = ptr_; flags = 0 }

unfoldable pub set_ptr : Flagged → ℕ → Flagged
set_ptr g ptr_ = record g { ptr = ptr_ }

unfoldable pub get_ptr : Flagged → ℕ
get_ptr g = g.ptr

unfoldable pub set_flag : ℕ → Flagged → Flagged
set_flag pos g = record g { flags = bit_or g.flags (shl 1 pos) % 2 ^ 8 }

unfoldable pub unset_flag : ℕ → Flagged → Flagged
unset_flag pos g = record g { flags = bit_and g.flags (complement (shl 1 pos)) % 2 ^ 8 }

unfoldable pub has_flag : ℕ → Flagged → Bool
has_flag pos g = not (bit_and g.flags (shl 1 pos) == 0)
