-- ===== src/TaggedPtr/Flags/Optimized.antt =====
-- `optimized_allocated_ptr_with_flags_`: one word, the flags in the digits below the alignment.
use nodecpp_foundation.Base.{ℕ, bit_and, bit_or, Bool, not, ◌==◌}
use nodecpp_foundation.Base.Words.{shl, ones, complement}
use nodecpp_foundation.Base.Outcome.{Outcome, ok, asserting}

-- A word in the place of the struct's only member.
pub record Word : Type 0 where
  pub ptr : ℕ

-- `lower` is `allocated_ptr_unused_lower_bit_count`.
module _ (lower : ℕ) where
  abbrev pub lower_data_mask : ℕ
  lower_data_mask = ones lower

  unfoldable pub init : ℕ → Outcome Word
  init ptr_ =
      asserting (bit_and ptr_ lower_data_mask == 0)
        (ok (record { ptr = bit_and ptr_ (complement lower_data_mask) }))

  unfoldable pub set_ptr : Word → ℕ → Word
  set_ptr w ptr_ = record {
    ptr = bit_or (bit_and w.ptr lower_data_mask) (bit_and ptr_ (complement lower_data_mask));
  }

  unfoldable pub get_ptr : Word → ℕ
  get_ptr w = bit_and w.ptr (complement lower_data_mask)

unfoldable pub set_flag : ℕ → Word → Word
set_flag pos w = record { ptr = bit_or w.ptr (shl 1 pos) }

unfoldable pub unset_flag : ℕ → Word → Word
unset_flag pos w = record { ptr = bit_and w.ptr (complement (shl 1 pos)) }

unfoldable pub has_flag : ℕ → Word → Bool
has_flag pos w = not (bit_and w.ptr (shl 1 pos) == 0)
