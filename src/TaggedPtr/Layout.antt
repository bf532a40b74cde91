-- ===== src/TaggedPtr/Layout.antt =====
-- The digits of a pointer that an address uses, on a 64-bit platform, and the masks over them.
pub mod LowBit
use nodecpp_foundation.Base.{ℕ, zero, suc, ◌+◌, ◌-◌, ◌/◌, bit_and, if◌then◌else◌, ◌==◌}
use nodecpp_foundation.Base.{Option, none, some}
use nodecpp_foundation.Base.Words.{shl, ones}

abbrev pub pointer_bit_size : ℕ
pointer_bit_size = 64

abbrev pub unused_upper_bit_count : ℕ
unused_upper_bit_count = 16

-- `NODECPP_GUARANTEED_IIBMALLOC_ALIGNMENT_EXP`
abbrev pub unused_lower_bit_count_minimum : ℕ
unused_lower_bit_count_minimum = 5

abbrev pub any_ptr_value_bits_mask : ℕ
any_ptr_value_bits_mask = ones (pointer_bit_size - unused_upper_bit_count)

abbrev pub upper_data_mask : ℕ
upper_data_mask = shl (ones unused_upper_bit_count) (pointer_bit_size - unused_upper_bit_count)

-- The loop of `LowNonZeroBitPos`, on fuel; `none` means that the fuel ran out.
unfoldable pub low_non_zero_bit_pos_loop : ℕ → ℕ → ℕ → Option ℕ
low_non_zero_bit_pos_loop zero nn ret = none
low_non_zero_bit_pos_loop (suc fuel) nn ret =
    let rest = low_non_zero_bit_pos_loop fuel (nn / 2) (ret + 1) in
    if bit_and nn 1 == 0 then rest else some ret

unfoldable pub low_non_zero_bit_pos : ℕ → Option ℕ
unfolding low_non_zero_bit_pos_loop
low_non_zero_bit_pos n = low_non_zero_bit_pos_loop pointer_bit_size n 0
