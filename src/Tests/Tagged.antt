-- ===== src/Tests/Tagged.antt =====
-- The theorems on tagged pointers at concrete inputs.
use nodecpp_foundation.Base.{ℕ, ◌^◌, ◌%◌, ◌/◌, inr}
use nodecpp_foundation.Base.{◌==◌, if◌then◌else◌, ◌≡◌, arith, some}
use nodecpp_foundation.Base.Words.{shl}
use nodecpp_foundation.Base.Outcome.{ok, throws, zero_access}
use nodecpp_foundation.Base.Store.{Store}
use nodecpp_foundation.TaggedPtr.Layout.{low_non_zero_bit_pos}
use nodecpp_foundation.TaggedPtr.Layout.LowBit.{low_non_zero_bit_pos_lem}
use nodecpp_foundation.TaggedPtr.PtrPtr.Optimized as Two
use nodecpp_foundation.TaggedPtr.PtrPtr.Optimized.{Config, IsConfig}
use nodecpp_foundation.TaggedPtr.PtrPtr.Optimized.Parts.{SameAddresses, SameFlag}
use nodecpp_foundation.TaggedPtr.PtrPtr.Optimized.Fields.{set_data_lem, set_allocated_ptr_lem}

-- The template arguments of test/main.cpp.
abbrev tested : Config
tested = record { lower = 3; dataminsize = 32; nflags = 1 }

tested-IsConfig : IsConfig tested
tested-IsConfig = record {
  few_flags = omega arith;
  few_data = omega arith;
  flags_fit = omega arith;
  no_rest_no_flags = inr (omega arith);
  int_shift = omega arith;
}

-- Address 4096 in an object at 8192, with data and a flag.
abbrev sample : Two.Tagged
sample = record { ptr = 0x0011000000001000; allocptr = 0x2001 }

set_data_lem_example :
    (w' : Two.Tagged) × (Two.set_data tested sample 0x12345678 ≡ ok w')
    × (Two.get_data tested w' ≡ 0x12345678)
    × SameAddresses tested w' sample
    × SameFlag tested 0 w' sample
unfolding Two.max_data shl
set_data_lem_example = set_data_lem tested tested-IsConfig sample 0x12345678 0 (omega arith)

set_allocated_ptr_lem_example :
    (w' : Two.Tagged) × (Two.set_allocated_ptr tested sample 0x4008 ≡ ok w')
    × (Two.get_allocated_ptr tested w'
        ≡ (if Two.is_zombie tested sample then throws zero_access else ok 0x4008))
    × (Two.get_data tested w' ≡ Two.get_data tested sample)
    × SameFlag tested 0 w' sample
    × (w'.ptr ≡ sample.ptr)
set_allocated_ptr_lem_example =
    set_allocated_ptr_lem tested tested-IsConfig sample 0x4008 0 (omega arith)

-- Object 1 is the sample, every other is null.
abbrev objects : Store Two.Tagged
objects q = if q == 1 then sample else record { ptr = 0; allocptr = 0 }

low_non_zero_bit_pos_lem_example :
    (k : ℕ) × (low_non_zero_bit_pos 48 ≡ some k) × (48 % 2 ^ k ≡ 0) × (48 / 2 ^ k % 2 ≡ 1)
low_non_zero_bit_pos_lem_example = low_non_zero_bit_pos_lem 48 (omega arith) (omega arith)
