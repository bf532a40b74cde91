-- ===== src/TaggedPtr/MaskFlags.antt =====
-- `allocated_ptr_with_mask_and_flags`: an allocated pointer with a mask and flags.
pub mod Generic
pub mod Optimized
pub mod Laws
use nodecpp_foundation.Base.{ℕ, ◌-◌, ◌^◌, ltb, ◌==◌, if◌then◌else◌}
use nodecpp_foundation.Base.Words.{shl}
use nodecpp_foundation.Base.Outcome.{Outcome, ok, throws, undefined_shift}

-- `1<<masksize`, a shift of an `int` of 32 bits, as the `size_t` that it is compared with: 1<<31 is negative.
abbrev pub int_shl : ℕ → Outcome ℕ
int_shl masksize =
    if ltb masksize 31
    then ok (shl 1 masksize)
    else (if masksize == 31 then ok (2 ^ 64 - 2 ^ 31) else throws undefined_shift)
