-- ===== src/TaggedPtr/Layout/LowBit.antt =====
-- `LowNonZeroBitPos` ends, and at the lowest digit that is set.
use nodecpp_foundation.Base.{ℕ, zero, suc, ◌+◌, ◌/◌, ◌%◌, ◌^◌, ◌<◌, ◌≢◌, not}
use nodecpp_foundation.Base.{bit, bit_and, ◌==◌, ◌≡◌, refl, arith, some}
use nodecpp_foundation.Base.{mod_pow_suc, Bool-cases, inl, inr}
use nodecpp_foundation.Base.Words.{test_bit, shl}
use native.Mathlib.Nat.{pow-suc, mul_comm, div-div-eq-div-mul, zero-add}
use nodecpp_foundation.TaggedPtr.Layout.{low_non_zero_bit_pos, low_non_zero_bit_pos_loop}

-- `(nn & 1)` reads the lowest digit.
lowest_digit : (n : ℕ) → (bit_and n 1 == 0) ≡ not (bit n 0)
lowest_digit n = ground (arith, test_bit n 0, one)
  where
    one : shl 1 0 ≡ 1
    one = unfold shl in refl

-- The loop started at `nn` returns `ret` plus the position of the lowest digit set in `nn`.
loop_lem :
    (fuel nn ret : ℕ)
    → 0 < nn
    → nn < 2 ^ fuel
    → (k : ℕ) × (low_non_zero_bit_pos_loop fuel nn ret ≡ some (ret + k))
      × (nn % 2 ^ k ≡ 0)
      × (nn / 2 ^ k % 2 ≡ 1)
unfolding low_non_zero_bit_pos_loop
loop_lem zero nn ret pos h = absurd (omega arith)
loop_lem (suc fuel) nn ret pos h = elim (Bool-cases (bit nn 0)) [
  | inl odd ↦ (0, ground (arith, lowest_digit nn, odd), omega arith, ground arith)
  | inr even ↦
      let (k, e, m, q) =
        loop_lem fuel (nn / 2) (ret + 1) (ground arith) (omega (arith, pow-suc 2 fuel)) in
      (
        suc k,
        ground (arith, lowest_digit nn, even, e),
        ground (arith, mod_pow_suc nn k, m),
        ground (arith, q, halves k),
      )
]
  where
    halves : (k : ℕ) → nn / 2 ^ suc k ≡ nn / 2 / 2 ^ k
    halves k = rw (pow-suc 2 k, mul_comm (2 ^ k) 2, ← div-div-eq-div-mul nn 2 (2 ^ k))

-- For a word that is not 0 `LowNonZeroBitPos` returns the position of its lowest digit that is set:
-- the word is a multiple of that power of two, with an odd quotient. 64 rounds are enough.
pub low_non_zero_bit_pos_lem :
    (n : ℕ)
    → n ≢ 0
    → n < 2 ^ 64
    → (k : ℕ) × (low_non_zero_bit_pos n ≡ some k) × (n % 2 ^ k ≡ 0) × (n / 2 ^ k % 2 ≡ 1)
unfolding low_non_zero_bit_pos
low_non_zero_bit_pos_lem n ne h =
    let (k, e, m, q) = loop_lem 64 n 0 (omega arith) h in (k, rw (← zero-add k) e, m, q)
