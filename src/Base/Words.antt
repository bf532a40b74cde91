-- ===== src/Base/Words.antt =====
-- `uintptr_t` and `size_t` words of 64 digits: shifts, complement, single digits and bit fields.
use native.Mathlib.Nat.{mod-lt, pow-suc, one-le-pow}
use nodecpp_foundation.Base.Tests.{ltb, leb, ◌==◌, Bool-cases}
use nodecpp_foundation.Base.Bits.{
  bit, bit-mod, bit-shl, bit-shr, bit-ones, bit-power, bit-and, bit-or, bit-zero, bit_ext,
  mod_pow_suc, lt_of_bits, bit_above,
}
use Prim.Native.Nat.{ℕ, zero, suc, ◌+◌, ◌-◌, ◌*◌, ◌/◌, ◌%◌, ◌^◌, ◌<◌, bit_and}
use mathlib.Core.Path.{◌≡◌, ap, ◌∙◌}
use mathlib.Core.Logic.{inl, inr}
use mathlib.Core.Bool.{true, false, not, ◌&&◌}
use native.Mathlib.Omega.{arith}

abbrev pub word_size : ℕ
word_size = 64

-- `x << k` and `x >> k`.
unfoldable pub shl : ℕ → ℕ → ℕ
shl x k = x * 2 ^ k % 2 ^ word_size

unfoldable pub shr : ℕ → ℕ → ℕ
shr x k = x / 2 ^ k

-- `~x`.
unfoldable pub complement : ℕ → ℕ
complement x = 2 ^ word_size - 1 - x % 2 ^ word_size

-- `(1 << k) - 1`, where `1 << 64` wraps to 0.
unfoldable pub ones : ℕ → ℕ
ones k = 2 ^ k - 1

complement_half : (x w : ℕ) → (2 ^ suc w - 1 - x % 2 ^ suc w) / 2 ≡ 2 ^ w - 1 - x / 2 % 2 ^ w
complement_half x w =
    omega (
      arith,
      mod_pow_suc x w,
      pow-suc 2 w,
      mod-lt (x / 2) {m = 2 ^ w} (one-le-pow w 2 (omega arith)),
    )

bit_complement_at : (i w x : ℕ) → bit (2 ^ w - 1 - x % 2 ^ w) i ≡ (ltb i w && not (bit x i))
bit_complement_at i zero x = ground (arith, bit-zero i)
bit_complement_at zero (suc w) x =
    ground (
      arith,
      mod_pow_suc x w,
      pow-suc 2 w,
      mod-lt (x / 2) {m = 2 ^ w} (one-le-pow w 2 (omega arith)),
    )
bit_complement_at (suc i) (suc w) x =
    rw (complement_half x w) (ground (arith, bit_complement_at i w (x / 2)))

pub bit-complement : (i x : ℕ) → bit (complement x) i ≡ (ltb i word_size && not (bit x i))
unfolding complement
bit-complement i x = bit_complement_at i word_size x

pub bit-word_shl : (i x k : ℕ) → bit (shl x k) i ≡ (ltb i word_size && (leb k i && bit x (i - k)))
unfolding shl
bit-word_shl i x k =
    bit-mod i word_size (x * 2 ^ k) ∙ ap (λ b. ltb i word_size && b) (bit-shl i k x)

pub bit-word_shr : (i x k : ℕ) → bit (shr x k) i ≡ bit x (k + i)
unfolding shr
bit-word_shr i x k = bit-shr i k x

pub bit-word_ones : (i k : ℕ) → bit (ones k) i ≡ ltb i k
unfolding ones
bit-word_ones i k = bit-ones i k

pub bit-one : (i : ℕ) → bit 1 i ≡ (i == 0)
bit-one i = bit-power i 0

pub bit-ffff : (i : ℕ) → bit 0xffff i ≡ ltb i 16
bit-ffff i = bit-ones i 16

pub ruleset bit_laws =
    (bit-ffff, bit-and, bit-or, bit-complement, bit-word_shl, bit-word_shr, bit-word_ones, bit-one)

-- `1 << k` does not wrap for `k` below 64.
pub shl-one : (k : ℕ) → k < word_size → shl 1 k ≡ 2 ^ k
shl-one k h = bit_ext _ _ λ i. simp (bit-word_shl, bit-one, bit-power) (ground arith)

-- `(x & (1 << k)) != 0` reads digit `k`.
pub test_bit : (x k : ℕ) → k < word_size → not (bit_and x (shl 1 k) == 0) ≡ bit x k
test_bit x k h = elim (Bool-cases (bit x k)) [
  | inl on ↦ ground (arith, digit k, bit-zero k)
  | inr off ↦ ground (
    arith,
    bit_ext (bit_and x (shl 1 k)) 0 (λ i. ground (arith, digit i, bit-zero i, off_at i off)),
  )
]
  where
    digit : (i : ℕ) → bit (bit_and x (shl 1 k)) i ≡ (bit x i && (i == k))
    digit i = simp bit_laws (ground arith)

    off_at : (i : ℕ) → bit x k ≡ false → (i == k) ≡ true → bit x i ≡ false
    off_at i off e = ground arith
