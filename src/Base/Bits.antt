-- ===== src/Base/Bits.antt =====
-- The binary digits of a number, and what each word operation does to them. Words are equal when
-- their digits are (`bit_ext`), so facts about masks and shifts hold at every width.
use Prim.Native.Nat.{min, max, digits, bit_and-bitwise, bit_or-bitwise}
use Prim.Native.Nat.{ℕ, zero, suc, ◌+◌, ◌-◌, ◌*◌, ◌/◌, ◌%◌, ◌^◌, ◌≤◌, ◌<◌, bit_and, bit_or}
use mathlib.Core.Path.{◌≡◌, refl, ap}
use mathlib.Core.Bool.{Bool, false, ◌&&◌, ◌||◌}
use native.Mathlib.Omega.{arith}
use native.Mathlib.Nat.{
  pow-suc, one-le-pow, mul_comm, div-div-eq-div-mul, zero-add, suc-add, mul-one, sub-zero,
}
use native.Mathlib.Nat.{mod-lt, mod-eq_of_lt, mod-one, div-add-mod}
use nodecpp_foundation.Base.Tests.{ltb, leb, ◌==◌}

-- Digit `i` of `x`, from the lowest.
abbrev pub bit : ℕ → ℕ → Bool
bit x zero = x % 2 == 1
bit x (suc i) = bit (x / 2) i

pub bit-zero : (i : ℕ) → bit 0 i ≡ false
bit-zero zero = refl
bit-zero (suc i) = bit-zero i

-- The digits of what the native operations stand for, whatever the count of digits to go.
module _ (z : ℕ → ℕ) (f : ℕ → ℕ → ℕ) (g : Bool → Bool → Bool) where
  bit-digits :
      ((b i : ℕ) → bit (z b) i ≡ g false (bit b i))
      → ((a b : ℕ) → f (a % 2) (b % 2) < 2)
      → ((a b : ℕ) → (f (a % 2) (b % 2) == 1) ≡ g (a % 2 == 1) (b % 2 == 1))
      → (todo i a b : ℕ) → a ≤ todo
      → bit (digits z f todo a b) i ≡ g (bit a i) (bit b i)
  bit-digits end small table zero i zero b le = rw (bit-zero i) (end b i)
  bit-digits end small table zero i (suc a) b le = absurd (omega arith)
  bit-digits end small table (suc todo) i zero b le = rw (bit-zero i) (end b i)
  bit-digits end small table (suc todo) zero (suc a) b le =
      rw (← table (suc a) b) (ap (λ t. t == 1) (omega (arith, small (suc a) b)))
  bit-digits end small table (suc todo) (suc i) (suc a) b le =
      rw (← bit-digits end small table todo i (suc a / 2) (b / 2) (omega arith))
        (ap (λ t. bit t i) (omega (arith, small (suc a) b)))

pub bit-or : (i a b : ℕ) → bit (bit_or a b) i ≡ (bit a i || bit b i)
bit-or i a b = rw (bit_or-bitwise a b) (
    bit-digits (λ b. b) max ◌||◌ (λ b i. refl) (λ a b. ground arith) (λ a b. ground arith) a i a b
      (omega arith))

pub bit-and : (i a b : ℕ) → bit (bit_and a b) i ≡ (bit a i && bit b i)
bit-and i a b = rw (bit_and-bitwise a b) (
    bit-digits (λ b. 0) min ◌&&◌ (λ b i. bit-zero i) (λ a b. ground arith) (λ a b. ground arith) a i
      a b (omega arith))

div_pow_suc : (x k : ℕ) → x / 2 ^ suc k ≡ x / 2 / 2 ^ k
div_pow_suc x k = rw (pow-suc 2 k, mul_comm (2 ^ k) 2, ← div-div-eq-div-mul x 2 (2 ^ k))

-- `x >> k`.
pub bit-shr : (i k x : ℕ) → bit (x / 2 ^ k) i ≡ bit x (k + i)
bit-shr i zero x = rw (zero-add) (ap (λ t. bit t i) (omega arith))
bit-shr i (suc k) x = rw (div_pow_suc, suc-add) (bit-shr i k (x / 2))

double_pow : (x k : ℕ) → x * 2 ^ suc k ≡ 2 * (x * 2 ^ k)
double_pow x k = omega (arith, ap (λ (t : ℕ). x * t) (pow-suc 2 k))

-- `x << k`, before it is cut to a width.
pub bit-shl : (i k x : ℕ) → bit (x * 2 ^ k) i ≡ (leb k i && bit x (i - k))
bit-shl i zero x = ground (arith, ap (λ (t : ℕ). bit t i) (mul-one x), ap (bit x) (sub-zero i))
bit-shl zero (suc k) x = ground (arith, double_pow x k)
bit-shl (suc i) (suc k) x = rw (halves x k) (ground (arith, bit-shl i k x))
  where
    halves : (x k : ℕ) → x * 2 ^ suc k / 2 ≡ x * 2 ^ k
    halves x k = omega (arith, double_pow x k)

pub mod_pow_suc : (x w : ℕ) → x % 2 ^ suc w ≡ 2 * (x / 2 % 2 ^ w) + x % 2
mod_pow_suc x w = omega (
  arith,
  div-add-mod x (2 ^ suc w),
  div-add-mod (x / 2) (2 ^ w),
  div_pow_suc x w,
  double_pow (x / 2 / 2 ^ w) w,
  ap (λ (t : ℕ). 2 ^ suc w * t) (div_pow_suc x w),
)

-- A cut to `w` digits.
pub bit-mod : (i w x : ℕ) → bit (x % 2 ^ w) i ≡ (ltb i w && bit x i)
bit-mod i zero x = ground (arith, bit-zero i, ap (λ (t : ℕ). bit t i) (mod-one x))
bit-mod zero (suc w) x = ground (arith, mod_pow_suc x w)
bit-mod (suc i) (suc w) x = rw (halves x w) (ground (arith, bit-mod i w (x / 2)))
  where
    halves : (x w : ℕ) → x % 2 ^ suc w / 2 ≡ x / 2 % 2 ^ w
    halves x w = omega (arith, mod_pow_suc x w)

-- A mask of `k` ones.
pub bit-ones : (i k : ℕ) → bit (2 ^ k - 1) i ≡ ltb i k
bit-ones i zero = ground (arith, bit-zero i)
bit-ones zero (suc k) = ground (arith, pow-suc 2 k, one-le-pow k 2)
bit-ones (suc i) (suc k) = rw (halves k) (ground (arith, bit-ones i k))
  where
    halves : (k : ℕ) → (2 ^ suc k - 1) / 2 ≡ 2 ^ k - 1
    halves k = omega (arith, pow-suc 2 k, one-le-pow k 2)

-- One digit.
pub bit-power : (i k : ℕ) → bit (2 ^ k) i ≡ (i == k)
bit-power zero zero = refl
bit-power (suc i) zero = ground (arith, bit-zero i)
bit-power zero (suc k) = ground (arith, pow-suc 2 k)
bit-power (suc i) (suc k) = rw (halves k) (ground (arith, bit-power i k))
  where
    halves : (k : ℕ) → 2 ^ suc k / 2 ≡ 2 ^ k
    halves k = omega (arith, pow-suc 2 k)

bit_ext_below : (n x y : ℕ) → x ≤ n → y ≤ n → ((i : ℕ) → bit x i ≡ bit y i) → x ≡ y
bit_ext_below zero x y p q h = omega arith
bit_ext_below (suc n) x y p q h =
    ground
      (arith, h 0, bit_ext_below n (x / 2) (y / 2) (omega arith) (omega arith) (λ i. h (suc i)))

pub bit_ext : (x y : ℕ) → ((i : ℕ) → bit x i ≡ bit y i) → x ≡ y
bit_ext x y h = bit_ext_below (x + y) x y (omega arith) (omega arith) h

-- A word below `2 ^ w` has no digit at `w` or above.
pub bit_above : (i w x : ℕ) → x < 2 ^ w → w ≤ i → bit x i ≡ false
bit_above i w x h le = ground (arith, bit-mod i w x, ap (λ (t : ℕ). bit t i) (mod-eq_of_lt h))

-- The other way round.
pub lt_of_bits : (w x : ℕ) → ((i : ℕ) → w ≤ i → bit x i ≡ false) → x < 2 ^ w
lt_of_bits w x h = rw (← fits) (mod-lt x (one-le-pow w 2 (omega arith)))
  where
    fits : x % 2 ^ w ≡ x
    fits = bit_ext _ _ λ i. ground (arith, bit-mod i w x, h i)
