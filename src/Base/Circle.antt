-- ===== src/Base/Circle.antt =====
-- Positions that run on while the bytes stand in a block of `size`, position `p` at `p % size`.
use native.Mathlib.Nat.{mod-lt, mod-eq_of_lt, mod-add-mod, mod-eq-sub-mod, suc-add}
use mathlib.Core.Path.{ap₂}
use nodecpp_foundation.Base.{
  ℕ, zero, suc, ◌+◌, ◌-◌, ◌%◌, ◌^◌, ◌≤◌, ◌<◌, ◌≡◌, refl, ap, sym, ◌∙◌, arith, leb, if◌then◌else◌,
}
use nodecpp_foundation.Base.{
  List, [], ◌∷◌, ◌++◌, bit_and, bit_ext, bit-and, bit-ones, bit-mod, lt_or_ge, inl, inr,
}
use nodecpp_foundation.Base.Lists.{
  length, at, take, drop, length-take, length-drop, at-take, at-drop,
}
use nodecpp_foundation.Base.Bytes.{
  read_from, write_from, write_from-before, write_from-after, write_from-at,
}

-- The `n` bytes at the positions from `p` on
abbrev pub circular : (ℕ → ℕ) → ℕ → ℕ → ℕ → List ℕ
circular f size p zero = []
circular f size p (suc n) = f (p % size) ∷ circular f size (suc p) n

pub length-circular : (f : ℕ → ℕ) (size p n : ℕ) → length (circular f size p n) ≡ n
length-circular f size p zero = refl
length-circular f size p (suc n) = ap suc (length-circular f size (suc p) n)

pub circular-add :
    (f : ℕ → ℕ) (size p m n : ℕ)
    → circular f size p (m + n) ≡ circular f size p m ++ circular f size (p + m) n
circular-add f size p zero n =
    ap (λ (q : ℕ). circular f size p q) (omega arith)
    ∙ ap (λ (q : ℕ). circular f size q n) (omega arith)
circular-add f size p (suc m) n =
    ap (λ (q : ℕ). circular f size p q) (suc-add m n)
    ∙ ap (λ t. f (p % size) ∷ t)
        (circular-add f size (suc p) m n
          ∙ ap (λ (q : ℕ). circular f size (suc p) m ++ circular f size q n) (omega arith))

-- Only the bytes at those positions count.
pub circular-cong :
    (f g : ℕ → ℕ) (size p n : ℕ)
    → ((q : ℕ) → p ≤ q → q < p + n → f (q % size) ≡ g (q % size))
    → circular f size p n ≡ circular g size p n
circular-cong f g size p zero same = refl
circular-cong f g size p (suc n) same = ground (
  arith,
  same p (omega arith) (omega arith),
  circular-cong f g size (suc p) n (λ q a b. same q (omega arith) (omega arith)),
)

pub circular-at :
    (f : ℕ → ℕ) (size p : ℕ) (xs : List ℕ)
    → ((i : ℕ) → i < length xs → f ((p + i) % size) ≡ at xs i)
    → circular f size p (length xs) ≡ xs
circular-at f size p [] same = refl
circular-at f size p (x ∷ xs) same = ground (
  arith,
  first,
  circular-at f size (suc p) xs
      (λ i lt. ap (λ (q : ℕ). f (q % size)) (omega arith) ∙ same (suc i) (omega arith)),
)
  where
    first : f (p % size) ≡ x
    first = ap (λ (q : ℕ). f (q % size)) (omega arith) ∙ same 0 (omega arith)

-- The mask of a power of two is the remainder.
pub offset_lem : (x k : ℕ) → bit_and x (2 ^ k - 1) ≡ x % 2 ^ k
offset_lem x k = bit_ext _ _ λ i. rw (bit-and, bit-ones i k, bit-mod i k x) (ground arith)

-- A position before the end of the block, and one that has come round.
pub mod-ahead : (p k size : ℕ) → p % size + k < size → (p + k) % size ≡ p % size + k
mod-ahead p k size lt = sym (mod-add-mod p size k) ∙ mod-eq_of_lt lt

pub mod-round :
    (p k size : ℕ)
    → size ≤ p % size + k
    → p % size + k < size + size
    → (p + k) % size ≡ p % size + k - size
mod-round p k size ge lt =
    sym (mod-add-mod p size k) ∙ mod-eq-sub-mod ge ∙ mod-eq_of_lt (omega arith)

-- A piece that does not reach the end of the block is read in one go.
pub circular-read :
    (f : ℕ → ℕ) (size p n : ℕ)
    → p % size + n ≤ size
    → circular f size p n ≡ read_from f (p % size) n
circular-read f size p zero le = refl
circular-read f size p (suc zero) le = refl
circular-read f size p (suc (suc n)) le =
    ground (arith, circular-read f size (suc p) (suc n) (omega (arith, next)), next)
  where
    next : suc p % size ≡ suc (p % size)
    next = ap (λ (q : ℕ). q % size) (omega arith) ∙ mod-ahead p 1 size (omega arith) ∙ omega arith

-- A piece that reaches the end of the block goes on at its start.
pub circular-read_round :
    (f : ℕ → ℕ) (size p n : ℕ)
    → size ≤ p % size + n
    → n ≤ size
    → 0 < size
    → circular f size p n
      ≡ read_from f (p % size) (size - p % size) ++ read_from f 0 (p % size + n - size)
circular-read_round f size p n ge le some_size =
    ap (circular f size p) split
    ∙ circular-add f size p head rest
    ∙ ap₂ (λ a b. a ++ b) (circular-read f size p head (omega (arith, small))) round
  where
    small : p % size < size
    small = mod-lt p some_size

    head : ℕ
    head = size - p % size

    rest : ℕ
    rest = p % size + n - size

    split : n ≡ head + rest
    split = omega (arith, small)

    at_start : (p + head) % size ≡ 0
    at_start =
        mod-round p head size (omega (arith, small)) (omega (arith, small)) ∙ omega (arith, small)

    round : circular f size (p + head) rest ≡ read_from f 0 rest
    round =
        circular-read f size (p + head) rest (omega (arith, at_start, small))
        ∙ ap (λ (q : ℕ). read_from f q rest) at_start

-- `memcpy` to offset `off` of a block of `size`, the rest of it to the start of the block
abbrev pub ring_write : (ℕ → ℕ) → ℕ → ℕ → List ℕ → ℕ → ℕ
ring_write f size off xs =
    if leb (length xs) (size - off)
    then write_from f off xs
    else write_from (write_from f off (take (size - off) xs)) 0 (drop (size - off) xs)

module _ (f : ℕ → ℕ) (size p : ℕ) (xs : List ℕ) (fits : length xs ≤ size)
    (some_size : 0 < size) where
  small : p % size < size
  small = mod-lt p some_size

  off : ℕ
  off = p % size

  head : ℕ
  head = size - off

  short : length xs ≤ head → (o : ℕ) → ring_write f size off xs o ≡ write_from f off xs o
  unfolding head
  short le o = ground arith

  long :
      head < length xs
      → (o : ℕ)
      → ring_write f size off xs o ≡ write_from (write_from f off (take head xs)) 0 (drop head xs) o
  unfolding head
  long gt o = ground arith

  pub ring_write-at :
      (i : ℕ) → i < length xs → ring_write f size (p % size) xs ((p + i) % size) ≡ at xs i
  unfolding off head
  ring_write-at i lt = elim (lt_or_ge head (length xs)) [
    | inr le ↦
        rw (mod-ahead p i size (omega (arith, small)), short le) (write_from-at f off xs i lt)
    | inl gt ↦ elim (lt_or_ge i head) [
      | inl before ↦
          rw (mod-ahead p i size (omega (arith, small)), long gt)
            (write_from-after (write_from f off (take head xs)) 0 (drop head xs) (off + i)
                (omega (arith, length-drop head xs, small))
              ∙ write_from-at f off (take head xs) i
                  (omega (arith, length-take head xs (omega arith)))
              ∙ at-take head xs i before)
      | inr after ↦
          rw (mod-round p i size (omega (arith, small)) (omega (arith, small)), long gt)
            (ap (write_from (write_from f off (take head xs)) 0 (drop head xs)) {x = off + i - size}
                {y = 0 + (i - head)} (omega (arith, small))
              ∙ write_from-at (write_from f off (take head xs)) 0 (drop head xs) (i - head)
                  (omega (arith, length-drop head xs))
              ∙ at-drop head xs (i - head)
              ∙ ap (at xs) {x = head + (i - head)} {y = i} (omega arith))
    ]
  ]

  pub ring_write-kept :
      (q : ℕ)
      → q < p
      → p + length xs ≤ q + size
      → ring_write f size (p % size) xs (q % size) ≡ f (q % size)
  unfolding off head
  ring_write-kept q lt le = elim (lt_or_ge (q % size + (p - q)) size) [
    | inl ahead ↦
        let e : off ≡ q % size + (p - q) =
          ap (λ (t : ℕ). t % size) {x = p} {y = q + (p - q)} (omega arith)
          ∙ mod-ahead q (p - q) size ahead in
        elim (lt_or_ge head (length xs)) [
          | inr le2 ↦ rw (short le2) (write_from-before f off xs (q % size) (omega arith))
          | inl gt ↦ rw (long gt) (
              write_from-after (write_from f off (take head xs)) 0 (drop head xs) (q % size)
                (omega (arith, length-drop head xs))
              ∙ write_from-before f off (take head xs) (q % size) (omega arith))
        ]
    | inr come_round ↦
        let q_small : q % size < size = mod-lt q some_size in
        let e : off ≡ q % size + (p - q) - size =
          ap (λ (t : ℕ). t % size) {x = p} {y = q + (p - q)} (omega arith)
          ∙ mod-round q (p - q) size come_round (omega arith) in
        rw (short (omega arith)) (write_from-after f off xs (q % size) (omega arith))
  ]
