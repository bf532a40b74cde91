-- ===== src/Base/Bytes.antt =====
-- Bytes written to and read from one block of memory.
use nodecpp_foundation.Base.{ℕ, zero, suc, ◌+◌, ◌≤◌, ◌<◌, ◌≡◌, refl, ap, ◌∙◌, arith}
use nodecpp_foundation.Base.{List, [], ◌∷◌}
use nodecpp_foundation.Base.Lists.{length, at, put}

-- `memcpy` of a list to offset `off`
abbrev pub write_from : (ℕ → ℕ) → ℕ → List ℕ → ℕ → ℕ
write_from f off [] = f
write_from f off (x ∷ xs) = write_from (put f off x) (suc off) xs

-- The `n` bytes from offset `off`
abbrev pub read_from : (ℕ → ℕ) → ℕ → ℕ → List ℕ
read_from f off zero = []
read_from f off (suc n) = f off ∷ read_from f (suc off) n

pub write_from-before :
    (f : ℕ → ℕ) (off : ℕ) (xs : List ℕ) (o : ℕ) → o < off → write_from f off xs o ≡ f o
write_from-before f off [] o lt = refl
write_from-before f off (x ∷ xs) o lt =
    ground (arith, write_from-before (put f off x) (suc off) xs o (omega arith))

pub write_from-after :
    (f : ℕ → ℕ) (off : ℕ) (xs : List ℕ) (o : ℕ) → off + length xs ≤ o → write_from f off xs o ≡ f o
write_from-after f off [] o le = refl
write_from-after f off (x ∷ xs) o le =
    ground (arith, write_from-after (put f off x) (suc off) xs o (omega arith))

pub write_from-at :
    (f : ℕ → ℕ) (off : ℕ) (xs : List ℕ) (i : ℕ)
    → i < length xs
    → write_from f off xs (off + i) ≡ at xs i
write_from-at f off [] i lt = absurd (omega arith)
write_from-at f off (x ∷ xs) zero lt =
    ground (arith, write_from-before (put f off x) (suc off) xs (off + 0) (omega arith))
write_from-at f off (x ∷ xs) (suc i) lt =
    ap (λ (o : ℕ). write_from (put f off x) (suc off) xs o) (omega arith)
    ∙ write_from-at (put f off x) (suc off) xs i (omega arith)

pub length-read_from : (f : ℕ → ℕ) (off n : ℕ) → length (read_from f off n) ≡ n
length-read_from f off zero = refl
length-read_from f off (suc n) = ap suc (length-read_from f (suc off) n)

-- The bytes that stand at the positions of a list are the list.
pub read_from-at :
    (b : ℕ → ℕ) (off : ℕ) (xs : List ℕ)
    → ((i : ℕ) → i < length xs → b (off + i) ≡ at xs i)
    → read_from b off (length xs) ≡ xs
read_from-at b off [] h = refl
read_from-at b off (x ∷ xs) h =
    rw
      (
        ap b {x = off} {y = off + 0} (omega arith) ∙ h 0 (omega arith),
        read_from-at b (suc off) xs (λ i lt.
            ap b {x = suc off + i} {y = off + suc i} (omega arith) ∙ h (suc i) (omega arith)),
      )
      refl
