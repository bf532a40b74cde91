-- ===== src/Message/Memory/Writes.antt =====
-- What is read back after bytes are written, and elsewhere.
use nodecpp_foundation.Base.{
  ℕ, zero, suc, ◌+◌, ◌≤◌, ◌<◌, ◌≡◌, ◌≢◌, ◌⊎◌, inl, inr, refl, ap, ◌∙◌, arith, List, [], ◌∷◌,
}
use nodecpp_foundation.Base.Lists.{length, at}
use nodecpp_foundation.Message.Memory.{write_bytes, read_bytes}
use nodecpp_foundation.Base.Lists.{put}

pub write_bytes-elsewhere :
    (f : ℕ → ℕ → ℕ) (page off : ℕ) (xs : List ℕ) (q o : ℕ)
    → (q ≢ page) ⊎ (o < off)
    → write_bytes f page off xs q o ≡ f q o
write_bytes-elsewhere f page off [] q o e = refl
write_bytes-elsewhere f page off (x ∷ xs) q o (inl e) =
    ground
      (arith, write_bytes-elsewhere (put f page (put (f page) off x)) page (suc off) xs q o (inl e))
write_bytes-elsewhere f page off (x ∷ xs) q o (inr e) = ground (
  arith,
  write_bytes-elsewhere (put f page (put (f page) off x)) page (suc off) xs q o (inr (omega arith)),
)

pub write_bytes-at :
    (f : ℕ → ℕ → ℕ) (page off : ℕ) (xs : List ℕ) (i : ℕ)
    → i < length xs
    → write_bytes f page off xs page (off + i) ≡ at xs i
write_bytes-at f page off [] i lt = absurd (omega arith)
write_bytes-at f page off (x ∷ xs) zero lt = ground (
  arith,
  write_bytes-elsewhere (put f page (put (f page) off x)) page (suc off) xs page (off + 0)
      (inr (omega arith)),
)
write_bytes-at f page off (x ∷ xs) (suc i) lt =
    ap (λ (o : ℕ). write_bytes (put f page (put (f page) off x)) page (suc off) xs page o)
      (omega arith)
    ∙ write_bytes-at (put f page (put (f page) off x)) page (suc off) xs i (omega arith)

pub write_bytes-after :
    (f : ℕ → ℕ → ℕ) (page off : ℕ) (xs : List ℕ) (q o : ℕ)
    → off + length xs ≤ o
    → write_bytes f page off xs q o ≡ f q o
write_bytes-after f page off [] q o le = refl
write_bytes-after f page off (x ∷ xs) q o le =
    ground (
      arith,
      write_bytes-after (put f page (put (f page) off x)) page (suc off) xs q o (omega arith),
    )

-- Bytes that stand in a page are read from it.
pub read_bytes-at :
    (f : ℕ → ℕ → ℕ) (page off : ℕ) (xs : List ℕ)
    → ((i : ℕ) → i < length xs → f page (off + i) ≡ at xs i)
    → read_bytes f page off (length xs) ≡ xs
read_bytes-at f page off [] same = refl
read_bytes-at f page off (x ∷ xs) same =
    ground (arith, first, read_bytes-at f page (suc off) xs rest)
  where
    first : f page off ≡ x
    first = ap (f page) (omega arith) ∙ same 0 (omega arith)

    rest : (i : ℕ) → i < length xs → f page (suc off + i) ≡ at xs i
    rest i lt = ap (f page) (omega arith) ∙ same (suc i) (omega arith)
