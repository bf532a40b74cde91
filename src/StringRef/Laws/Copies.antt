-- ===== src/StringRef/Laws/Copies.antt =====
-- A copy of a `string_ref`: a block of its own, or the literal that is shared.
use nodecpp_foundation.Base.{
  ℕ, ◌≡◌, ◌≢◌, ◌⊎◌, inl, inr, refl, arith, List, ◌∷◌, not, ◌&&◌, ◌==◌, if◌then◌else◌, true, false,
  lt_or_ge,
}
use nodecpp_foundation.Base.Lists.{elem, IsMalloc}
use nodecpp_foundation.Base.Outcome.{Outcome, ok}
use nodecpp_foundation.Base.Store.{Store, update}
use nodecpp_foundation.StringRef.{
  StringRef, Memory, copied, c_str, duplicate_str, copy_of, AreOwned,
}

-- What the code relies on: `strdup` gives no block that a literal lies in.
pub record IsApart (mem : Memory) (malloc : List ℕ → ℕ) : Type 0 where
  pub apart : (live : List ℕ) → mem.is_literal (malloc live) ≡ false

-- The blocks in use after a copy `r` of `other`: a block of its own if `other` owns one
abbrev pub with_copy : List ℕ → StringRef → StringRef → List ℕ
with_copy live other r =
    if not other.from_literal && not (other.str == 0) then r.str ∷ live else live

-- What a copy of `other` for the object at `this` comes to.
abbrev pub Copies : Memory → Store StringRef → ℕ → StringRef → Outcome (Memory × StringRef) → Type 0
Copies mem s this other result =
    (mem' : Memory) × (r : StringRef) × (result ≡ ok (mem', r))
    × AreOwned mem' (update s this r)
    × (c_str mem' r ≡ c_str mem other)
    × ((q : ℕ) → c_str mem' (s q) ≡ c_str mem (s q))
    × (mem'.live ≡ with_copy mem.live other r)

module _ (malloc : List ℕ → ℕ) (ma : IsMalloc malloc) (mem : Memory) (ia : IsApart mem malloc)
    (s : Store StringRef) (this other : ℕ) (ne : this ≢ other) (w : AreOwned mem s) where
  p : ℕ
  p = malloc mem.live

  copy_of_owned :
      (s other).from_literal ≡ false
      → (s other).str ≢ 0
      → elem (s other).str mem.live ≡ true
      → Copies mem s this (s other) (copy_of malloc mem (s other))
  unfolding copy_of duplicate_str c_str p
  copy_of_owned own nz live = (
    copied mem (s other).str p,
    record { from_literal = false; str = p },
    ground arith,
    record {
      valid = λ q. ground (arith, w.valid q, ia.apart mem.live);
      separate =
          λ q r a b n e. ground (arith, w.separate q r, w.valid q, w.valid r, ma.fresh mem.live);
    },
    ground (arith, ma.not_null mem.live),
    λ q. ground (arith, w.valid q, ma.fresh mem.live, ia.apart mem.live),
    ground arith,
  )

  -- A null string and a literal are shared.
  copy_of_shared :
      ((s other).str ≡ 0) ⊎ ((s other).from_literal ≡ true)
      → Copies mem s this (s other) (copy_of malloc mem (s other))
  unfolding copy_of duplicate_str
  copy_of_shared shared = (
    mem,
    s other,
    ground arith,
    record {
      valid = λ q. ground (arith, w.valid q, w.valid other);
      separate =
          λ q r a b n e. ground (arith, w.separate q r, w.separate other r, w.separate q other);
    },
    refl,
    λ q. refl,
    ground arith,
  )

  pub copy_of_lem : Copies mem s this (s other) (copy_of malloc mem (s other))
  copy_of_lem = elim (w.valid other) [
    | inl null ↦ copy_of_shared (inl null)
    | inr (inl literal) ↦ copy_of_shared (inr (literal.0))
    | inr (inr owned) ↦ elim (lt_or_ge 0 (s other).str) [
      | inl some_str ↦ copy_of_owned (owned.0) (ground arith) (owned.2)
      | inr null ↦ copy_of_shared (inl (ground arith))
    ]
  ]
