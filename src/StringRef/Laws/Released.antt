-- ===== src/StringRef/Laws/Released.antt =====
-- The release of the string of a `string_ref`, and what the other objects then hold.
use nodecpp_foundation.Base.{ℕ, ◌≡◌, ◌≢◌, inl, inr, refl, ap, arith, true, false, lt_or_ge}
use nodecpp_foundation.Base.{List, not, ◌&&◌, ◌==◌, if◌then◌else◌}
use nodecpp_foundation.Base.Lists.{elem, erase, elem-erase}
use nodecpp_foundation.Base.Outcome.{ok}
use nodecpp_foundation.Base.Store.{Store, update}
use nodecpp_foundation.StringRef.{StringRef, Memory, release_str, c_str, IsValid, AreOwned}

-- The blocks in use without the one that `r` owns, if it owns one
abbrev pub freed : List ℕ → StringRef → List ℕ
freed live r = if not r.from_literal && not (r.str == 0) then erase r.str live else live

-- What releasing the string of the object at `this` comes to.
abbrev pub Released : Memory → Store StringRef → ℕ → Type 0
Released mem s this =
    (mem' : Memory) × (r : StringRef) × (release_str mem (s this) ≡ ok (mem', r))
    × AreOwned mem' (update s this r)
    × (mem'.text ≡ mem.text)
    × (mem'.is_literal ≡ mem.is_literal)
    × (mem'.live ≡ freed mem.live (s this))

AreOwned-update :
    (mem : Memory) (s : Store StringRef) (this : ℕ)
    → AreOwned mem s
    → AreOwned mem (update s this (s this))
AreOwned-update mem s this w = record {
  valid = λ q. ground (arith, w.valid q, w.valid this);
  separate = λ q r a b n e. ground (arith, w.separate q r);
}

release_owned :
    (mem : Memory) (s : Store StringRef) (this : ℕ)
    → AreOwned mem s
    → (s this).from_literal ≡ false
    → (s this).str ≢ 0
    → elem (s this).str mem.live ≡ true
    → Released mem s this
unfolding release_str
release_owned mem s this w own nz live = (
  record mem { live = erase (s this).str mem.live },
  record (s this) { str = 0 },
  ground arith,
  record {
    valid = λ q.
        ground (arith, w.valid q, w.separate q this, elem-erase (s this).str (s q).str mem.live);
    separate = λ q r a b n e. ground (arith, w.separate q r);
  },
  refl,
  refl,
  ground arith,
)

pub release_lem :
    (mem : Memory) (s : Store StringRef) (this : ℕ) → AreOwned mem s → Released mem s this
unfolding release_str
release_lem mem s this w = elim (w.valid this) [
  | inl null ↦ (mem, s this, ground arith, AreOwned-update mem s this w, refl, refl, ground arith)
  | inr (inl literal) ↦
      (mem, s this, ground arith, AreOwned-update mem s this w, refl, refl, ground arith)
  | inr (inr owned) ↦ elim (lt_or_ge 0 (s this).str) [
    | inl some_str ↦ release_owned mem s this w (owned.0) (ground arith) (owned.2)
    | inr null ↦ (mem, s this, ground arith, AreOwned-update mem s this w, refl, refl, ground arith)
  ]
]

c_str-valid :
    (mem : Memory) (mem' : Memory) (r : StringRef)
    → IsValid mem r
    → IsValid mem' r
    → mem'.text ≡ mem.text
    → c_str mem' r ≡ c_str mem r
unfolding c_str
c_str-valid mem mem' r v v' e = ground (arith, v, v', ap (λ f. f r.str) e)

pub at_this : (s : Store StringRef) (this : ℕ) (r : StringRef) → update s this r this ≡ r
at_this s this r = ground arith

pub elsewhere :
    (s : Store StringRef) (this : ℕ) (r : StringRef) (q : ℕ) → q ≢ this → update s this r q ≡ s q
elsewhere s this r q ne = ground arith

-- The other objects hold what they held when one is released.
pub released_other :
    (mem : Memory) (s : Store StringRef) (this : ℕ) (mem' : Memory) (r : StringRef)
    → AreOwned mem s
    → AreOwned mem' (update s this r)
    → mem'.text ≡ mem.text
    → (q : ℕ) → q ≢ this
    → c_str mem' (update s this r q) ≡ c_str mem (s q)
released_other mem s this mem' r w w' t q ne =
    rw (elsewhere s this r q ne)
      (c_str-valid mem mem' (s q) (w.valid q) (rw (← elsewhere s this r q ne) (w'.valid q)) t)
