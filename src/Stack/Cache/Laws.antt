-- ===== src/Stack/Cache/Laws.antt =====
-- The cache answers as the search that it spares, except for the offset.
use nodecpp_foundation.Base.{ℕ, zero, suc, ◌+◌, ◌≤◌, ◌<◌, ◌≡◌, refl, sym, arith}
use nodecpp_foundation.Base.{
  List, [], ◌∷◌, ◌++◌, Option, none, some, true, false, Bool-cases, inl, inr, ◌==◌,
}
use nodecpp_foundation.Stack.Text.{equal, until_zero}
use nodecpp_foundation.Stack.Cache.{
  StackStringCache, string_at, find_string, size, add_to_string_cache,
}

equal-eq : (xs ys : List ℕ) → equal xs ys ≡ true → xs ≡ ys
equal-eq [] [] e = refl
equal-eq [] (y ∷ ys) e = cc
equal-eq (x ∷ xs) [] e = cc
equal-eq (x ∷ xs) (y ∷ ys) e = elim (Bool-cases (x == y)) [
  | inl same ↦
      let rest : xs ≡ ys = equal-eq xs ys (ground (arith, e, same)) in
      let first : x ≡ y = ground (arith, same) in cc
  | inr other ↦ ground (arith, e, other)
]

pub until_zero_idem : (xs : List ℕ) → until_zero (until_zero xs) ≡ until_zero xs
until_zero_idem [] = refl
until_zero_idem (x ∷ xs) = ground (arith, until_zero_idem xs)

-- A string that is found stands at its place.
pub find_string-string_at :
    (str : List ℕ) (coll : StackStringCache) (i : ℕ)
    → find_string str coll ≡ some i
    → (string_at coll i ≡ str) × (i < size coll)
find_string-string_at str [] i e = cc
find_string-string_at str (s ∷ coll) i e = elim (Bool-cases (equal s str)) [
  | inl same ↦ ground (arith, e, same, equal-eq s str same)
  | inr other ↦ later (find_string str coll) refl other e (λ j. find_string-string_at str coll j)
]
  where
    later :
        (r : Option ℕ)
        → find_string str coll ≡ r
        → equal s str ≡ false
        → find_string str (s ∷ coll) ≡ some i
        → ((j : ℕ) → find_string str coll ≡ some j → (string_at coll j ≡ str) × (j < size coll))
        → (string_at (s ∷ coll) i ≡ str) × (i < size (s ∷ coll))
    later none er other e ih = ground (arith, er, other, e)
    later (some j) er other e ih =
        let r = ih j er in
        let place : suc j ≡ i = ground (arith, er, other, e) in
        rw (sym place) (r.0, omega (arith, r.1))

-- What was in a set stays at its place, and the string that is added stands at the place returned.
pub record Added (str : List ℕ) (coll : StackStringCache) (r : ℕ × StackStringCache) : Type 0 where
  pub stands : string_at (r.1) (r.0) ≡ str
  pub within : r.0 < size (r.1)
  pub grows : size coll ≤ size (r.1)
  pub kept : (i : ℕ) → i < size coll → string_at (r.1) i ≡ string_at coll i

string_at-append_left :
    (coll : StackStringCache) (str : List ℕ) (i : ℕ)
    → i < size coll
    → string_at (coll ++ (str ∷ [])) i ≡ string_at coll i
string_at-append_left [] str i lt = absurd (omega (arith, lt))
string_at-append_left (s ∷ coll) str zero lt = refl
string_at-append_left (s ∷ coll) str (suc i) lt =
    string_at-append_left coll str i (omega (arith, lt))

string_at-append_right :
    (coll : StackStringCache) (str : List ℕ) → string_at (coll ++ (str ∷ [])) (size coll) ≡ str
string_at-append_right [] str = refl
string_at-append_right (s ∷ coll) str = string_at-append_right coll str

size-append : (coll : StackStringCache) (str : List ℕ) → size (coll ++ (str ∷ [])) ≡ size coll + 1
size-append [] str = refl
size-append (s ∷ coll) str = omega (arith, size-append coll str)

pub add_to_string_cache-Added :
    (str : List ℕ) (coll : StackStringCache) → Added str coll (add_to_string_cache str coll)
unfolding add_to_string_cache
add_to_string_cache-Added str coll = by_search (find_string str coll) refl
  where
    by_search :
        (r : Option ℕ) → find_string str coll ≡ r → Added str coll (add_to_string_cache str coll)
    by_search none er =
        rw (add_to_string_cache, er)
          record {
            stands = string_at-append_right coll str;
            within = omega (arith, size-append coll str);
            grows = omega (arith, size-append coll str);
            kept = λ i lt. string_at-append_left coll str i lt;
          }
    by_search (some i) er =
        let found = find_string-string_at str coll i er in
        rw (add_to_string_cache, er)
          record { stands = found.0; within = found.1; grows = omega arith; kept = λ j lt. refl }
