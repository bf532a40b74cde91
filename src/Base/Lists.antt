-- ===== src/Base/Lists.antt =====
-- Lists of bytes and of pages, over the native numbers.
use native.Mathlib.Nat.{suc-add}
use nodecpp_foundation.Base.{ℕ, zero, suc, ◌+◌, ◌-◌, ◌≤◌, ◌<◌, arith, ◌≡◌, ◌≢◌, refl, ap, sym, ◌∙◌}
use nodecpp_foundation.Base.{List, [], ◌∷◌, ◌++◌, Bool, true, false, ◌||◌, ◌==◌, if◌then◌else◌}

abbrev pub length : List ℕ → ℕ
length [] = 0
length (x ∷ xs) = suc (length xs)

abbrev pub take : ℕ → List ℕ → List ℕ
take zero xs = []
take (suc n) [] = []
take (suc n) (x ∷ xs) = x ∷ take n xs

abbrev pub drop : ℕ → List ℕ → List ℕ
drop zero xs = xs
drop (suc n) [] = []
drop (suc n) (x ∷ xs) = drop n xs

-- Element `i`, 0 past the end.
abbrev pub at : List ℕ → ℕ → ℕ
at [] i = 0
at (x ∷ xs) zero = x
at (x ∷ xs) (suc i) = at xs i

abbrev pub elem : ℕ → List ℕ → Bool
elem p [] = false
elem p (x ∷ xs) = p == x || elem p xs

-- Without the first `p`.
abbrev pub erase : ℕ → List ℕ → List ℕ
erase p [] = []
erase p (x ∷ xs) = let rest = erase p xs in if p == x then xs else x ∷ rest

pub length-take : (n : ℕ) (xs : List ℕ) → n ≤ length xs → length (take n xs) ≡ n
length-take zero xs h = refl
length-take (suc n) [] h = absurd (omega arith)
length-take (suc n) (x ∷ xs) h = ap suc (length-take n xs (omega arith))

pub length-drop : (n : ℕ) (xs : List ℕ) → length (drop n xs) ≡ length xs - n
length-drop zero xs = omega arith
length-drop (suc n) [] = omega arith
length-drop (suc n) (x ∷ xs) = omega (arith, length-drop n xs)

pub take-drop : (n : ℕ) (xs : List ℕ) → (take n xs ++ drop n xs) ≡ xs
take-drop zero xs = refl
take-drop (suc n) [] = refl
take-drop (suc n) (x ∷ xs) = ap (λ t. x ∷ t) (take-drop n xs)

pub length-append : (xs ys : List ℕ) → length (xs ++ ys) ≡ length xs + length ys
length-append [] ys = omega arith
length-append (x ∷ xs) ys = omega (arith, length-append xs ys)

pub append_assoc : (xs ys zs : List ℕ) → ((xs ++ ys) ++ zs) ≡ (xs ++ (ys ++ zs))
append_assoc [] ys zs = refl
append_assoc (x ∷ xs) ys zs = ap (λ t. x ∷ t) (append_assoc xs ys zs)

pub at-append_left : (xs ys : List ℕ) (i : ℕ) → i < length xs → at (xs ++ ys) i ≡ at xs i
at-append_left [] ys i h = absurd (omega arith)
at-append_left (x ∷ xs) ys zero h = refl
at-append_left (x ∷ xs) ys (suc i) h = at-append_left xs ys i (omega arith)

pub at-append_right : (xs ys : List ℕ) (i : ℕ) → at (xs ++ ys) (length xs + i) ≡ at ys i
at-append_right [] ys i = ap (at ys) (omega arith)
at-append_right (x ∷ xs) ys i = rw (suc-add) (at-append_right xs ys i)

pub append-nil : (xs : List ℕ) → (xs ++ []) ≡ xs
append-nil [] = refl
append-nil (x ∷ xs) = ap (λ t. x ∷ t) (append-nil xs)

-- A table with another value at `p`.
abbrev pub put {ℓ} : {A : Type ℓ} → (ℕ → A) → ℕ → A → ℕ → A
put f p v q = if q == p then v else f q

-- What the code relies on: `malloc` gives a block that is not in use, and does not give up.
pub record IsMalloc (malloc : List ℕ → ℕ) : Type 0 where
  pub not_null : (live : List ℕ) → malloc live ≢ 0
  pub fresh : (live : List ℕ) → elem (malloc live) live ≡ false

pub elem-erase : (p q : ℕ) (l : List ℕ) → q ≢ p → elem q l ≡ true → elem q (erase p l) ≡ true
elem-erase p q [] ne e = e
elem-erase p q (x ∷ l) ne e = ground (arith, elem-erase p q l ne)

pub at-take : (n : ℕ) (xs : List ℕ) (i : ℕ) → i < n → at (take n xs) i ≡ at xs i
at-take zero xs i lt = absurd (omega arith)
at-take (suc n) [] i lt = refl
at-take (suc n) (x ∷ xs) zero lt = refl
at-take (suc n) (x ∷ xs) (suc i) lt = at-take n xs i (omega arith)

pub at-drop : (n : ℕ) (xs : List ℕ) (i : ℕ) → at (drop n xs) i ≡ at xs (n + i)
at-drop zero xs i = ap (at xs) (omega arith)
at-drop (suc n) [] i = refl
at-drop (suc n) (x ∷ xs) i = rw (suc-add) (at-drop n xs i)

pub take-at : (n : ℕ) (xs : List ℕ) (i : ℕ) → i < n → i < length xs → i < length (take n xs)
take-at zero xs i a b = a
take-at (suc n) [] i a b = b
take-at (suc n) (x ∷ xs) zero a b = omega arith
take-at (suc n) (x ∷ xs) (suc i) a b = omega (arith, take-at n xs i (omega arith) (omega arith))

pub drop-all : (n : ℕ) (xs : List ℕ) → length xs ≤ n → drop n xs ≡ []
drop-all zero [] le = refl
drop-all zero (x ∷ xs) le = absurd (omega (arith, le))
drop-all (suc n) [] le = refl
drop-all (suc n) (x ∷ xs) le = drop-all n xs (omega (arith, le))

pub take-nil : (n : ℕ) → take n [] ≡ []
take-nil zero = refl
take-nil (suc n) = refl

pub take-add : (a b : ℕ) (xs : List ℕ) → take (a + b) xs ≡ take a xs ++ take b (drop a xs)
take-add zero b xs = ap (λ (n : ℕ). take n xs) (omega arith)
take-add (suc a) b [] =
    ap (λ (n : ℕ). take n []) {x = suc a + b} {y = suc (a + b)} (omega arith) ∙ sym (take-nil b)
take-add (suc a) b (x ∷ xs) =
    ap (λ (n : ℕ). take n (x ∷ xs)) {x = suc a + b} {y = suc (a + b)} (omega arith)
    ∙ ap (λ t. x ∷ t) (take-add a b xs)

pub drop-add : (a b : ℕ) (xs : List ℕ) → drop (a + b) xs ≡ drop b (drop a xs)
drop-add zero b xs = ap (λ (n : ℕ). drop n xs) (omega arith)
drop-add (suc a) zero [] = ap (λ (n : ℕ). drop n []) {x = suc a + 0} {y = suc a} (omega arith)
drop-add (suc a) (suc b) [] =
    ap (λ (n : ℕ). drop n []) {x = suc a + suc b} {y = suc (a + suc b)} (omega arith)
drop-add (suc a) b (x ∷ xs) =
    ap (λ (n : ℕ). drop n (x ∷ xs)) {x = suc a + b} {y = suc (a + b)} (omega arith)
    ∙ drop-add a b xs
