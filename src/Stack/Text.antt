-- ===== src/Stack/Text.antt =====
-- What src/stack_info.cpp and include/stack_info.h use of `std::string` and of the input library of C.
use nodecpp_foundation.Base.{ℕ, zero, suc, ◌+◌, ◌-◌, ◌*◌, ◌%◌, List, [], ◌∷◌, Option, none, some}
use nodecpp_foundation.Base.{Bool, true, false, ◌&&◌, ◌||◌, leb, ◌==◌, if◌then◌else◌}
use nodecpp_foundation.Base.Lists.{take, drop}

-- `operator ==` of strings
abbrev pub equal : List ℕ → List ℕ → Bool
equal [] [] = true
equal [] (y ∷ ys) = false
equal (x ∷ xs) [] = false
equal (x ∷ xs) (y ∷ ys) = x == y && equal xs ys

-- The characters of a string of C: those before the first zero
abbrev pub until_zero : List ℕ → List ℕ
until_zero [] = []
until_zero (x ∷ xs) = let rest = x ∷ until_zero xs in if x == 0 then [] else rest

-- `find( c )`: the first position of a character, if there is one
abbrev pub find : ℕ → List ℕ → Option ℕ
find c [] = none
find c (x ∷ xs) =
    let later : Option ℕ = elim (find c xs) [ none ↦ none | some i ↦ some (suc i) ] in
    if x == c then some 0 else later

-- `find( c, start )`
abbrev pub find_from : ℕ → List ℕ → ℕ → Option ℕ
find_from c xs start = elim (find c (drop start xs)) [ none ↦ none | some i ↦ some (start + i) ]

-- `substr( start, n )`
abbrev pub substr : List ℕ → ℕ → ℕ → List ℕ
substr xs start n = take n (drop start xs)

-- The text begins with `p`.
abbrev pub starts_with : List ℕ → List ℕ → Bool
starts_with [] xs = true
starts_with (y ∷ ys) [] = false
starts_with (y ∷ ys) (x ∷ xs) = y == x && starts_with ys xs

-- `find( p )` of a string
abbrev pub find_text : List ℕ → List ℕ → Option ℕ
find_text p [] = if starts_with p [] then some 0 else none
find_text p (x ∷ xs) =
    let later : Option ℕ = elim (find_text p xs) [ none ↦ none | some i ↦ some (suc i) ] in
    if starts_with p (x ∷ xs) then some 0 else later

abbrev pub is_digit : ℕ → Bool
is_digit c = leb b'0' c && leb c b'9'

-- The number that the digits at the start make, after `n`
abbrev pub digits_value : ℕ → List ℕ → ℕ
digits_value n [] = n
digits_value n (x ∷ xs) =
    let rest = digits_value (n * 10 + (x - b'0')) xs in if is_digit x then rest else n

abbrev pub is_space : ℕ → Bool
is_space c = c == b' ' || (leb 9 c && leb c 13)

abbrev pub skip_space : List ℕ → List ℕ
skip_space [] = []
skip_space (x ∷ xs) = let rest = skip_space xs in if is_space x then rest else x ∷ xs

-- `atol` made an `int`, by its 32 bits; a number that no `long` holds has no defined value there.
abbrev pub signed_value : List ℕ → ℕ
signed_value [] = 0
signed_value (x ∷ xs) =
    if x == b'-'
    then (0x100000000 - digits_value 0 xs % 0x100000000) % 0x100000000
    else digits_value 0 (if x == b'+' then xs else x ∷ xs) % 0x100000000

abbrev pub atol : List ℕ → ℕ
atol xs = signed_value (skip_space xs)

-- `fgets` that may read `n` characters: what it reads, what is left, and whether it met the end
abbrev pub fgets : ℕ → List ℕ → List ℕ × List ℕ × Bool
fgets zero xs = ([], xs, false)
fgets (suc n) [] = ([], [], true)
fgets (suc n) (x ∷ xs) =
    let r = fgets n xs in if x == b'\n' then (x ∷ [], xs, false) else (x ∷ r.0, r.1, r.2)
