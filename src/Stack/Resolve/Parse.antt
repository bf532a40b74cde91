-- ===== src/Stack/Resolve/Parse.antt =====
-- The output of addr2line is parsed as it is printed.
use nodecpp_foundation.Base.{ℕ, suc, ◌+◌, ◌-◌, ◌*◌, ◌%◌, ◌≡◌, refl, ap, ◌∙◌, arith}
use nodecpp_foundation.Base.{List, [], ◌∷◌, ◌++◌, some, true, false, ◌==◌}
use nodecpp_foundation.Base.Lists.{drop-add, length, elem, take, drop, length-append}
use nodecpp_foundation.Stack.Text.{
  find, find_from, substr, atol, digits_value, is_digit, skip_space, signed_value,
}
use nodecpp_foundation.Stack.Resolve.{
  StackFrameInfo, cleared_unknown, parse_source, parse_addr2line_output,
}

-- A character is found after a text that does not have it.
find-append :
    (c : ℕ) (xs ys : List ℕ) → elem c xs ≡ false → find c (xs ++ (c ∷ ys)) ≡ some (length xs)
find-append c [] ys e = ground arith
find-append c (x ∷ xs) ys e = ground (arith, e, find-append c xs ys)

take-append : (xs ys : List ℕ) → take (length xs) (xs ++ ys) ≡ xs
take-append [] ys = refl
take-append (x ∷ xs) ys = ap (λ t. x ∷ t) (take-append xs ys)

drop-append : (xs ys : List ℕ) → drop (length xs) (xs ++ ys) ≡ ys
drop-append [] ys = refl
drop-append (x ∷ xs) ys = drop-append xs ys

drop-after : (xs : List ℕ) (c : ℕ) (ys : List ℕ) → drop (length xs + 1) (xs ++ (c ∷ ys)) ≡ ys
drop-after [] c ys = refl
drop-after (x ∷ xs) c ys =
    ap (λ (n : ℕ). drop n (x ∷ (xs ++ (c ∷ ys)))) {x = suc (length xs) + 1}
      {y = suc (length xs + 1)} (omega arith)
    ∙ drop-after xs c ys

-- All characters of the text are digits.
abbrev pub AreDigits : List ℕ → Type 0
AreDigits [] = Unit
AreDigits (x ∷ xs) = (is_digit x ≡ true) × AreDigits xs

-- The text does not go on with a digit.
abbrev pub EndsNumber : List ℕ → Type 0
EndsNumber [] = Unit
EndsNumber (x ∷ xs) = is_digit x ≡ false

digits_value-append :
    (n : ℕ) (ds rest : List ℕ)
    → AreDigits ds
    → EndsNumber rest
    → digits_value n (ds ++ rest) ≡ digits_value n ds
digits_value-append n [] [] w e = refl
digits_value-append n [] (x ∷ rest) w e = rw (e) refl
digits_value-append n (d ∷ ds) rest (dig, w) e =
    rw (dig) (digits_value-append (n * 10 + (d - b'0')) ds rest w e)

skip_space-digit : (d : ℕ) (xs : List ℕ) → is_digit d ≡ true → skip_space (d ∷ xs) ≡ d ∷ xs
skip_space-digit d xs dig = ground (arith, dig)

signed_value-digit :
    (d : ℕ) (xs : List ℕ)
    → is_digit d ≡ true
    → signed_value (d ∷ xs) ≡ digits_value 0 (d ∷ xs) % 0x100000000
signed_value-digit d xs dig = ground (arith, dig)

atol_lem :
    (d : ℕ) (ds rest : List ℕ)
    → AreDigits (d ∷ ds)
    → EndsNumber rest
    → atol ((d ∷ ds) ++ rest) ≡ digits_value 0 (d ∷ ds) % 0x100000000
atol_lem d ds rest w e =
    ap signed_value (skip_space-digit d (ds ++ rest) (w.0))
    ∙ signed_value-digit d (ds ++ rest) (w.0)
    ∙ ap (λ (n : ℕ). n % 0x100000000) (digits_value-append 0 (d ∷ ds) rest w e)

-- The second line of the output, after a first one that ends at `pos`
parse_source_lem :
    (fn src tail : List ℕ) (info : StackFrameInfo)
    → elem b':' src ≡ false
    → parse_source (fn ++ (b'\n' ∷ (src ++ (b':' ∷ tail)))) (length fn) info
      ≡ record info { src_path = cleared_unknown src; line = atol tail }
unfolding parse_source
parse_source_lem fn src tail info no_colon = rw (parse_source, found, path, after) refl
  where
    str : List ℕ
    str = fn ++ (b'\n' ∷ (src ++ (b':' ∷ tail)))

    second : drop (length fn + 1) str ≡ src ++ (b':' ∷ tail)
    second = drop-after fn b'\n' (src ++ (b':' ∷ tail))

    found : find_from b':' str (length fn + 1) ≡ some (length fn + 1 + length src)
    found = rw (find_from, second, find-append b':' src tail no_colon) refl

    path : substr str (length fn + 1) (length fn + 1 + length src - (length fn + 1)) ≡ src
    path =
        ap (λ (n : ℕ). take n (drop (length fn + 1) str))
          {x = length fn + 1 + length src - (length fn + 1)} {y = length src} (omega arith)
        ∙ ap (take (length src)) second
        ∙ take-append src (b':' ∷ tail)

    after : drop (length fn + 1 + length src + 1) str ≡ tail
    after =
        ap (λ (n : ℕ). drop n str) {x = length fn + 1 + length src + 1}
          {y = (length fn + 1) + (length src + 1)} (omega arith)
        ∙ drop-add (length fn + 1) (length src + 1) str
        ∙ ap (drop (length src + 1)) second
        ∙ drop-after src b':' tail

-- What addr2line prints, a name, a path and a line, is parsed to these, with `??` for what it does not
-- know: the name has no line end and the path no colon, and what follows the digits of the line, such
-- as a line end or the discriminator, does not begin with a digit. The line is an `int`.
pub parse_addr2line_output_lem :
    (fn src : List ℕ) (d : ℕ) (ds rest : List ℕ) (info : StackFrameInfo)
    → elem b'\n' fn ≡ false
    → elem b':' src ≡ false
    → AreDigits (d ∷ ds)
    → EndsNumber rest
    → parse_addr2line_output (fn ++ (b'\n' ∷ (src ++ (b':' ∷ ((d ∷ ds) ++ rest))))) info
      ≡ record info {
        function_name = cleared_unknown fn;
        src_path = cleared_unknown src;
        line = digits_value 0 (d ∷ ds) % 0x100000000;
      }
unfolding parse_addr2line_output
parse_addr2line_output_lem fn src d ds rest info no_line_end no_colon digits ends =
    rw (parse_addr2line_output, some_text, found, take-append fn (b'\n' ∷ rest1))
      (parse_source_lem fn src ((d ∷ ds) ++ rest)
          (record info { function_name = cleared_unknown fn }) no_colon
        ∙ rw (atol_lem d ds rest digits ends) refl)
  where
    rest1 : List ℕ
    rest1 = src ++ (b':' ∷ ((d ∷ ds) ++ rest))

    found : find b'\n' (fn ++ (b'\n' ∷ rest1)) ≡ some (length fn)
    found = find-append b'\n' fn rest1 no_line_end

    some_text : (length (fn ++ (b'\n' ∷ rest1)) == 0) ≡ false
    some_text = ground (arith, length-append fn (b'\n' ∷ rest1))
