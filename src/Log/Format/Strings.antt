-- ===== src/Log/Format/Strings.antt =====
-- The text that `log` of include/log.h makes, as `writoToLog` reads it.
use nodecpp_foundation.Base.{ℕ, zero, suc, ◌+◌, ◌-◌, ◌≤◌, ◌<◌, ◌≡◌, ◌≢◌, refl, ap, sym, ◌∙◌, arith}
use nodecpp_foundation.Base.{List, [], ◌∷◌, leb, lt_or_ge, inl, inr, if◌then◌else◌}
use nodecpp_foundation.Base.Lists.{length, take, at, put, length-take, at-take, take-at}
use nodecpp_foundation.Base.Bytes.{write_from, write_from-at}
use nodecpp_foundation.Base.{leb-true, leb-false}
use nodecpp_foundation.Log.State.{max_message_size}
use nodecpp_foundation.Log.Format.{Formatter, IsFormatter, formatted, c_string}

-- No byte of the text ends a string.
abbrev pub IsString : List ℕ → Type 0
IsString text = (i : ℕ) → i < length text → at text i ≢ 0

c_string-stops : (b : ℕ → ℕ) (fuel i : ℕ) → b i ≡ 0 → c_string (suc fuel) b i ≡ []
c_string-stops b fuel i e = ground (arith, e)

c_string-goes :
    (b : ℕ → ℕ) (fuel i : ℕ) → b i ≢ 0 → c_string (suc fuel) b i ≡ b i ∷ c_string fuel b (suc i)
c_string-goes b fuel i n = ground (arith, n)

pub take-all : (n : ℕ) (xs : List ℕ) → length xs ≤ n → take n xs ≡ xs
take-all zero [] le = refl
take-all zero (x ∷ xs) le = absurd (omega (arith, le))
take-all (suc n) [] le = refl
take-all (suc n) (x ∷ xs) le = ap (λ t. x ∷ t) (take-all n xs (omega (arith, le)))

-- A string that stands in a buffer with a zero after it is read as it is.
pub c_string_lem :
    (b : ℕ → ℕ) (fuel i : ℕ) (xs : List ℕ)
    → length xs < fuel
    → IsString xs
    → ((j : ℕ) → j < length xs → b (i + j) ≡ at xs j)
    → b (i + length xs) ≡ 0
    → c_string fuel b i ≡ xs
c_string_lem b zero i xs enough string stands ends = absurd (omega (arith, enough))
c_string_lem b (suc fuel) i [] enough string stands ends =
    let e : b i ≡ 0 = ap b {x = i} {y = i + 0} (omega arith) ∙ ends in c_string-stops b fuel i e
c_string_lem b (suc fuel) i (x ∷ xs) enough string stands ends =
    let e : b i ≡ x = ap b {x = i} {y = i + 0} (omega arith) ∙ stands 0 (omega arith) in
    let n : x ≢ 0 = string 0 (omega arith) in
    let rest : c_string fuel b (suc i) ≡ xs =
      c_string_lem b fuel (suc i) xs (omega (arith, enough))
        (λ j lt. string (suc j) (omega (arith, lt)))
        (λ j lt.
          ap b {x = suc i + j} {y = i + suc j} (omega arith) ∙ stands (suc j) (omega (arith, lt)))
        (ap b {x = suc i + length xs} {y = i + suc (length xs)} (omega arith) ∙ ends) in
    c_string-goes b fuel i (rw (e) n) ∙ rw (e, rest) refl

kept : (b : ℕ → ℕ) (k j : ℕ) → j < k → put b k 0 j ≡ b j
kept b k j lt = ground arith

put-here : (b : ℕ → ℕ) (k : ℕ) → put b k 0 k ≡ 0
put-here b k = ground arith

module _ (f : Formatter) (fmt : IsFormatter f) where
  -- A text with a zero put at its end, or at the limit
  pub ended :
      (buffer : ℕ → ℕ) (text : List ℕ) (n k fuel : ℕ)
      → IsString text
      → k ≤ length text
      → k ≤ n
      → k < fuel
      → c_string fuel (put ((f.format_to_n buffer 0 n text).0) k 0) 0 ≡ take k text
  ended buffer text n k fuel string le le2 enough =
      let b = (f.format_to_n buffer 0 n text).0 in
      let size : length (take k text) ≡ k = length-take k text le in
      c_string_lem (put b k 0) fuel 0 (take k text) (omega (arith, size, enough))
        (λ i lt.
          rw (at-take k text i (omega (arith, lt, size))) (string i (omega (arith, lt, size, le))))
        (λ j lt.
          let before : j < k = omega (arith, lt, size) in
          ap (put b k 0) {x = 0 + j} {y = j} (omega arith)
          ∙ kept b k j before
          ∙ fmt.bytes buffer 0 n text j
          ∙ ap (write_from buffer 0 (take n text)) {x = j} {y = 0 + j} (omega arith)
          ∙ write_from-at buffer 0 (take n text) j
              (take-at n text j (omega (arith, before, le2)) (omega (arith, before, le)))
          ∙ at-take n text j (omega (arith, before, le2))
          ∙ sym (at-take k text j before))
        (ap (put b k 0) {x = 0 + length (take k text)} {y = k} (omega (arith, size)) ∙ put-here b k)

  formatted-text :
      (buffer : ℕ → ℕ) (text : List ℕ)
      → formatted f buffer text ≡ (
          let b = (f.format_to_n buffer 0 (max_message_size - 1) text).0 in
          if leb max_message_size (length text)
          then c_string max_message_size (put b (max_message_size - 1) 0) 0
          else c_string max_message_size (put b (length text) 0) 0)
  unfolding formatted
  formatted-text buffer text = rw (fmt.size) refl

  -- The text of a message reaches `writoToLog` whole if it is shorter than 4096 bytes, and otherwise
  -- its first 4095 bytes do, when none of its bytes is zero.
  pub formatted_lem :
      (buffer : ℕ → ℕ) (text : List ℕ)
      → IsString text
      → formatted f buffer text ≡ take (max_message_size - 1) text
  formatted_lem buffer text string =
      formatted-text buffer text ∙ elim (lt_or_ge (length text) max_message_size) [
        | inl lt ↦ rw (leb-false max_message_size (length text) lt) (
            ended buffer text (max_message_size - 1) (length text) max_message_size string
              (omega arith) (omega (arith, lt)) lt
            ∙ take-all (length text) text (omega arith)
            ∙ sym (take-all (max_message_size - 1) text (omega (arith, lt))))
        | inr ge ↦ rw (leb-true max_message_size (length text) ge) (
            ended buffer text (max_message_size - 1) (max_message_size - 1) max_message_size string
              (omega (arith, ge)) (omega arith) (omega arith))
      ]
