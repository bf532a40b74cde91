-- ===== src/Assert/Texts.antt =====
-- The message of an assertion that fails.
use nodecpp_foundation.Base.{ℕ, zero, suc, ◌+◌, ◌-◌, ◌≤◌, ◌<◌, ◌≡◌, refl, ap, sym, ◌∙◌, arith}
use nodecpp_foundation.Base.{
  List, [], ◌∷◌, ◌++◌, leb, lt_or_ge, inl, inr, if◌then◌else◌, leb-true, leb-false,
}
use nodecpp_foundation.Base.Lists.{
  length, take, at, length-take, length-append, at-take, take-at, at-append_left, at-append_right,
}
use nodecpp_foundation.Base.Bytes.{write_from, write_from-at}
use nodecpp_foundation.Log.Format.{Formatter, IsFormatter, c_string}
use nodecpp_foundation.Log.Format.Strings.{IsString, c_string_lem, take-all, ended}
use nodecpp_foundation.Assert.{log_buf_sz, marked, log_buf}

abbrev pub points : List ℕ
points = b'.' ∷ b'.' ∷ b'.' ∷ []

points-at : (k : ℕ) → k < 3 → at points k ≡ b'.'
points-at zero lt = refl
points-at (suc zero) lt = refl
points-at (suc (suc zero)) lt = refl
points-at (suc (suc (suc k))) lt = absurd (omega (arith, lt))

marked-early : (b : ℕ → ℕ) (j : ℕ) → j < 1020 → marked b j ≡ b j
marked-early b j lt = ground (arith, lt)

marked-late : (b : ℕ → ℕ) (j : ℕ) → 1020 ≤ j → j < 1023 → marked b j ≡ b'.'
marked-late b j ge lt = ground (arith, ge, lt)

-- The beginning of a text and the points
cut-early :
    (text : List ℕ) (j : ℕ)
    → 1020 ≤ length text
    → j < 1020
    → at (take 1020 text ++ points) j ≡ at text j
cut-early text j long lt =
    at-append_left (take 1020 text) points j (omega (arith, length-take 1020 text long, lt))
    ∙ at-take 1020 text j lt

cut-late :
    (text : List ℕ) (j : ℕ)
    → 1020 ≤ length text
    → 1020 ≤ j
    → j < 1023
    → at (take 1020 text ++ points) j ≡ b'.'
cut-late text j long ge lt =
    ap (at (take 1020 text ++ points)) {x = j} {y = length (take 1020 text) + (j - 1020)}
      (omega (arith, length-take 1020 text long, ge))
    ∙ at-append_right (take 1020 text) points (j - 1020)
    ∙ points-at (j - 1020) (omega (arith, ge, lt))

cut-length : (text : List ℕ) → 1020 ≤ length text → length (take 1020 text ++ points) ≡ 1023
cut-length text long =
    omega (arith, length-append (take 1020 text) points, length-take 1020 text long)

module _ (f : Formatter) (fmt : IsFormatter f) where
  marked_lem :
      (buffer : ℕ → ℕ) (text : List ℕ)
      → IsString text
      → log_buf_sz ≤ length text
      → c_string log_buf_sz (marked ((f.format_to_n buffer 0 (log_buf_sz - 1) text).0)) 0
        ≡ take 1020 text ++ points
  marked_lem buffer text string long =
      let b = (f.format_to_n buffer 0 (log_buf_sz - 1) text).0 in
      let enough : 1020 ≤ length text = omega (arith, long) in
      c_string_lem (marked b) log_buf_sz 0 (take 1020 text ++ points)
        (omega (arith, cut-length text enough))
        (λ j lt. elim (lt_or_ge j 1020) [
          | inl early ↦
              λ e. string j (omega (arith, early, enough)) (sym (cut-early text j enough early) ∙ e)
          | inr late ↦ λ e.
              omega
                (arith, cut-late text j enough late (omega (arith, lt, cut-length text enough)), e)
        ])
        (λ j lt. elim (lt_or_ge j 1020) [
          | inl early ↦
              ap (marked b) {x = 0 + j} {y = j} (omega arith)
              ∙ marked-early b j early
              ∙ fmt.bytes buffer 0 (log_buf_sz - 1) text j
              ∙ ap (write_from buffer 0 (take (log_buf_sz - 1) text)) {x = j} {y = 0 + j}
                  (omega arith)
              ∙ write_from-at buffer 0 (take (log_buf_sz - 1) text) j (
                  take-at (log_buf_sz - 1) text j (omega (arith, early))
                    (omega (arith, early, enough)))
              ∙ at-take (log_buf_sz - 1) text j (omega (arith, early))
              ∙ sym (cut-early text j enough early)
          | inr late ↦
              let within : j < 1023 = omega (arith, lt, cut-length text enough) in
              ap (marked b) {x = 0 + j} {y = j} (omega arith)
              ∙ marked-late b j late within
              ∙ sym (cut-late text j enough late within)
        ])
        (ap (marked b) {x = 0 + length (take 1020 text ++ points)} {y = 1023}
          (omega (arith, cut-length text enough)))

  -- The message of an assertion is its whole text if that is shorter than 1024 bytes, and otherwise the first 1020
  -- bytes and three points, when no byte of the text is zero.
  pub log_buf_lem :
      (buffer : ℕ → ℕ) (text : List ℕ)
      → IsString text
      → log_buf f buffer text
        ≡ (if leb log_buf_sz (length text) then take 1020 text ++ points else text)
  unfolding log_buf
  log_buf_lem buffer text string = elim (lt_or_ge (length text) log_buf_sz) [
    | inl lt ↦
        rw (log_buf, fmt.size, leb-false log_buf_sz (length text) lt)
          (ended f fmt buffer text (log_buf_sz - 1) (length text) log_buf_sz string (omega arith)
              (omega (arith, lt)) lt
            ∙ take-all (length text) text (omega arith))
    | inr ge ↦
        rw (log_buf, fmt.size, leb-true log_buf_sz (length text) ge)
          (marked_lem buffer text string ge)
  ]
