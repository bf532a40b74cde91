-- ===== src/Log/Format/Cuts.antt =====
-- Texts that `writoToLog` of include/log.h cuts.
use nodecpp_foundation.Base.{ℕ, ◌+◌, ◌-◌, ◌≤◌, ◌<◌, ◌≡◌, ◌≢◌, ap, ◌∙◌, arith}
use nodecpp_foundation.Base.{
  List, [], ◌∷◌, ◌++◌, leb, true, false, lt_or_ge, inl, inr, if◌then◌else◌,
}
use nodecpp_foundation.Base.Lists.{
  length, take, at, put, length-append, length-take, at-take, at-append_left, at-append_right,
}
use nodecpp_foundation.Base.Bytes.{
  write_from, read_from, read_from-at, write_from-before, write_from-at,
}
use nodecpp_foundation.Base.{leb-true, leb-false}
use nodecpp_foundation.Log.State.{max_message_size}

-- A text as `addMsg` is given it: a long one ends in three points and a line end.
abbrev pub shortened : List ℕ → List ℕ
shortened text =
    if leb max_message_size (length text)
    then take (max_message_size - 5) text ++ (b'.' ∷ b'.' ∷ b'.' ∷ b'\n' ∷ [])
    else text

-- Three points and a line end
abbrev pub dots : List ℕ
dots = b'.' ∷ b'.' ∷ b'.' ∷ b'\n' ∷ []

-- A text that is cut at `k` bytes
pub cut-at :
    (b : ℕ → ℕ) (text : List ℕ) (k n : ℕ)
    → ((q : ℕ) → q < k → b q ≡ at text q)
    → k ≤ length text
    → n ≡ k + 4
    → read_from (put (write_from b k dots) n 0) 0 n ≡ take k text ++ dots
cut-at b text k n stands long en =
    ap (read_from (put (write_from b k dots) n 0) 0) {x = n} {y = length (take k text ++ dots)}
      (omega (arith, size, en))
    ∙ read_from-at (put (write_from b k dots) n 0) 0 (take k text ++ dots) (λ i lt.
      elim (lt_or_ge i k) [
        | inl before ↦ ground (
          arith,
          en,
          before,
          at-append_left (take k text) dots i (omega (arith, before, length-take k text long)),
          at-take k text i before,
          stands i before,
          write_from-before b k dots i before,
        )
        | inr after ↦
            let inside : i - k < length dots = omega (arith, lt, size, after) in
            let e : i ≡ k + (i - k) = omega (arith, after) in
            let on_dots : write_from b k dots i ≡ at dots (i - k) =
              ap (write_from b k dots) e ∙ write_from-at b k dots (i - k) inside in
            let of_text : at (take k text ++ dots) i ≡ at dots (i - k) =
              ap (at (take k text ++ dots)) {x = i} {y = length (take k text) + (i - k)}
                (omega (arith, after, length-take k text long))
              ∙ at-append_right (take k text) dots (i - k) in
            let differs : i ≢ n = ground (arith, lt, size, en) in
            ground (arith, on_dots, of_text, differs)
      ])
  where
    size : length (take k text ++ dots) ≡ k + 4
    size = omega (arith, length-append (take k text) dots, length-take k text long)

pub cut-length : (text : List ℕ) (k : ℕ) → k ≤ length text → length (take k text ++ dots) < k + 5
cut-length text k le = omega (arith, length-append (take k text) dots, length-take k text le)

pub shortened-length : (text : List ℕ) → length (shortened text) < max_message_size
shortened-length text = elim (lt_or_ge (length text) max_message_size) [
  | inl lt ↦ rw (leb-false max_message_size (length text) lt) lt
  | inr ge ↦
      rw (leb-true max_message_size (length text) ge)
        (cut-length text (max_message_size - 5) (omega (arith, ge)))
]

-- The choice of `writoToLog` between the two
pub chosen :
    (cut whole text : List ℕ) (pos : ℕ)
    → pos ≡ length text
    → (pos < max_message_size → whole ≡ text)
    → (max_message_size ≤ pos → cut ≡ take (max_message_size - 5) text ++ dots)
    → (if leb max_message_size pos then cut else whole) ≡ shortened text
chosen cut whole text pos e fits over = elim (lt_or_ge pos max_message_size) [
  | inl lt ↦
      let small : leb max_message_size (length text) ≡ false =
        leb-false max_message_size (length text) (omega (arith, lt, e)) in
      rw (e, small) (fits lt)
  | inr ge ↦
      let large : leb max_message_size (length text) ≡ true =
        leb-true max_message_size (length text) (omega (arith, ge, e)) in
      rw (e, large) (over ge)
]
