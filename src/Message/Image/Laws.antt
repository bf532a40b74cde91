-- ===== src/Message/Image/Laws.antt =====
-- An object whose bytes are copied is there.
use nodecpp_foundation.Base.{
  ℕ, zero, suc, ◌+◌, ◌*◌, ◌/◌, ◌%◌, ◌<◌, ◌^◌, ◌≡◌, ap, ◌∙◌, arith, List, [], ◌∷◌,
}
use nodecpp_foundation.Base.Lists.{length, at, at-append_left, at-append_right}
use nodecpp_foundation.Message.Memory.{write_bytes}
use nodecpp_foundation.Message.Memory.Writes.{write_bytes-at, read_bytes-at}
use nodecpp_foundation.Message.Image.{word_bytes, word_of, words_bytes, word_at}

-- A number of at most `n` bytes
abbrev IsShort : ℕ → ℕ → Type 0
IsShort zero w = w ≡ 0
IsShort (suc n) w = IsShort n (w / 256)

word_of-word_bytes : (n w : ℕ) → IsShort n w → word_of (word_bytes n w) ≡ w
word_of-word_bytes zero w short = omega (arith, short)
word_of-word_bytes (suc n) w short =
    ap (λ (q : ℕ). w % 256 + 256 * q) (word_of-word_bytes n (w / 256) short) ∙ omega arith

IsShort-word : (w : ℕ) → w < 2 ^ 64 → IsShort 8 w
IsShort-word w lt = omega (arith, lt)

at-words_bytes :
    (ws : List ℕ) (k i : ℕ)
    → k < length ws
    → i < 8
    → at (words_bytes ws) (8 * k + i) ≡ at (word_bytes 8 (at ws k)) i
at-words_bytes [] k i lt small = absurd (omega (arith, lt))
at-words_bytes (w ∷ ws) zero i lt small =
    ap (at (words_bytes (w ∷ ws))) {x = 8 * 0 + i} {y = i} (omega arith)
    ∙ at-append_left (word_bytes 8 w) (words_bytes ws) i small
at-words_bytes (w ∷ ws) (suc k) i lt small =
    ap (at (words_bytes (w ∷ ws))) {x = 8 * suc k + i} {y = 8 + (8 * k + i)} (omega arith)
    ∙ at-append_right (word_bytes 8 w) (words_bytes ws) (8 * k + i)
    ∙ at-words_bytes ws k i (omega (arith, lt)) small

pub word_at-write_bytes :
    (f : ℕ → ℕ → ℕ) (ptr : ℕ) (ws : List ℕ) (k : ℕ)
    → k < length ws
    → at ws k < 2 ^ 64
    → 8 * k + 8 < length (words_bytes ws) + 1
    → word_at (write_bytes f ptr 0 (words_bytes ws)) ptr k ≡ at ws k
word_at-write_bytes f ptr ws k lt word inside =
    ap word_of (
      read_bytes-at (write_bytes f ptr 0 (words_bytes ws)) ptr (8 * k) (word_bytes 8 (at ws k))
        (λ i small.
          ap (write_bytes f ptr 0 (words_bytes ws) ptr) {x = 8 * k + i} {y = 0 + (8 * k + i)}
            (omega arith)
          ∙ write_bytes-at f ptr 0 (words_bytes ws) (8 * k + i) (omega (arith, small, inside))
          ∙ at-words_bytes ws k i lt small))
    ∙ word_of-word_bytes 8 (at ws k) (IsShort-word (at ws k) word)
