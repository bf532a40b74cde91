-- ===== src/Message/Reading/Reads.antt =====
-- `ReadIter::read` gives the contents of a message, in order.
use mathlib.Core.Path.{subst}
use nodecpp_foundation.Base.{ℕ, zero, suc, ◌+◌, ◌-◌, ◌≤◌, ◌<◌, ◌≡◌, inl, inr, ap, sym, ◌∙◌, arith}
use nodecpp_foundation.Base.{List, [], ◌++◌, lt_or_ge}
use nodecpp_foundation.Base.Lists.{
  drop-all, take-nil, take-add, drop-add, length, take, drop, length-take, length-drop,
  length-append, append-nil, append_assoc,
}
use nodecpp_foundation.Base.Bytes.{read_from}
use nodecpp_foundation.Base.Outcome.{Outcome, ok}
use nodecpp_foundation.Message.Memory.{InternalMsg, Heap}
use nodecpp_foundation.Message.Reading.{ReadIter, direct_read, read_loop, read}
use nodecpp_foundation.Message.Reading.Contents.{Inside, StandsAt, IsLocal, direct_read_lem}

module _ (page : ℕ → ℕ) (h : Heap) (m : InternalMsg) (contents : List ℕ)
    (w : IsLocal page h m contents) where
  -- What a read of `size` bytes at byte `k` comes to, after `buffer`
  abbrev pub Reads : ℕ → ℕ → List ℕ → Outcome (List ℕ × ReadIter) → Type 0
  Reads k size buffer result =
      (it' : ReadIter) × (result ≡ ok (buffer ++ take size (drop k contents), it'))
      × StandsAt page contents (k + length (take size (drop k contents))) it'

  at_end :
      (fuel k : ℕ) (it : ReadIter) (size : ℕ) (buffer : List ℕ)
      → StandsAt page contents k it
      → it.total_sz ≡ 0
      → it.size_remaining_in_block ≡ 0
      → Reads k size buffer (read_loop h m (suc fuel) it size buffer)
  unfolding read_loop
  at_end fuel k it size buffer s none_left no_block =
      let nothing : take size (drop k contents) ≡ [] =
        ap (take size) (drop-all k contents (omega (arith, s.left, none_left))) ∙ take-nil size in
      (
        it,
        ground (arith, no_block)
            ∙ ap (λ t. ok (t, it)) (sym (ap (λ t. buffer ++ t) nothing ∙ append-nil buffer)),
        rw (nothing)
            (subst (λ (n : ℕ). StandsAt page contents n it) {x = k} {y = k + 0} (omega arith) s),
      )

  last_part :
      (fuel k : ℕ) (it : ReadIter) (size : ℕ) (buffer : List ℕ)
      → StandsAt page contents k it
      → Inside page k it
      → size ≤ it.size_remaining_in_block
      → Reads k size buffer (read_loop h m (suc fuel) it size buffer)
  unfolding read_loop
  last_part fuel k it size buffer s b le =
      let (it1, reads, bytes, s1) = direct_read_lem page h m contents k it size w s b le in
      let all : length (take size (drop k contents)) ≡ size =
        length-take size (drop k contents)
          (omega (arith, length-drop k contents, s.left, le, b.of_total)) in
      (it1, ground (arith, b.some_bytes, le, reads, bytes), rw (all) s1)

  -- The loop goes on behind a block.
  next_round :
      (fuel k : ℕ) (it : ReadIter) (size : ℕ) (buffer : List ℕ) (it1 : ReadIter) (part : List ℕ)
      → 0 < it.size_remaining_in_block
      → it.size_remaining_in_block < size
      → direct_read h m it it.size_remaining_in_block ≡ ok ((it.page, it.offset), it1)
      → read_from (h.bytes it.page) it.offset it.size_remaining_in_block ≡ part
      → read_loop h m (suc fuel) it size buffer
        ≡ read_loop h m fuel it1 (size - it.size_remaining_in_block) (buffer ++ part)
  unfolding read_loop
  next_round fuel k it size buffer it1 part some_bytes lt reads bytes =
      ground (arith, some_bytes, lt, reads, bytes)

  first_part :
      (fuel k : ℕ) (it : ReadIter) (size : ℕ) (buffer : List ℕ)
      → StandsAt page contents k it
      → Inside page k it
      → it.size_remaining_in_block < size
      → ((it1 : ReadIter) (buffer' : List ℕ)
          → StandsAt page contents (k + it.size_remaining_in_block) it1
          → Reads
              (k + it.size_remaining_in_block)
              (size - it.size_remaining_in_block)
              buffer'
              (read_loop h m fuel it1 (size - it.size_remaining_in_block) buffer'))
      → Reads k size buffer (read_loop h m (suc fuel) it size buffer)
  first_part fuel k it size buffer s b lt rest =
      let r = it.size_remaining_in_block in
      let d = drop k contents in
      let (it1, reads, bytes, s1) = direct_read_lem page h m contents k it r w s b (omega arith) in
      let (it2, e, s2) = rest it1 (buffer ++ take r d) s1 in
      let whole : take size d ≡ take r d ++ take (size - r) (drop (k + r) contents) =
        ap (λ (n : ℕ). take n d) {x = size} {y = r + (size - r)} (omega (arith, lt))
        ∙ take-add r (size - r) d
        ∙ ap (λ t. take r d ++ take (size - r) t) (sym (drop-add k r contents)) in
      let some : length (take r d) ≡ r =
        length-take r d (omega (arith, length-drop k contents, s.left, b.of_total)) in
      let far : k + length (take size d)
          ≡ (k + r) + length (take (size - r) (drop (k + r) contents)) =
        omega (
          arith,
          ap length whole,
          some,
          length-append (take r d) (take (size - r) (drop (k + r) contents)),
        ) in
      (
        it2,
        next_round fuel k it size buffer it1 (take r d) b.some_bytes lt reads bytes
            ∙ e
            ∙ ap (λ t. ok (t, it2))
                (append_assoc buffer (take r d) (take (size - r) (drop (k + r) contents))
                  ∙ ap (λ t. buffer ++ t) (sym whole)),
        subst (λ (n : ℕ). StandsAt page contents n it2) (sym far) s2,
      )

  read_loop_lem :
      (fuel k : ℕ) (it : ReadIter) (size : ℕ) (buffer : List ℕ)
      → size < fuel
      → StandsAt page contents k it
      → Reads k size buffer (read_loop h m fuel it size buffer)
  read_loop_lem zero k it size buffer enough s = absurd (omega (arith, enough))
  read_loop_lem (suc fuel) k it size buffer enough s = elim s.block [
    | inl (none_left, no_block) ↦ at_end fuel k it size buffer s none_left no_block
    | inr b ↦ elim (lt_or_ge it.size_remaining_in_block size) [
      | inr le ↦ last_part fuel k it size buffer s b le
      | inl lt ↦ first_part fuel k it size buffer s b lt (λ it1 buffer' s1.
          read_loop_lem fuel (k + it.size_remaining_in_block) it1
            (size - it.size_remaining_in_block) buffer' (omega (arith, enough, lt, b.some_bytes))
            s1)
    ]
  ]

  -- A read of `size` bytes at byte `k` of the contents gives those that follow there, or as many as
  -- there are, and leaves the iterator behind them, so that the next read goes on there and `offset`
  -- is right. The pages of the message are at most four.
  pub read_lem :
      (k : ℕ) (it : ReadIter) (size : ℕ)
      → StandsAt page contents k it
      → Reads k size [] (read h m it size)
  unfolding read
  read_lem k it size s = read_loop_lem (suc size) k it size [] (omega arith) s
