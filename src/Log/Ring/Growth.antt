-- ===== src/Log/Ring/Growth.antt =====
-- How the bytes of the buffer grow when calls succeed.
use nodecpp_foundation.Base.{ℕ, ◌+◌, ◌≤◌, ◌≡◌, refl, ap, ◌∙◌, arith, leb}
use nodecpp_foundation.Base.{List, [], ◌++◌, some}
use nodecpp_foundation.Base.Lists.{length, append-nil, append_assoc}
use nodecpp_foundation.Base.Outcome.{ok, asserting-ok}
use nodecpp_foundation.Log.State.{LogBufferBaseData, available_size}
use nodecpp_foundation.Log.Ring.{insert_single_msg}
use nodecpp_foundation.Log.Ring.Contents.{
  IsRing, bytes_between, insert_single_msg_lem, available_size_lem,
}

-- The fields that the circular buffer and the file stand in are the same.
pub record SameRing (d d' : LogBufferBaseData) : Type 0 where
  pub same_buff : d'.buff ≡ d.buff
  pub same_size : d'.buff_size ≡ d.buff_size
  pub same_start : d'.start ≡ d.start
  pub same_end : d'.end ≡ d.end
  pub same_target : d'.target ≡ d.target

-- The bytes `out` follow those of before, which stay where they are; the file is as before.
pub record GrownBy (d : LogBufferBaseData) (bytes : ℕ → ℕ) (d' : LogBufferBaseData) (bytes' : ℕ → ℕ)
    (out : List ℕ) : Type 0 where
  pub ring : IsRing d' bytes'
  pub same_start : d'.start ≡ d.start
  pub same_target : d'.target ≡ d.target
  pub later : d.end ≤ d'.end
  pub grown :
      (from : ℕ)
      → d.start ≤ from
      → from ≤ d.end
      → bytes_between d' bytes' from d'.end ≡ bytes_between d bytes from d.end ++ out
  pub kept :
      (from to : ℕ)
      → d.start ≤ from
      → to ≤ d.end
      → bytes_between d' bytes' from to ≡ bytes_between d bytes from to

pub GrownBy-same :
    (d d' : LogBufferBaseData) (bytes : ℕ → ℕ)
    → IsRing d bytes
    → SameRing d d'
    → GrownBy d bytes d' bytes []
GrownBy-same d d' bytes w s = record {
  ring = record {
    held = s.same_buff ∙ w.held;
    power = let (k, e) = w.power in (k, s.same_size ∙ e);
    ordered = omega (arith, w.ordered, s.same_start, s.same_end);
    bounded = omega (arith, w.bounded, s.same_start, s.same_end, s.same_size);
    in_word = omega (arith, w.in_word, s.same_start, s.same_size);
  };
  same_start = s.same_start;
  same_target = s.same_target;
  later = omega (arith, s.same_end);
  grown =
      λ from a b. rw (s.same_end, s.same_size, append-nil (bytes_between d bytes from d.end)) refl;
  kept = λ from to a b. rw (s.same_size) refl;
}

pub GrownBy-trans :
    {d : LogBufferBaseData} {bytes : ℕ → ℕ} {d1 : LogBufferBaseData} {bytes1 : ℕ → ℕ}
    {d2 : LogBufferBaseData} {bytes2 : ℕ → ℕ} {out1 out2 : List ℕ}
    → GrownBy d bytes d1 bytes1 out1
    → GrownBy d1 bytes1 d2 bytes2 out2
    → GrownBy d bytes d2 bytes2 (out1 ++ out2)
GrownBy-trans {d} {bytes} {out1} {out2} g h = record {
  ring = h.ring;
  same_start = h.same_start ∙ g.same_start;
  same_target = h.same_target ∙ g.same_target;
  later = omega (arith, g.later, h.later);
  grown = λ from a b.
      h.grown from (omega (arith, g.same_start)) (omega (arith, g.later))
      ∙ ap (λ t. t ++ out2) (g.grown from a b)
      ∙ append_assoc (bytes_between d bytes from d.end) out1 out2;
  kept = λ from to a b.
      h.kept from to (omega (arith, g.same_start)) (omega (arith, g.later)) ∙ g.kept from to a b;
}

insert_single_msg-fits :
    (d : LogBufferBaseData) (bytes : ℕ → ℕ) (msg : List ℕ) (d' : LogBufferBaseData)
    → IsRing d bytes
    → insert_single_msg d msg ≡ ok d'
    → d.end + length msg ≤ d.start + d.buff_size
unfolding insert_single_msg
insert_single_msg-fits d bytes msg d' w h =
    let (fits, rest) = asserting-ok (leb (length msg) (available_size d)) _ h in
    let le : length msg ≤ available_size d = ground (arith, fits) in
    omega (arith, le, available_size_lem d bytes w, w.ordered, w.bounded)

-- A message that fits is inserted, in terms of growth.
pub insert_single_msg-grows :
    (d : LogBufferBaseData) (bytes : ℕ → ℕ) (msg : List ℕ)
    → IsRing d bytes
    → d.end + length msg ≤ d.start + d.buff_size
    → (bytes' : ℕ → ℕ) × (d' : LogBufferBaseData) × (insert_single_msg d msg ≡ ok d')
      × (d' ≡ record d { buff = some bytes'; end = d.end + length msg })
      × GrownBy d bytes d' bytes' msg
insert_single_msg-grows d bytes msg w fits =
    let (bytes', d', e, form, ring, grown, kept) = insert_single_msg_lem d bytes w msg fits in
    (
      bytes',
      d',
      e,
      form,
      record {
        ring = ring;
        same_start = ap (λ (r : LogBufferBaseData). r.start) form;
        same_target = ap (λ (r : LogBufferBaseData). r.target) form;
        later = omega (arith, ap (λ (r : LogBufferBaseData). r.end) form);
        grown = grown;
        kept = kept;
      },
    )

-- A message that is inserted had room.
pub insert_single_msg-ok :
    (d : LogBufferBaseData) (bytes : ℕ → ℕ) (msg : List ℕ) (d' : LogBufferBaseData)
    → IsRing d bytes
    → insert_single_msg d msg ≡ ok d'
    → (bytes' : ℕ → ℕ) × GrownBy d bytes d' bytes' msg
insert_single_msg-ok d bytes msg d' w h =
    let (bytes', d1, e, form, g) =
      insert_single_msg-grows d bytes msg w (insert_single_msg-fits d bytes msg d' w h) in
    let same : d1 ≡ d' = cc in (bytes', rw (← same) g)
