-- ===== src/Log/Ring/Contents.antt =====
-- The bytes between `start` and `end`, as a list, and what inserting and writing do to it.
use mathlib.Core.Path.{ap₂}
use native.Mathlib.Nat.{one-le-pow, mod-lt}
use nodecpp_foundation.Base.{ℕ, ◌+◌, ◌-◌, ◌%◌, ◌^◌, ◌≤◌, ◌<◌, ◌≡◌, refl, ap, ◌∙◌, arith}
use nodecpp_foundation.Base.{List, ◌++◌, some, lt_or_ge, inl, inr}
use nodecpp_foundation.Base.Lists.{length, length-append}
use nodecpp_foundation.Base.Bytes.{read_from, length-read_from}
use nodecpp_foundation.Base.Circle.{
  circular, circular-add, circular-cong, circular-at, offset_lem, mod-ahead, mod-round,
  circular-read, circular-read_round, ring_write, ring_write-at, ring_write-kept,
}
use nodecpp_foundation.Base.Outcome.{ok}
use nodecpp_foundation.Log.State.{LogBufferBaseData, available_size}
use nodecpp_foundation.Log.Ring.{offset, insert_single_msg, written_bytes}

-- The buffer has `bytes`, its size is a power of two, and no more than that lies between `start` and
-- `end`.
pub record IsRing (d : LogBufferBaseData) (bytes : ℕ → ℕ) : Type 0 where
  pub held : d.buff ≡ some bytes
  pub power : (k : ℕ) × (d.buff_size ≡ 2 ^ k)
  pub ordered : d.start ≤ d.end
  pub bounded : d.end ≤ d.start + d.buff_size
  pub in_word : d.start + d.buff_size < 0x10000000000000000

-- The bytes from position `from` to `to`
abbrev pub bytes_between : LogBufferBaseData → (ℕ → ℕ) → ℕ → ℕ → List ℕ
bytes_between d bytes from to = circular bytes d.buff_size from (to - from)

-- The bytes that are in the buffer
abbrev pub pending : LogBufferBaseData → (ℕ → ℕ) → List ℕ
pending d bytes = bytes_between d bytes d.start d.end

module _ (d : LogBufferBaseData) (bytes : ℕ → ℕ) (w : IsRing d bytes) where
  pub some_size : 0 < d.buff_size
  some_size = let (k, e) = w.power in omega (arith, e, one-le-pow k 2)

  pub offset_mod : (x : ℕ) → offset d x ≡ x % d.buff_size
  offset_mod x = let (k, e) = w.power in rw (e) (offset_lem x k)

  -- A range that is not empty and not longer than the buffer is written as it stands.
  pub written_bytes_lem :
      (from to : ℕ)
      → from < to
      → to ≤ from + d.buff_size
      → written_bytes d bytes from to ≡ bytes_between d bytes from to
  written_bytes_lem from to lt le =
      rw (offset_mod from, offset_mod to)
        (elim (lt_or_ge (from % d.buff_size + (to - from)) d.buff_size) [
          | inl ahead ↦
              let e : to % d.buff_size ≡ from % d.buff_size + (to - from) =
                ap (λ (t : ℕ). t % d.buff_size) {x = to} {y = from + (to - from)} (omega arith)
                ∙ mod-ahead from (to - from) d.buff_size ahead in
              ground (arith, e, circular-read bytes d.buff_size from (to - from))
          | inr come_round ↦
              let small : from % d.buff_size < d.buff_size = mod-lt from some_size in
              let e : to % d.buff_size ≡ from % d.buff_size + (to - from) - d.buff_size =
                ap (λ (t : ℕ). t % d.buff_size) {x = to} {y = from + (to - from)} (omega arith)
                ∙ mod-round from (to - from) d.buff_size come_round (omega arith) in
              ground (arith, e, circular-read_round bytes d.buff_size from (to - from))
        ])

  -- An empty range is not: the whole buffer is written.
  pub written_bytes-empty :
      (at_end : ℕ) → length (written_bytes d bytes at_end at_end) ≡ d.buff_size
  written_bytes-empty at_end = rw (offset_mod at_end) (
      ground (
        arith,
        length-append (read_from bytes (at_end % d.buff_size) (d.buff_size - at_end % d.buff_size))
            (read_from bytes 0 (at_end % d.buff_size)),
        length-read_from bytes (at_end % d.buff_size) (d.buff_size - at_end % d.buff_size),
        length-read_from bytes 0 (at_end % d.buff_size),
        mod-lt at_end some_size,
      ))

  pub available_size_lem : available_size d ≡ d.buff_size - (d.end - d.start)
  available_size_lem = omega (arith, w.ordered, w.bounded, w.in_word)

  -- A message that fits is inserted: it follows the bytes that are in the buffer, and they stay.
  pub insert_single_msg_lem :
      (msg : List ℕ)
      → d.end + length msg ≤ d.start + d.buff_size
      → (bytes' : ℕ → ℕ) × (d' : LogBufferBaseData) × (insert_single_msg d msg ≡ ok d')
        × (d' ≡ record d { buff = some bytes'; end = d.end + length msg })
        × IsRing d' bytes'
        × ((from : ℕ)
            → d.start ≤ from
            → from ≤ d.end
            → bytes_between d' bytes' from d'.end ≡ bytes_between d bytes from d.end ++ msg)
        × ((from to : ℕ)
            → d.start ≤ from
            → to ≤ d.end
            → bytes_between d' bytes' from to ≡ bytes_between d bytes from to)
  unfolding insert_single_msg
  insert_single_msg_lem msg fits = (
    bytes',
    d',
    inserts,
    refl,
    record {
      held = refl;
      power = w.power;
      ordered = omega (arith, w.ordered);
      bounded = fits;
      in_word = w.in_word;
    },
    λ from ge le.
        ap (circular bytes' d.buff_size from) {x = d.end + length msg - from}
          {y = (d.end - from) + length msg} (omega arith)
        ∙ circular-add bytes' d.buff_size from (d.end - from) (length msg)
        ∙ ap₂ (λ a b. a ++ b) (kept from d.end ge (omega arith))
            (ap (λ (q : ℕ). circular bytes' d.buff_size q (length msg)) {x = from + (d.end - from)}
                {y = d.end} (omega arith)
              ∙ circular-at bytes' d.buff_size d.end msg
                  (ring_write-at bytes d.buff_size d.end msg (omega (arith, w.ordered)) some_size)),
    kept,
  )
    where
      bytes' : ℕ → ℕ
      bytes' = ring_write bytes d.buff_size (d.end % d.buff_size) msg

      d' : LogBufferBaseData
      d' = record d { buff = some bytes'; end = d.end + length msg }

      inserts : insert_single_msg d msg ≡ ok d'
      inserts =
          rw (w.held, offset_mod d.end)
            (ground (arith, available_size_lem, fits, w.in_word, w.ordered))

      kept :
          (from to : ℕ)
          → d.start ≤ from
          → to ≤ d.end
          → circular bytes' d.buff_size from (to - from)
            ≡ circular bytes d.buff_size from (to - from)
      kept from to ge le = circular-cong bytes' bytes d.buff_size from (to - from) (λ q a b.
          ring_write-kept bytes d.buff_size d.end msg (omega (arith, w.ordered)) some_size q
            (omega arith) (omega arith))
