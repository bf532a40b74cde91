-- ===== src/Message/Reading/RoundTrip.antt =====
-- What was appended to a message is what is read from it.
use nodecpp_foundation.Base.{ℕ, ◌+◌, ◌*◌, ◌≤◌, ◌<◌, ◌≡◌, inl, inr, ap, arith}
use nodecpp_foundation.Base.{List, ◌++◌}
use nodecpp_foundation.Base.Lists.{length, take, IsMalloc, length-append}
use nodecpp_foundation.Base.Outcome.{ok}
use nodecpp_foundation.Message.Memory.{
  page_size, local_storage_size, total_reserved, InternalMsg, Heap,
}
use nodecpp_foundation.Message.Buffer.{append}
use nodecpp_foundation.Message.Buffer.Contents.{Holds}
use nodecpp_foundation.Message.Buffer.Append.{append-Holds}
use nodecpp_foundation.Message.Reading.{ReadIter, get_read_iter, read}
use nodecpp_foundation.Message.Reading.Contents.{IsLocal, get_read_iter-StandsAt}
use nodecpp_foundation.Message.Reading.Reads.{read_lem}
use nodecpp_foundation.Message.Reading.Counts.{IsCounted, append_loop-Counts}

-- A message that holds fewer bytes than four pages do lists all its pages itself.
local_lem :
    (page : ℕ → ℕ) (h : Heap) (m : InternalMsg) (contents : List ℕ)
    → Holds page h m contents
    → IsCounted m
    → 0 < length contents
    → total_reserved + length contents < page_size * local_storage_size
    → IsLocal page h m contents
local_lem page h m contents w c some few = record {
  holds = w;
  local = local;
  used = c.counted local;
  started = started;
  bounded = bounded;
}
  where
    started : m.total_sz ≡ total_reserved + length contents
    started = elim w.sizes [
      | inl (none, empty) ↦ absurd (omega (arith, ap length empty, some))
      | inr e ↦ e
    ]

    bounded : m.total_sz ≤ page_size * m.page_cnt
    bounded = ground (arith, w.paged.filling)

    local : m.page_cnt ≤ local_storage_size
    local = ground (arith, w.paged.filling, started, few)

module _ (malloc : List ℕ → ℕ) (is_malloc : IsMalloc malloc) where
  -- What is appended to a message is read from it after what it held, in order: for any number of
  -- bytes, `read` of a new iterator gives that many of them, or all there are, and no assertion fails;
  -- `offset` is then the number of bytes read. The header of the message counts the pages that it
  -- lists, which are at most four, and the bytes with those reserved are fewer than four pages have.
  pub read-append :
      (page : ℕ → ℕ) (h : Heap) (m : InternalMsg) (contents buff : List ℕ) (n : ℕ)
      → Holds page h m contents
      → IsCounted m
      → 0 < length buff
      → total_reserved + length contents + length buff < page_size * local_storage_size
      → m.page_cnt ≤ local_storage_size
      → (h' : Heap) × (m' : InternalMsg) × (it it' : ReadIter) × (append malloc h m buff
          ≡ ok (h', m'))
        × (get_read_iter m' ≡ ok it)
        × (read h' m' it n ≡ ok (take n (contents ++ buff), it'))
        × (it'.current_offset ≡ length (take n (contents ++ buff)))
  unfolding append
  read-append page h m contents buff n w c some few local =
      let (page', h', m', appends, w') =
        append-Holds malloc is_malloc page h m contents buff w (omega (arith, few)) in
      let size : length (contents ++ buff) ≡ length contents + length buff =
        length-append contents buff in
      let c' =
        append_loop-Counts malloc (length buff) h m buff h' m' c (omega (arith, few, local))
          appends in
      let here =
        local_lem page' h' m' (contents ++ buff) w' c' (omega (arith, size, some))
          (omega (arith, size, few)) in
      let (it, starts, at_start) = get_read_iter-StandsAt page' h' m' (contents ++ buff) here in
      let (it', reads, at_end) = read_lem page' h' m' (contents ++ buff) here 0 it n at_start in
      (h', m', it, it', appends, starts, reads, omega (arith, at_end.counted))
