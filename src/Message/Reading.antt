-- ===== src/Message/Reading.antt =====
-- `ReadIter` of include/internal_msg.h, which goes along the bytes of a message that nobody changes
-- meanwhile.
pub mod Contents
pub mod Reads
pub mod RoundTrip
pub mod Counts
use nodecpp_foundation.Base.{ℕ, zero, suc, ◌+◌, ◌-◌, List, [], ◌∷◌, ◌++◌}
use nodecpp_foundation.Base.{Bool, true, false, not, ◌&&◌, ◌||◌, leb, ltb, ◌==◌, if◌then◌else◌}
use nodecpp_foundation.Base.Bytes.{read_from}
use nodecpp_foundation.Base.Outcome.{
  Outcome, ok, throws, asserting, ◌>>=◌, out_of_fuel, zero_access,
}
use nodecpp_foundation.Message.Memory.{
  page_size, total_reserved, word_add, IndexPageHeader, InternalMsg, Heap,
}

-- `ip`: the header in the message, or an index page by its address
pub data IndexRef : Type 0 where
  of_message : IndexRef
  of_page : ℕ → IndexRef

abbrev pub is_null : IndexRef → Bool
is_null of_message = false
is_null (of_page p) = p == 0

-- The members of `ReadIter`; its `page` points to `offset` in `page`.
pub record ReadIter : Type 0 where
  pub ip : IndexRef
  pub page : ℕ
  pub offset : ℕ
  pub total_sz : ℕ
  pub size_remaining_in_block : ℕ
  pub idx_in_index_page : ℕ
  pub current_offset : ℕ

-- `ReadIter( ip_, page_, sz )`
abbrev pub new_iter : IndexRef → ℕ → ℕ → ℕ → ReadIter
new_iter ip page offset sz = record {
  ip = ip;
  page = page;
  offset = offset;
  total_sz = sz;
  size_remaining_in_block =
      if leb sz (page_size - total_reserved) then sz else page_size - total_reserved;
  idx_in_index_page = 0;
  current_offset = 0;
}

-- `getReadIter`
unfoldable pub get_read_iter : InternalMsg → Outcome ReadIter
get_read_iter m = asserting (m.total_sz == 0 || leb total_reserved m.total_sz) (
    if not (m.total_sz == 0)
    then ok
        (new_iter of_message (m.first_header.pages 0) total_reserved (m.total_sz - total_reserved))
    else ok (new_iter of_message 0 0 0))

-- The size of the next block
abbrev pub next_block : ℕ → ℕ
next_block total = if leb total page_size then total else page_size

module _ (h : Heap) (m : InternalMsg) where
  abbrev pub header : IndexRef → IndexPageHeader
  header of_message = m.first_header
  header (of_page p) = h.index p

  -- The next page, from the next index page if this one lists no more
  unfoldable pub advance : ReadIter → Outcome ReadIter
  advance it =
      let e = header it.ip in
      if leb e.used_cnt (word_add it.idx_in_index_page 1)
      then (if e.next == 0
          then throws zero_access
          else ok (record it {
            ip = of_page e.next;
            idx_in_index_page = 0;
            page = (h.index e.next).pages 0;
            offset = 0;
            size_remaining_in_block = next_block it.total_sz;
          }))
      else ok (record it {
        idx_in_index_page = word_add it.idx_in_index_page 1;
        page = e.pages (word_add it.idx_in_index_page 1);
        offset = 0;
        size_remaining_in_block = next_block it.total_sz;
      })

  -- `impl_skip`
  unfoldable pub impl_skip : ReadIter → ℕ → Outcome ReadIter
  impl_skip it sz =
      let it1 = record it {
        size_remaining_in_block = it.size_remaining_in_block - sz;
        total_sz = it.total_sz - sz;
      } in
      asserting (leb sz it.size_remaining_in_block) (
        asserting (not (is_null it.ip)) (
          if not (it1.total_sz == 0) && (it1.size_remaining_in_block == 0)
          then advance it1
          else ok (record it1 { offset = it.offset + sz })))

  -- `directRead`: the page and the offset of the bytes, and the iterator behind them
  unfoldable pub direct_read : ReadIter → ℕ → Outcome ((ℕ × ℕ) × ReadIter)
  direct_read it sz = impl_skip it sz >>= λ it1.
      ok ((it.page, it.offset), record it1 { current_offset = word_add it.current_offset sz })

  -- `operator *`
  unfoldable pub current : ReadIter → Outcome ℕ
  current it = asserting (not (it.total_sz == 0)) (ok (h.bytes it.page it.offset))

  -- `operator ++`
  unfoldable pub step : ReadIter → Outcome ReadIter
  step it =
      impl_skip it 1 >>= λ it1. ok (record it1 { current_offset = word_add it.current_offset 1 })

  -- `readChar`
  unfoldable pub read_char : ReadIter → Outcome (ℕ × ReadIter)
  read_char it = current it >>= λ x. step it >>= λ it1. ok (x, it1)

  -- The loop of `read`, with the bytes that it has copied so far
  unfoldable pub read_loop : ℕ → ReadIter → ℕ → List ℕ → Outcome (List ℕ × ReadIter)
  read_loop zero it size buffer = throws out_of_fuel
  read_loop (suc fuel) it size buffer =
      let asz = it.size_remaining_in_block in
      if asz == 0
      then ok (buffer, it)
      else (if leb size asz
          then (direct_read it size >>= λ r.
              ok (buffer ++ read_from (h.bytes ((r.0).0)) ((r.0).1) size, r.1))
          else (direct_read it asz >>= λ r.
              read_loop fuel (r.1) (size - asz)
                (buffer ++ read_from (h.bytes ((r.0).0)) ((r.0).1) asz)))

  -- `read`: the bytes that it copies, as many as it returns
  unfoldable pub read : ReadIter → ℕ → Outcome (List ℕ × ReadIter)
  read it size = read_loop (suc size) it size []

  -- The loop of `skip`, with the size that is left
  unfoldable pub skip_loop : ℕ → ReadIter → ℕ → Outcome (ℕ × ReadIter)
  skip_loop zero it size = throws out_of_fuel
  skip_loop (suc fuel) it size =
      let asz = it.size_remaining_in_block in
      if asz == 0
      then ok (size, it)
      else (if leb size asz
          then (impl_skip it size >>= λ it1. ok (size, it1))
          else (impl_skip it asz >>= λ it1. skip_loop fuel it1 (size - asz)))

  -- `skip`: what it returns, and the iterator behind it
  unfoldable pub skip : ReadIter → ℕ → Outcome (ℕ × ReadIter)
  skip it size =
      let size' = if ltb it.total_sz size then it.total_sz else size in
      skip_loop (suc size') it size' >>= λ r.
      ok (size', record (r.1) { current_offset = word_add (r.1).current_offset (r.0) })
