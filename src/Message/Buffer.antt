-- ===== src/Message/Buffer.antt =====
-- `InternalMsg` of include/internal_msg.h: a message that grows by pages.
pub mod Contents
pub mod Index
pub mod Pages
pub mod Fill
pub mod Open
pub mod Append
use nodecpp_foundation.Base.{ℕ, zero, suc, ◌-◌, ◌%◌, List, [], ◌∷◌}
use nodecpp_foundation.Base.{not, ltb, leb, ◌==◌, if◌then◌else◌}
use nodecpp_foundation.Base.Lists.{length, take, drop}
use nodecpp_foundation.Base.Outcome.{Outcome, ok, throws, asserting, ◌>>=◌, out_of_fuel}
use nodecpp_foundation.Message.Memory.{
  page_size, local_storage_size, max_addressed_by_page, total_reserved, word_add, IndexPageHeader,
  InternalMsg, Heap, write_bytes, acquire,
}
use nodecpp_foundation.Base.Lists.{put}

-- `IndexPageHeader::init(page)`
abbrev pub header_init_page : IndexPageHeader → ℕ → IndexPageHeader
header_init_page e page = record { next = 0; used_cnt = 1; pages = put e.pages 0 page }

abbrev pub offset_in_current_page : InternalMsg → ℕ
offset_in_current_page m = m.total_sz % page_size

abbrev pub remaining_size_in_current_page : InternalMsg → ℕ
remaining_size_in_current_page m = page_size - offset_in_current_page m

-- `++pageCnt`
abbrev pub count_page : InternalMsg → InternalMsg
count_page m = record m { page_cnt = word_add m.page_cnt 1 }

-- `implAddPage`: one of the pages kept in the message.
abbrev pub list_locally : InternalMsg → ℕ → InternalMsg
list_locally m page = record m {
  first_header = record {
    next = m.first_header.next;
    used_cnt = word_add m.first_header.used_cnt 1;
    pages = put m.first_header.pages m.page_cnt page;
  };
  current_page = page;
}

abbrev pub add_local_page : Heap → InternalMsg → ℕ → Outcome (Heap × InternalMsg)
add_local_page h m page =
    asserting (m.first_header.next == 0)
      (asserting (m.lip == 0) (ok (acquire h page, list_locally m page)))

-- A new index page `ip` that lists `page`.
abbrev pub new_index_page : Heap → ℕ → ℕ → Heap
new_index_page h ip page = record (acquire (acquire h ip) page) {
  index = put h.index ip (header_init_page (h.index ip) page);
}

-- `implAddPage`: the first index page.
abbrev pub start_index : InternalMsg → ℕ → ℕ → InternalMsg
start_index m ip page = record m {
  first_header = record m.first_header { next = ip };
  lip = ip;
  current_page = page;
}

abbrev pub add_first_index_page : Heap → InternalMsg → ℕ → ℕ → Outcome (Heap × InternalMsg)
add_first_index_page h m ip page =
    asserting (m.first_header.next == 0) (ok (new_index_page h ip page, start_index m ip page))

-- `lastIndexPage()->next_ = nextip_`
abbrev pub link_index : Heap → ℕ → ℕ → Heap
link_index h last ip = record h { index = put h.index last (record (h.index last) { next = ip }) }

-- `implAddPage`: a further index page, when the last one is full.
abbrev pub add_next_index_page : Heap → InternalMsg → ℕ → ℕ → Outcome (Heap × InternalMsg)
add_next_index_page h m ip page = asserting (not (m.first_header.next == 0)) (
    ok (link_index (new_index_page h ip page) m.lip ip, record m { lip = ip; current_page = page }))

-- `implAddPage`: a page listed in the last index page.
abbrev pub list_in_index : Heap → ℕ → ℕ → Heap
list_in_index h last page = record h {
  index = put h.index last (record {
    next = (h.index last).next;
    used_cnt = word_add (h.index last).used_cnt 1;
    pages = put (h.index last).pages (h.index last).used_cnt page;
  });
}

abbrev pub add_indexed_page : Heap → InternalMsg → ℕ → Outcome (Heap × InternalMsg)
add_indexed_page h m page = asserting (not (m.first_header.next == 0)) (
    asserting (ltb (h.index m.lip).used_cnt max_addressed_by_page)
      (ok (list_in_index (acquire h page) m.lip page, record m { current_page = page })))

-- `memcpy` of `part` to the end of the current page, and `totalSz += sz`
abbrev pub fill : Heap → InternalMsg → List ℕ → Heap × InternalMsg
fill h m part = (
  record h { bytes = write_bytes h.bytes m.current_page (offset_in_current_page m) part },
  record m { total_sz = word_add m.total_sz (length part) },
)

-- `currentPage.init()` of a full page
abbrev pub close_page : Heap → InternalMsg → Outcome (Heap × InternalMsg)
close_page h m = asserting (offset_in_current_page m == 0) (ok (h, record m { current_page = 0 }))

module _ (malloc : List ℕ → ℕ) where
  abbrev pub second : Heap → ℕ
  second h = malloc (malloc h.live ∷ h.live)

  unfoldable pub impl_add_page : Heap → InternalMsg → Outcome (Heap × InternalMsg)
  impl_add_page h m = asserting (m.current_page == 0) (
      asserting (offset_in_current_page m == 0) (
        (if ltb m.page_cnt local_storage_size
          then add_local_page h m (malloc h.live)
          else (if m.lip == 0
              then add_first_index_page h m (malloc h.live) (second h)
              else (if (h.index m.lip).used_cnt == max_addressed_by_page
                  then add_next_index_page h m (malloc h.live) (second h)
                  else add_indexed_page h m (malloc h.live))))
        >>= λ s. ok (s.0, count_page (s.1))))

  unfoldable pub reserve_space_for_convertion_to_tag :
      Heap → InternalMsg → Outcome (Heap × InternalMsg)
  unfolding impl_add_page
  reserve_space_for_convertion_to_tag h m = asserting (m.current_page == 0) (
      impl_add_page h m >>= λ s. asserting (not ((s.1).current_page == 0)) (
        asserting (ltb total_reserved (remaining_size_in_current_page (s.1)))
          (ok (s.0, record (s.1) { total_sz = word_add ((s.1).total_sz) total_reserved }))))

  -- The page that `append` and `appendUint8` write to: a new one if there is none.
  unfoldable pub open_page : Heap → InternalMsg → Outcome (Heap × InternalMsg)
  open_page h m =
      if m.current_page == 0
      then ((if not (m.total_sz == 0)
            then impl_add_page h m
            else reserve_space_for_convertion_to_tag h m)
          >>= λ s. asserting (not ((s.1).current_page == 0)) (ok s))
      else ok (h, m)

  -- The loop of `append(buff, sz)`, with `sz` the length of `buff`.
  unfoldable pub append_loop : ℕ → Heap → InternalMsg → List ℕ → Outcome (Heap × InternalMsg)
  append_loop fuel h m [] = ok (h, m)
  append_loop zero h m (x ∷ xs) = throws out_of_fuel
  append_loop (suc fuel) h m (x ∷ xs) = open_page h m >>= λ s.
      let buff = x ∷ xs in
      let remaining = remaining_size_in_current_page (s.1) in
      if leb (length buff) remaining
      then (let t = fill (s.0) (s.1) buff in
          if length buff == remaining then close_page (t.0) (t.1) else ok t)
      else (let t = fill (s.0) (s.1) (take remaining buff) in
          close_page (t.0) (t.1) >>= λ u. append_loop fuel (u.0) (u.1) (drop remaining buff))

  unfoldable pub append : Heap → InternalMsg → List ℕ → Outcome (Heap × InternalMsg)
  append h m buff = append_loop (length buff) h m buff

  unfoldable pub append_uint8 : Heap → InternalMsg → ℕ → Outcome (Heap × InternalMsg)
  append_uint8 h m what = open_page h m >>= λ s.
      let remaining = remaining_size_in_current_page (s.1) in
      asserting (not (remaining == 0)) (
        let t = fill (s.0) (s.1) (what ∷ []) in
        if 1 == remaining then close_page (t.0) (t.1) else ok t)
