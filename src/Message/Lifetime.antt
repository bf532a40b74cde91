-- ===== src/Message/Lifetime.antt =====
-- What `InternalMsg` of include/internal_msg.h does besides appending: its pages are released, it is
-- moved, turned into a pointer and back, and its reserved bytes are written and read.
pub mod Laws
pub mod Pointer
pub mod Clear
pub mod AppData
use nodecpp_foundation.Base.{ℕ, zero, suc, ◌+◌, ◌-◌, List, [], ◌∷◌}
use nodecpp_foundation.Base.{not, ◌||◌, ltb, leb, ◌==◌, if◌then◌else◌}
use nodecpp_foundation.Base.Lists.{length}
use nodecpp_foundation.Base.Outcome.{Outcome, ok, throws, asserting, ◌>>=◌, out_of_fuel}
use nodecpp_foundation.Base.Store.{Store, update}
use nodecpp_foundation.Message.Memory.{
  local_storage_size, app_reserved, total_reserved, IndexPageHeader, InternalMsg, Heap, write_bytes,
  read_bytes, release,
}
use nodecpp_foundation.Message.Image.{words_bytes, members, message_at}
use nodecpp_foundation.Message.Buffer.{impl_add_page}

-- `InternalMsg()`, and also what `memset( this, 0, ... )` leaves.
abbrev pub new_message : InternalMsg
new_message = record {
  first_header = record { next = 0; used_cnt = 0; pages = λ i. 0 };
  page_cnt = 0;
  lip = 0;
  current_page = 0;
  total_sz = 0;
}

-- `implReleasePageWrapper` of the `count` pages from index `i`
unfoldable pub release_pages : Heap → (ℕ → ℕ) → ℕ → ℕ → Outcome Heap
release_pages h pages i zero = ok h
release_pages h pages i (suc count) =
    release h (pages i) >>= λ h'. release_pages h' pages (suc i) count

-- The `while` over the index pages, with fuel.
unfoldable pub release_index_pages : ℕ → Heap → InternalMsg → Outcome (Heap × InternalMsg)
release_index_pages zero h m = if m.first_header.next == 0 then ok (h, m) else throws out_of_fuel
release_index_pages (suc fuel) h m =
    let ip = h.index m.first_header.next in
    let m' = record m {
      first_header = record m.first_header { next = ip.next };
      page_cnt = m.page_cnt - ip.used_cnt;
    } in
    if m.first_header.next == 0
    then ok (h, m)
    else asserting (ltb local_storage_size m.page_cnt || ip.next == 0) (
        asserting (leb ip.used_cnt m.page_cnt) (
          release_pages h ip.pages 0 ip.used_cnt >>= λ h1.
          release h1 m.first_header.next >>= λ h2. release_index_pages fuel h2 m'))

-- `implReleaseAllPages`
unfoldable pub impl_release_all_pages : Heap → InternalMsg → Outcome (Heap × InternalMsg)
impl_release_all_pages h m =
    let count = if ltb m.page_cnt local_storage_size then m.page_cnt else local_storage_size in
    let m' = record m { page_cnt = m.page_cnt - count } in
    release_pages h m.first_header.pages 0 count >>= λ h'.
    if m'.page_cnt == 0
    then ok (h', m')
    else asserting (not (m'.first_header.next == 0)) (release_index_pages m'.page_cnt h' m')

-- `impl_clear`: `firstHeader.usedCnt` and `firstHeader.pages()` stay as they are.
unfoldable pub impl_clear : Heap → InternalMsg → Outcome (Heap × InternalMsg)
unfolding impl_release_all_pages
impl_clear h m = impl_release_all_pages h m >>= λ s. asserting ((s.1).page_cnt == 0) (
    ok (
      s.0,
      record (s.1) {
        first_header = record ((s.1).first_header) { next = 0 };
        lip = 0;
        current_page = 0;
        total_sz = 0;
      },
    ))

-- `IndexPageHeader( IndexPageHeader&& )` and `FirstHeader( FirstHeader&& )`: the header taken and
-- what stays behind.
abbrev pub take_header : IndexPageHeader → IndexPageHeader
take_header other = record {
  next = other.next;
  used_cnt = other.used_cnt;
  pages = λ i. if ltb i local_storage_size then other.pages i else 0;
}

abbrev pub leave_header : IndexPageHeader → IndexPageHeader
leave_header other = record {
  next = 0;
  used_cnt = 0;
  pages = λ i. if ltb i local_storage_size then 0 else other.pages i;
}

-- What a move takes from `other`
abbrev pub taken : InternalMsg → InternalMsg
taken other = record other { first_header = take_header other.first_header }

-- What a move leaves in `other`
abbrev pub left_behind : InternalMsg → InternalMsg
left_behind other = record {
  first_header = leave_header other.first_header;
  page_cnt = 0;
  lip = 0;
  current_page = 0;
  total_sz = 0;
}

-- `InternalMsg( InternalMsg&& other )`, at the address `this`
unfoldable pub move_construct : Store InternalMsg → ℕ → ℕ → Store InternalMsg
move_construct s this other = update (update s this (taken (s other))) other (left_behind (s other))

-- `operator =( InternalMsg&& other )`
unfoldable pub move_assign : Heap → Store InternalMsg → ℕ → ℕ → Outcome (Heap × Store InternalMsg)
unfolding impl_clear
move_assign h s this other =
    if this == other
    then ok (h, s)
    else impl_clear h (s this) >>= λ r.
        let s' = update s this (r.1) in
        ok (r.0, update (update s' this (taken (s' other))) other (left_behind (s' other)))

-- `convertToPointer`: the pointer, 0 for an empty message; the object is copied to the start of the first page.
unfoldable pub convert_to_pointer : Heap → InternalMsg → Outcome (ℕ × Heap × InternalMsg)
convert_to_pointer h m =
    let prefix = m.first_header.pages 0 in
    if not (m.total_sz == 0)
    then asserting (not (prefix == 0)) (
        ok (
          prefix,
          record h { bytes = write_bytes h.bytes prefix 0 (words_bytes (members m)) },
          new_message,
        ))
    else asserting (prefix == 0) (ok (0, h, m))

-- `restoreFromPointer`
unfoldable pub restore_from_pointer : Heap → InternalMsg → ℕ → Outcome (Heap × InternalMsg)
unfolding impl_clear
restore_from_pointer h m ptr =
    impl_clear h m >>= λ r. if not (ptr == 0) then ok (r.0, message_at (r.0).bytes ptr) else ok r

-- `appWriteData`: an empty message gets its first page.
unfoldable pub app_write_data :
    (List ℕ → ℕ) → Heap → InternalMsg → List ℕ → ℕ → Outcome (Heap × InternalMsg)
unfolding impl_add_page
app_write_data malloc h m source offset =
    asserting (m.total_sz == 0 || leb total_reserved m.total_sz) (
      (if not (m.total_sz == 0)
        then ok (h, m)
        else asserting (m.current_page == 0) (impl_add_page malloc h m))
      >>= λ s. asserting (leb (offset + length source) app_reserved) (
          ok (
            record (s.0) {
              bytes =
                  write_bytes (s.0).bytes ((s.1).first_header.pages 0)
                    (total_reserved - app_reserved + offset) source;
            },
            s.1,
          )))

-- `appReadData`
unfoldable pub app_read_data : Heap → InternalMsg → ℕ → ℕ → Outcome (List ℕ)
app_read_data h m offset sz = asserting (m.total_sz == 0 || leb total_reserved m.total_sz) (
    asserting (leb (offset + sz) app_reserved) (
      asserting (not (m.first_header.pages 0 == 0)) (
        ok (
          read_bytes h.bytes (m.first_header.pages 0) (total_reserved - app_reserved + offset)
            sz))))

-- `size`
unfoldable pub size : InternalMsg → Outcome ℕ
size m =
    asserting (m.total_sz == 0 || leb total_reserved m.total_sz)
      (ok (if not (m.total_sz == 0) then m.total_sz - total_reserved else 0))
