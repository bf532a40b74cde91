-- ===== src/Message/Buffer/Contents.antt =====
-- The list of bytes that a message stands for, and the invariant of its pages.
use nodecpp_foundation.Base.{ℕ, ◌+◌, ◌-◌, ◌*◌, ◌/◌, ◌%◌, ◌≤◌, ◌<◌, ◌≡◌, ◌≢◌, ◌⊎◌}
use nodecpp_foundation.Base.{List, [], true}
use nodecpp_foundation.Base.Lists.{length, at, elem}
use nodecpp_foundation.Message.Memory.{
  page_size, local_storage_size, max_addressed_by_page, total_reserved, InternalMsg, Heap,
  IndexPageHeader,
}

-- No page is being filled, and all are full.
abbrev pub IsClosed : InternalMsg → Type 0
IsClosed m = (m.current_page ≡ 0) × (m.total_sz ≡ page_size * m.page_cnt)

-- The last page is being filled, and has room.
abbrev pub IsOpen : (ℕ → ℕ) → InternalMsg → Type 0
IsOpen page m =
    (m.current_page ≢ 0)
    × (1 ≤ m.page_cnt)
    × (m.current_page ≡ page (m.page_cnt - 1))
    × (page_size * (m.page_cnt - 1) ≤ m.total_sz)
    × (m.total_sz < page_size * m.page_cnt)

-- The index pages of a message of `cnt` pages are `ip 0`, `ip 1` and so on, `n` of them: each is linked to the next,
-- all but the last are full, and together they list the pages after the first four, in their order. They are allocated
-- and different.
pub record IsIndexed (page : ℕ → ℕ) (index : ℕ → IndexPageHeader) (live : List ℕ) (cnt head lip : ℕ)
    (ip : ℕ → ℕ) (n : ℕ) : Type 0 where
  pub sized :
      ((n ≡ 0) × (cnt ≤ local_storage_size))
      ⊎ ((j : ℕ) × (n ≡ j + 1)
          × (cnt ≡ local_storage_size + max_addressed_by_page * j + (index (ip j)).used_cnt)
          × (1 ≤ (index (ip j)).used_cnt)
          × ((index (ip j)).used_cnt ≤ max_addressed_by_page))
  pub first : 0 < n → head ≡ ip 0
  pub last : (j : ℕ) → j + 1 ≡ n → lip ≡ ip j
  pub linked : (j : ℕ) → j + 1 < n → (index (ip j)).next ≡ ip (j + 1)
  pub ended : (j : ℕ) → j + 1 ≡ n → (index (ip j)).next ≡ 0
  pub full : (j : ℕ) → j + 1 < n → (index (ip j)).used_cnt ≡ max_addressed_by_page
  pub lists :
      (j k : ℕ)
      → j < n
      → k < max_addressed_by_page
      → local_storage_size + max_addressed_by_page * j + k < cnt
      → (index (ip j)).pages k ≡ page (local_storage_size + max_addressed_by_page * j + k)
  pub in_use : (j : ℕ) → j < n → elem (ip j) live ≡ true
  pub apart : (i j : ℕ) → i < n → j < n → ip i ≡ ip j → i ≡ j

-- The pages of `m` are `page 0`, `page 1` and so on: allocated, different, the first four listed in
-- the message and the others in index pages, linked from the first to the last, that are never overfull.
pub record IsPaged (page : ℕ → ℕ) (h : Heap) (m : InternalMsg) : Type 0 where
  pub filling : IsClosed m ⊎ IsOpen page m
  pub few : m.page_cnt ≤ local_storage_size → (m.first_header.next ≡ 0) × (m.lip ≡ 0)
  pub many :
      local_storage_size < m.page_cnt
      → (m.first_header.next ≢ 0) × (m.lip ≢ 0) × ((h.index m.lip).used_cnt ≤ max_addressed_by_page)
  pub allocated : (i : ℕ) → i < m.page_cnt → elem (page i) h.live ≡ true
  pub not_null : (i : ℕ) → i < m.page_cnt → page i ≢ 0
  pub distinct : (i j : ℕ) → i < m.page_cnt → j < m.page_cnt → page i ≡ page j → i ≡ j
  pub listed : (i : ℕ) → i < m.page_cnt → i < local_storage_size → m.first_header.pages i ≡ page i
  pub indexed :
      (ip : ℕ → ℕ) × (n : ℕ) × IsIndexed page h.index h.live m.page_cnt m.first_header.next m.lip ip
        n

-- Byte `k` of the contents of a message: those before it are reserved.
abbrev pub byte_at : (ℕ → ℕ) → Heap → ℕ → ℕ
byte_at page h k =
    h.bytes (page ((total_reserved + k) / page_size)) ((total_reserved + k) % page_size)

pub record Holds (page : ℕ → ℕ) (h : Heap) (m : InternalMsg) (contents : List ℕ) : Type 0 where
  pub paged : IsPaged page h m
  pub sizes : ((m.page_cnt ≡ 0) × (contents ≡ [])) ⊎ (m.total_sz ≡ total_reserved + length contents)
  pub same_bytes : (k : ℕ) → k < length contents → byte_at page h k ≡ at contents k
