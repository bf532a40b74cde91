-- ===== src/Message/Memory.antt =====
-- The memory that include/internal_msg.h works on: the pages that `malloc` gives, seen as bytes or as
-- index pages (`IndexPageHeader`).
pub mod Writes
use nodecpp_foundation.Base.{ℕ, zero, suc, ◌+◌, ◌-◌, ◌*◌, ◌/◌, ◌%◌, ◌≡◌, ◌≢◌}
use nodecpp_foundation.Base.{List, [], ◌∷◌, false, ◌==◌, if◌then◌else◌}
use nodecpp_foundation.Base.Lists.{elem, erase, put}
use nodecpp_foundation.Base.Outcome.{Outcome, ok, throws, invalid_free}

-- `pageSize`
abbrev pub page_size : ℕ
page_size = 0x1000

-- `localStorageSize`
abbrev pub local_storage_size : ℕ
local_storage_size = 4

-- `maxAddressedByPage`, with 8-byte pointers: the header takes two words of the page.
abbrev pub max_addressed_by_page : ℕ
max_addressed_by_page = (page_size - 2 * 8) / 8

-- `app_reserved`
abbrev pub app_reserved : ℕ
app_reserved = 8 * 8

-- `total_reserved`: what the application reserves and a message (`FirstHeader` is 6 words).
abbrev pub total_reserved : ℕ
total_reserved = app_reserved + 6 * 8 + 2 * 8 + 2 * 8

-- A sum of `size_t`.
abbrev pub word_add : ℕ → ℕ → ℕ
word_add a b = (a + b) % 0x10000000000000000

-- `IndexPageHeader` with the array of pages that follows it.
pub record IndexPageHeader : Type 0 where
  pub next : ℕ
  pub used_cnt : ℕ
  pub pages : ℕ → ℕ

-- The state of a message. `first_header.pages` are the four `firstPages`.
pub record InternalMsg : Type 0 where
  pub first_header : IndexPageHeader
  pub page_cnt : ℕ
  pub lip : ℕ
  pub current_page : ℕ
  pub total_sz : ℕ

pub record Heap : Type 0 where
  pub live : List ℕ
  pub bytes : ℕ → ℕ → ℕ
  pub index : ℕ → IndexPageHeader

-- `memcpy` and writes of a byte.
abbrev pub write_bytes : (ℕ → ℕ → ℕ) → ℕ → ℕ → List ℕ → ℕ → ℕ → ℕ
write_bytes f page off [] = f
write_bytes f page off (x ∷ xs) = write_bytes (put f page (put (f page) off x)) page (suc off) xs

-- `memcpy` from a page: the `sz` bytes of page `page` from `off`
abbrev pub read_bytes : (ℕ → ℕ → ℕ) → ℕ → ℕ → ℕ → List ℕ
read_bytes f page off zero = []
read_bytes f page off (suc sz) = f page off ∷ read_bytes f page (suc off) sz

-- `implAcquirePageWrapper`, for the page that `malloc` gives
abbrev pub acquire : Heap → ℕ → Heap
acquire h page = record h { live = page ∷ h.live }

-- `implReleasePageWrapper`: `free` of the null pointer does nothing.
unfoldable pub release : Heap → ℕ → Outcome Heap
release h page =
    if page == 0
    then ok h
    else (if elem page h.live
        then ok (record h { live = erase page h.live })
        else throws invalid_free)
