-- ===== src/Message/Lifetime/Pointer.antt =====
-- A message that is turned into a pointer and comes back.
use nodecpp_foundation.Base.{
  ℕ, suc, ◌+◌, ◌-◌, ◌<◌, ◌*◌, ◌^◌, ltb, ◌==◌, false, zero, if◌then◌else◌, ◌≡◌, ◌≢◌, refl, ap, sym,
  ◌∙◌, arith,
}
use nodecpp_foundation.Base.{List}
use nodecpp_foundation.Base.Lists.{at}
use nodecpp_foundation.Base.Outcome.{ok}
use nodecpp_foundation.Message.Memory.{
  local_storage_size, app_reserved, total_reserved, InternalMsg, Heap, write_bytes,
}
use nodecpp_foundation.Message.Buffer.Contents.{Holds}
use nodecpp_foundation.Message.Memory.Writes.{write_bytes-after}
use nodecpp_foundation.Message.Image.{words_bytes, members, word_at, message_at}
use nodecpp_foundation.Message.Image.Laws.{word_at-write_bytes}
use nodecpp_foundation.Message.Lifetime.{
  new_message, release_pages, impl_release_all_pages, impl_clear, taken, convert_to_pointer,
  restore_from_pointer,
}
use nodecpp_foundation.Message.Lifetime.Laws.{kept-reserved}

-- The members of a message are words of 64 bits.
pub record AreWords (m : InternalMsg) : Type 0 where
  pub next : m.first_header.next < 2 ^ 64
  pub used_cnt : m.first_header.used_cnt < 2 ^ 64
  pub pages : (i : ℕ) → i < local_storage_size → m.first_header.pages i < 2 ^ 64
  pub page_cnt : m.page_cnt < 2 ^ 64
  pub lip : m.lip < 2 ^ 64
  pub current_page : m.current_page < 2 ^ 64
  pub total_sz : m.total_sz < 2 ^ 64

past_header : (i : ℕ) → ltb (suc (suc (suc (suc i)))) local_storage_size ≡ false
past_header i = ground arith

-- The object that is copied to a page is read from there.
message_at-write_bytes :
    (f : ℕ → ℕ → ℕ) (ptr : ℕ) (m : InternalMsg)
    → AreWords m
    → message_at (write_bytes f ptr 0 (words_bytes (members m))) ptr ≡ taken m
message_at-write_bytes f ptr m a = λ t. record {
  first_header = record {
    next = word 0 (omega arith) a.next (omega arith) t;
    used_cnt = word 1 (omega arith) a.used_cnt (omega arith) t;
    pages = λ i. page_word i t;
  };
  page_cnt = word 6 (omega arith) a.page_cnt (omega arith) t;
  lip = word 7 (omega arith) a.lip (omega arith) t;
  current_page = word 8 (omega arith) a.current_page (omega arith) t;
  total_sz = word 9 (omega arith) a.total_sz (omega arith) t;
}
  where
    word :
        (k : ℕ)
        → k < 10
        → at (members m) k < 2 ^ 64
        → 8 * k + 8 < 81
        → word_at (write_bytes f ptr 0 (words_bytes (members m))) ptr k ≡ at (members m) k
    word k lt small inside = word_at-write_bytes f ptr (members m) k lt small inside

    page_word :
        (i : ℕ)
        → (if ltb i local_storage_size
            then word_at (write_bytes f ptr 0 (words_bytes (members m))) ptr (2 + i)
            else 0)
          ≡ (if ltb i local_storage_size then m.first_header.pages i else 0)
    page_word zero = word 2 (omega arith) (a.pages 0 (omega arith)) (omega arith)
    page_word (suc zero) = word 3 (omega arith) (a.pages 1 (omega arith)) (omega arith)
    page_word (suc (suc zero)) = word 4 (omega arith) (a.pages 2 (omega arith)) (omega arith)
    page_word (suc (suc (suc zero))) = word 5 (omega arith) (a.pages 3 (omega arith)) (omega arith)
    page_word (suc (suc (suc (suc i)))) = rw (past_header i) refl

-- A message that holds something and whose members are words of 64 bits is turned into a pointer, the address of its
-- first page, where its bytes are copied, leaving a new message. It is restored from the pointer with its four pages in
-- the header and all else as it was, in a new message, and holds what it held; the bytes reserved for the
-- application are as they were too.
pub restore-convert :
    (page : ℕ → ℕ) (h : Heap) (m : InternalMsg) (contents : List ℕ)
    → Holds page h m contents
    → m.total_sz ≢ 0
    → AreWords m
    → (h' : Heap) × (convert_to_pointer h m ≡ ok (page 0, h', new_message))
      × (restore_from_pointer h' new_message (page 0) ≡ ok (h', taken m))
      × Holds page h' (taken m) contents
      × ((i : ℕ)
          → i < app_reserved
          → h'.bytes (page 0) (total_reserved - app_reserved + i)
            ≡ h.bytes (page 0) (total_reserved - app_reserved + i))
unfolding convert_to_pointer restore_from_pointer impl_clear impl_release_all_pages release_pages
restore-convert page h m contents w some_bytes a = (
  h',
  rw (some_size, some_page) (ap (λ (p : ℕ). ok (p, h', new_message)) first_page),
  rw (not_null) (ap (λ (r : InternalMsg). ok (h', r)) restored),
  record {
    paged = record {
      filling = w.paged.filling;
      few = w.paged.few;
      many = w.paged.many;
      allocated = w.paged.allocated;
      not_null = w.paged.not_null;
      distinct = w.paged.distinct;
      indexed = w.paged.indexed;
      listed = λ i p q. ground (arith, w.paged.listed i);
    };
    sizes = w.sizes;
    same_bytes = λ k lt.
        kept-reserved page h m contents 0 (words_bytes (members m)) w some_bytes (omega arith) k lt
        ∙ w.same_bytes k lt;
  },
  λ i lt.
      write_bytes-after h.bytes (m.first_header.pages 0) 0 (words_bytes (members m)) (page 0)
        (total_reserved - app_reserved + i) (omega arith),
)
  where
    h' : Heap
    h' = record h {
      bytes = write_bytes h.bytes (m.first_header.pages 0) 0 (words_bytes (members m));
    }

    first_page : m.first_header.pages 0 ≡ page 0
    first_page = ground (arith, w.paged.listed 0, w.paged.filling)

    not_null : (page 0 == 0) ≡ false
    not_null = ground (arith, w.paged.not_null 0, w.paged.filling)

    some_size : (m.total_sz == 0) ≡ false
    some_size = ground (arith, some_bytes)

    some_page : (m.first_header.pages 0 == 0) ≡ false
    some_page = ground (arith, first_page, not_null)

    restored : message_at h'.bytes (page 0) ≡ taken m
    restored =
        ap (message_at h'.bytes) (sym first_page)
        ∙ message_at-write_bytes h.bytes (m.first_header.pages 0) m a
