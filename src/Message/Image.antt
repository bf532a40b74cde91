-- ===== src/Message/Image.antt =====
-- The bytes of an `InternalMsg` object, of include/internal_msg.h, as `memcpy` of the object copies them: ten words of
-- eight bytes, the lowest byte first.
pub mod Laws
use nodecpp_foundation.Base.{ℕ, zero, suc, ◌+◌, ◌*◌, ◌/◌, ◌%◌, List, [], ◌∷◌, ◌++◌}
use nodecpp_foundation.Base.{ltb, if◌then◌else◌}
use nodecpp_foundation.Message.Memory.{local_storage_size, InternalMsg, read_bytes}

-- The `n` low bytes of a number, and the number that bytes are
abbrev pub word_bytes : ℕ → ℕ → List ℕ
word_bytes zero w = []
word_bytes (suc n) w = w % 256 ∷ word_bytes n (w / 256)

abbrev pub word_of : List ℕ → ℕ
word_of [] = 0
word_of (b ∷ bs) = b + 256 * word_of bs

abbrev pub words_bytes : List ℕ → List ℕ
words_bytes [] = []
words_bytes (w ∷ ws) = word_bytes 8 w ++ words_bytes ws

-- The members in their order: `firstHeader` with `firstPages`, `pageCnt`, `lip`, `currentPage`, `totalSz`
abbrev pub members : InternalMsg → List ℕ
members m =
    m.first_header.next
    ∷ m.first_header.used_cnt
    ∷ m.first_header.pages 0
    ∷ m.first_header.pages 1
    ∷ m.first_header.pages 2
    ∷ m.first_header.pages 3
    ∷ m.page_cnt
    ∷ m.lip
    ∷ m.current_page
    ∷ m.total_sz
    ∷ []

-- Word `k` of the object at `ptr`
abbrev pub word_at : (ℕ → ℕ → ℕ) → ℕ → ℕ → ℕ
word_at bytes ptr k = word_of (read_bytes bytes ptr (8 * k) 8)

-- The object that lies at `ptr`
abbrev pub message_at : (ℕ → ℕ → ℕ) → ℕ → InternalMsg
message_at bytes ptr = record {
  first_header = record {
    next = word_at bytes ptr 0;
    used_cnt = word_at bytes ptr 1;
    pages = λ i. if ltb i local_storage_size then word_at bytes ptr (2 + i) else 0;
  };
  page_cnt = word_at bytes ptr 6;
  lip = word_at bytes ptr 7;
  current_page = word_at bytes ptr 8;
  total_sz = word_at bytes ptr 9;
}
