-- ===== src/Tests/Messages.antt =====
-- The theorems on messages at concrete inputs: an allocator that counts, and messages of a few bytes.
use nodecpp_foundation.Base.{
  ◌-◌, ◌+◌, ℕ, zero, suc, ◌<◌, ◌≡◌, inr, refl, arith, List, [], ◌∷◌, ◌++◌,
}
use nodecpp_foundation.Base.Lists.{at, length, take}
use nodecpp_foundation.Message.Transfer.{append_iter, append_iter_loop}
use nodecpp_foundation.Message.Buffer.{
  append_loop, impl_add_page, open_page, reserve_space_for_convertion_to_tag,
}
use nodecpp_foundation.Base.Outcome.{◌>>=◌}
use nodecpp_foundation.Message.Memory.{app_reserved, total_reserved}
use nodecpp_foundation.Message.Reading.{
  of_message, new_iter, direct_read, impl_skip, read_loop, ReadIter, get_read_iter, read,
}
use nodecpp_foundation.Message.Reading.RoundTrip.{read-append}
use nodecpp_foundation.Base.Outcome.{ok, throws, assertion_failed}
use nodecpp_foundation.Base.Store.{Store}
use nodecpp_foundation.Tests.Allocator.{counting_malloc, counting_malloc-IsMalloc}
use nodecpp_foundation.Message.Memory.{InternalMsg, Heap}
use nodecpp_foundation.Message.Buffer.{append}
use nodecpp_foundation.Message.Buffer.Contents.{Holds}
use nodecpp_foundation.Message.Lifetime.{
  taken, new_message, impl_clear, convert_to_pointer, restore_from_pointer, app_write_data,
  app_read_data,
}
use nodecpp_foundation.Message.Buffer.Index.{IsIndexed-none}
use nodecpp_foundation.Message.Lifetime.Pointer.{AreWords, restore-convert}
use nodecpp_foundation.Message.Lifetime.Laws.{Holds-none, app_read_data-app_write_data}
use nodecpp_foundation.Message.Lifetime.Clear.{impl_clear_lem, without_pages}

abbrev empty_heap : Heap
empty_heap = record {
  live = [];
  bytes = λ p o. 0;
  index = λ p. record { next = 0; used_cnt = 0; pages = λ i. 0 };
}

abbrev three_bytes : List ℕ
three_bytes = 7 ∷ 8 ∷ 9 ∷ []

new_message-Holds : Holds (λ i. i) empty_heap new_message []
new_message-Holds = Holds-none (λ i. i) empty_heap new_message refl refl refl refl refl

read-append_example :
    (h' : Heap) × (m' : InternalMsg) × (it it' : ReadIter) × (append counting_malloc empty_heap
        new_message three_bytes
      ≡ ok (h', m'))
    × (get_read_iter m' ≡ ok it)
    × (read h' m' it 2 ≡ ok (take 2 ([] ++ three_bytes), it'))
    × (it'.current_offset ≡ length (take 2 ([] ++ three_bytes)))
read-append_example =
    read-append counting_malloc counting_malloc-IsMalloc (λ i. i) empty_heap new_message []
      three_bytes 2 new_message-Holds (record { counted = λ le. refl }) (omega arith) (omega arith)
      (omega arith)

-- A message of three bytes in its first page.
abbrev sample_page : ℕ → ℕ
sample_page i = 1

abbrev sample : InternalMsg
sample = record {
  first_header = record { next = 0; used_cnt = 1; pages = λ i. 1 };
  page_cnt = 1;
  lip = 0;
  current_page = 1;
  total_sz = 147;
}

abbrev sample_heap : Heap
sample_heap = record empty_heap { live = 1 ∷ []; bytes = λ p o. 7 }

sample-Holds : Holds sample_page sample_heap sample (7 ∷ 7 ∷ 7 ∷ [])
sample-Holds = record {
  paged = record {
    filling = inr (ground arith, omega arith, refl, omega arith, omega arith);
    few = λ le. (refl, refl);
    many = λ gt. absurd (omega arith);
    allocated = λ i lt. refl;
    not_null = λ i lt. ground arith;
    distinct = λ i j a b e. omega arith;
    indexed = (λ j. 0, 0, IsIndexed-none _ _ _ _ _ _ (λ j. 0) (omega arith));
    listed = λ i a b. refl;
  };
  sizes = inr refl;
  same_bytes = sevens;
}
  where
    sevens : (k : ℕ) → k < 3 → 7 ≡ at (7 ∷ 7 ∷ 7 ∷ []) k
    sevens zero lt = refl
    sevens (suc zero) lt = refl
    sevens (suc (suc zero)) lt = refl
    sevens (suc (suc (suc k))) lt = absurd (omega arith)

abbrev place : Store InternalMsg
place q = sample

sample-AreWords : AreWords sample
sample-AreWords = record {
  next = omega arith;
  used_cnt = omega arith;
  pages = λ i lt. omega arith;
  page_cnt = omega arith;
  lip = omega arith;
  current_page = omega arith;
  total_sz = omega arith;
}

restore-convert_example :
    (h' : Heap) × (convert_to_pointer sample_heap sample ≡ ok (1, h', new_message))
    × (restore_from_pointer h' new_message 1 ≡ ok (h', taken sample))
    × Holds sample_page h' (taken sample) (7 ∷ 7 ∷ 7 ∷ [])
    × ((i : ℕ)
        → i < app_reserved
        → h'.bytes 1 (total_reserved - app_reserved + i)
          ≡ sample_heap.bytes 1 (total_reserved - app_reserved + i))
restore-convert_example =
    restore-convert sample_page sample_heap sample (7 ∷ 7 ∷ 7 ∷ []) sample-Holds (ground arith)
      sample-AreWords

app_read_data-app_write_data_example :
    (h' : Heap) × (app_write_data counting_malloc sample_heap sample (1 ∷ 2 ∷ []) 62
      ≡ ok (h', sample))
    × (app_read_data h' sample 62 2 ≡ ok (1 ∷ 2 ∷ []))
    × Holds sample_page h' sample (7 ∷ 7 ∷ 7 ∷ [])
app_read_data-app_write_data_example =
    app_read_data-app_write_data counting_malloc sample_page sample_heap sample (7 ∷ 7 ∷ 7 ∷ [])
      (1 ∷ 2 ∷ []) 62 sample-Holds (ground arith) (omega arith)

impl_clear_lem_example :
    (h' : Heap) × (m' : InternalMsg) × (impl_clear sample_heap sample ≡ ok (h', m'))
    × Holds sample_page h' m' []
    × (h'.live ≡ without_pages sample_heap.live sample_page 0 1)
    × (m'.first_header.pages ≡ sample.first_header.pages)
    × (m'.first_header.used_cnt ≡ 1)
    × (convert_to_pointer h' m' ≡ throws assertion_failed)
impl_clear_lem_example =
    impl_clear_lem sample_page sample_heap sample (7 ∷ 7 ∷ 7 ∷ []) sample-Holds (omega arith)
      (omega arith)

-- The bytes of one message added to a new one are read from that.
transferred :
    (append_iter counting_malloc sample_heap sample new_message
        (new_iter of_message 1 total_reserved 3)
        2
      >>= λ s. get_read_iter (s.1) >>= λ it. read (s.0) (s.1) it 3 >>= λ r. ok (r.0))
    ≡ ok (7 ∷ 7 ∷ [])
unfolding append_iter append_iter_loop direct_read impl_skip append append_loop impl_add_page
    open_page get_read_iter read read_loop reserve_space_for_convertion_to_tag
transferred = refl
