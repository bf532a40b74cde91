-- ===== src/Message/Lifetime/AppData.antt =====
-- `appWriteData` on a message without contents.
use nodecpp_foundation.Base.{ℕ, ◌+◌, ◌-◌, ◌≤◌, ◌<◌, ◌≡◌, ◌≢◌, arith, List, [], ◌∷◌}
use nodecpp_foundation.Base.Lists.{length}
use nodecpp_foundation.Base.Outcome.{ok, throws, assertion_failed}
use nodecpp_foundation.Message.Memory.{
  app_reserved, total_reserved, InternalMsg, Heap, acquire, write_bytes,
}
use nodecpp_foundation.Base.Lists.{IsMalloc}
use nodecpp_foundation.Message.Buffer.{
  impl_add_page, open_page, append_loop, append, fill, count_page, list_locally,
}
use nodecpp_foundation.Message.Lifetime.{new_message, app_write_data, size}

-- `appWriteData` to a new message takes a page but does not reserve its first bytes: what is then
-- appended stands among them, and `size` of the message fails an assertion.
pub size-append-app_write_data :
    (malloc : List ℕ → ℕ) (h : Heap) (source buff : List ℕ) (offset : ℕ)
    → IsMalloc malloc
    → offset + length source ≤ app_reserved
    → 0 < length buff
    → length buff < total_reserved
    → (h1 : Heap) × (m1 : InternalMsg) × (h2 : Heap) × (m2 : InternalMsg) × (app_write_data malloc h
          new_message source offset
        ≡ ok (h1, m1))
      × (append malloc h1 m1 buff ≡ ok (h2, m2))
      × (size m2 ≡ throws assertion_failed)
unfolding app_write_data append append_loop open_page size impl_add_page
size-append-app_write_data malloc h source [] offset ma fits some_bytes small = absurd (omega arith)
size-append-app_write_data malloc h source (x ∷ xs) offset ma fits some_bytes small = (
  h1,
  m1,
  (fill h1 m1 (x ∷ xs)).0,
  (fill h1 m1 (x ∷ xs)).1,
  ground (arith, taken_page),
  ground (arith, taken_page),
  ground arith,
)
  where
    p : ℕ
    p = malloc h.live

    taken_page : p ≢ 0
    taken_page = ma.not_null h.live

    m1 : InternalMsg
    m1 = count_page (list_locally new_message p)

    h1 : Heap
    h1 = record (acquire h p) {
      bytes = write_bytes h.bytes p (total_reserved - app_reserved + offset) source;
    }
