-- ===== src/Message/Buffer/Fill.antt =====
-- Bytes copied to the open page of a message.
use nodecpp_foundation.Base.{ℕ, ◌+◌, ◌-◌, ◌/◌, ◌%◌, ◌≤◌, ◌<◌, ◌≡◌, ◌≢◌, ◌⊎◌, inl, inr, refl}
use nodecpp_foundation.Base.{List, ◌++◌, lt_or_ge, ap, sym, ◌∙◌, arith}
use nodecpp_foundation.Base.Lists.{length, at, length-append, at-append_left, at-append_right}
use nodecpp_foundation.Base.Outcome.{Outcome, ok}
use nodecpp_foundation.Message.Memory.{page_size, total_reserved, InternalMsg, Heap, write_bytes}
use nodecpp_foundation.Message.Memory.Writes.{write_bytes-elsewhere, write_bytes-at}
use nodecpp_foundation.Message.Buffer.{
  fill, close_page, offset_in_current_page, remaining_size_in_current_page,
}
use nodecpp_foundation.Message.Buffer.Contents.{IsClosed, IsOpen, IsPaged, Holds, byte_at}

pub IsPaged-refill :
    (page : ℕ → ℕ) (h : Heap) (m : InternalMsg) (f : ℕ → ℕ → ℕ) (current total : ℕ)
    → IsPaged page h m
    → IsClosed (record m { current_page = current; total_sz = total })
      ⊎ IsOpen page (record m { current_page = current; total_sz = total })
    → IsPaged page (record h { bytes = f }) (record m { current_page = current; total_sz = total })
IsPaged-refill page h m f current total w s = record {
  filling = s;
  few = w.few;
  many = w.many;
  allocated = w.allocated;
  not_null = w.not_null;
  distinct = w.distinct;
  indexed = w.indexed;
  listed = w.listed;
}

abbrev pub SameBytes : (ℕ → ℕ) → Heap → List ℕ → Type 0
SameBytes page h contents = (k : ℕ) → k < length contents → byte_at page h k ≡ at contents k

-- Bytes copied to the open page follow those of before.
pub SameBytes-fill :
    (page : ℕ → ℕ) (h : Heap) (m : InternalMsg) (contents part : List ℕ)
    → IsPaged page h m
    → IsOpen page m
    → m.total_sz ≡ total_reserved + length contents
    → length part ≤ remaining_size_in_current_page m
    → SameBytes page h contents
    → SameBytes page ((fill h m part).0) (contents ++ part)
SameBytes-fill page h m contents part w op t le s k lt = elim (lt_or_ge k (length contents)) [
  | inl below ↦
      write_bytes-elsewhere h.bytes m.current_page (offset_in_current_page m) part
        (page ((total_reserved + k) / page_size)) ((total_reserved + k) % page_size)
        (elsewhere below)
      ∙ s k below
      ∙ sym (at-append_left contents part k below)
  | inr above ↦
      written (k - length contents) (omega arith) (omega (arith, length-append contents part))
]
  where
    last : ℕ
    last = m.page_cnt - 1

    elsewhere :
        k < length contents
        → (page ((total_reserved + k) / page_size) ≢ m.current_page)
          ⊎ ((total_reserved + k) % page_size < offset_in_current_page m)
    elsewhere below = elim (lt_or_ge ((total_reserved + k) / page_size) last) [
      | inl earlier ↦ inl (ground (arith, w.distinct ((total_reserved + k) / page_size) last))
      | inr same ↦ inr (omega arith)
    ]

    written :
        (j : ℕ)
        → k ≡ length contents + j
        → j < length part
        → byte_at page ((fill h m part).0) k ≡ at (contents ++ part) k
    written j e j_lt =
        ap
          (λ q.
            write_bytes h.bytes m.current_page (offset_in_current_page m) part q
              ((total_reserved + k) % page_size))
          (ap page (omega arith) ∙ sym (op.2))
        ∙ ap
            (λ (o : ℕ).
              write_bytes h.bytes m.current_page (offset_in_current_page m) part m.current_page o)
            (omega arith)
        ∙ write_bytes-at h.bytes m.current_page (offset_in_current_page m) part j j_lt
        ∙ sym (at-append_right contents part j)
        ∙ ap (at (contents ++ part)) (omega arith)

-- Room for `n` more bytes among the numbers of a word, with a page to spare.
abbrev pub Fits : List ℕ → ℕ → Type 0
Fits contents n = total_reserved + length contents + n + page_size < 0x10000000000000000

-- A page is open to write to, and the reserved bytes and `contents` are in place.
pub record IsReady (page : ℕ → ℕ) (h : Heap) (m : InternalMsg) (contents : List ℕ) : Type 0 where
  pub paged : IsPaged page h m
  pub opened : IsOpen page m
  pub sized : m.total_sz ≡ total_reserved + length contents
  pub same : SameBytes page h contents

-- A call succeeds and leaves a message with these contents.
abbrev pub Leaves : List ℕ → Outcome (Heap × InternalMsg) → Type 0
Leaves contents result =
    (page : ℕ → ℕ) × (h : Heap) × (m : InternalMsg) × (result ≡ ok (h, m)) × Holds page h m contents

module _ (page : ℕ → ℕ) (h : Heap) (m : InternalMsg) (contents part : List ℕ)
    (r : IsReady page h m contents) (fits : Fits contents (length part)) where
  pub Holds-fill :
      length part < remaining_size_in_current_page m
      → Holds page ((fill h m part).0) ((fill h m part).1) (contents ++ part)
  Holds-fill lt = record {
    paged =
        IsPaged-refill page h m ((fill h m part).0).bytes m.current_page
          ((fill h m part).1).total_sz r.paged
          (inr (
            r.opened.0,
            r.opened.1,
            r.opened.2,
            ground (arith, r.opened, r.sized),
            ground (arith, r.opened, r.sized),
          ));
    sizes = inr (omega (arith, r.sized, length-append contents part));
    same_bytes =
        SameBytes-fill page h m contents part r.paged r.opened r.sized (omega arith) r.same;
  }

  -- A page that gets full is closed.
  pub close_page-fill :
      length part ≡ remaining_size_in_current_page m
      → Leaves (contents ++ part) (close_page ((fill h m part).0) ((fill h m part).1))
  close_page-fill full = (
    page,
    (fill h m part).0,
    record ((fill h m part).1) { current_page = 0 },
    ground (arith, r.sized, r.opened),
    record {
      paged =
          IsPaged-refill page h m ((fill h m part).0).bytes 0 ((fill h m part).1).total_sz r.paged
            (inl (refl, ground (arith, r.sized, r.opened)));
      sizes = inr (omega (arith, r.sized, length-append contents part));
      same_bytes =
          SameBytes-fill page h m contents part r.paged r.opened r.sized (omega arith) r.same;
    },
  )
