-- ===== src/Message/Buffer/Open.antt =====
-- Opening a page: the first one, the next one, or the one that is open.
use nodecpp_foundation.Base.{ℕ, ◌+◌, ◌/◌, ◌%◌, ◌≡◌, inl, inr}
use nodecpp_foundation.Base.{List, [], ap, ◌∙◌, arith}
use nodecpp_foundation.Base.Lists.{length}
use nodecpp_foundation.Base.Outcome.{Outcome, ok}
use nodecpp_foundation.Message.Memory.{page_size, total_reserved, InternalMsg, Heap, word_add}
use nodecpp_foundation.Base.Lists.{put, IsMalloc}
use nodecpp_foundation.Message.Buffer.{
  impl_add_page, reserve_space_for_convertion_to_tag, open_page,
}
use nodecpp_foundation.Message.Buffer.Contents.{IsClosed, IsOpen, Holds}
use nodecpp_foundation.Message.Buffer.Pages.{impl_add_page_lem, AddsOne}
use nodecpp_foundation.Message.Buffer.Fill.{Fits, IsReady, IsPaged-refill, SameBytes}

-- What opening a page comes to.
abbrev pub Readies : List ℕ → Outcome (Heap × InternalMsg) → Type 0
Readies contents result =
    (page : ℕ → ℕ) × (h : Heap) × (m : InternalMsg) × (result ≡ ok (h, m))
    × IsReady page h m contents

module _ (malloc : List ℕ → ℕ) (ma : IsMalloc malloc) where
  -- The first page also takes the reserved bytes.
  reserve_lem :
      (page : ℕ → ℕ) (h : Heap) (m : InternalMsg)
      → IsClosed m
      → m.page_cnt ≡ 0
      → AddsOne page h m (impl_add_page malloc h m)
      → Readies [] (open_page malloc h m)
  unfolding open_page reserve_space_for_convertion_to_tag
  reserve_lem page h m c z (p, h', m', e, adds, w) = (
    put page m.page_cnt p,
    h',
    record m' { total_sz = word_add m'.total_sz total_reserved },
    ground (arith, ap (λ r. r) e),
    record {
      paged =
          IsPaged-refill (put page m.page_cnt p) h' m' h'.bytes m'.current_page
            (word_add m'.total_sz total_reserved) w (inr opened);
      opened = opened;
      sized = ground arith;
      same = λ k lt. absurd (omega arith);
    },
  )
    where
      opened :
          IsOpen
            (put page m.page_cnt p)
            (record m' { total_sz = word_add m'.total_sz total_reserved })
      opened = (ground arith, ground arith, ground arith, ground arith, ground arith)

  next_lem :
      (page : ℕ → ℕ) (h : Heap) (m : InternalMsg) (contents : List ℕ)
      → IsClosed m
      → m.total_sz ≡ total_reserved + length contents
      → SameBytes page h contents
      → AddsOne page h m (impl_add_page malloc h m)
      → Readies contents (open_page malloc h m)
  unfolding open_page
  next_lem page h m contents c t s (p, h', m', e, adds, w) = (
    put page m.page_cnt p,
    h',
    m',
    ground arith,
    record {
      paged = w;
      opened = (ground arith, ground arith, ground arith, ground arith, ground arith);
      sized = ground arith;
      same = same;
    },
  )
    where
      same : SameBytes (put page m.page_cnt p) h' contents
      same k lt =
          ap
            (λ f.
              f (put page m.page_cnt p ((total_reserved + k) / page_size))
                ((total_reserved + k) % page_size))
            (adds.5)
          ∙ ap (λ q. h.bytes q ((total_reserved + k) % page_size)) (ground arith)
          ∙ s k lt

  pub open_page_lem :
      (page : ℕ → ℕ) (h : Heap) (m : InternalMsg) (contents : List ℕ)
      → Holds page h m contents
      → Fits contents 0
      → Readies contents (open_page malloc h m)
  unfolding open_page reserve_space_for_convertion_to_tag
  open_page_lem page h m contents w fits = elim (w.paged.filling) [
    | inr op ↦ (
      page,
      h,
      m,
      ground arith,
      record { paged = w.paged; opened = op; sized = ground (arith, w.sizes); same = w.same_bytes },
    )
    | inl closed ↦ elim (w.sizes) [
      | inl empty ↦ rw (empty.1) (reserve_lem page h m closed (empty.0) (added closed))
      | inr grown ↦ next_lem page h m contents closed grown (w.same_bytes) (added closed)
    ]
  ]
    where
      added : IsClosed m → AddsOne page h m (impl_add_page malloc h m)
      added closed = impl_add_page_lem malloc ma page h m (w.paged) closed (ground (arith, w.sizes))
