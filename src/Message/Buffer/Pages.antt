-- ===== src/Message/Buffer/Pages.antt =====
-- `implAddPage` on a message whose pages are full: it passes every assertion and adds one page.
use nodecpp_foundation.Base.{ℕ, ◌+◌, ◌≤◌, ◌<◌, ◌≡◌, ◌≢◌, inl, inr, refl, arith}
use nodecpp_foundation.Base.{List, ◌∷◌, true, false, lt_or_ge}
use nodecpp_foundation.Base.Lists.{elem}
use nodecpp_foundation.Base.Outcome.{Outcome, ok}
use nodecpp_foundation.Message.Memory.{
  local_storage_size, max_addressed_by_page, InternalMsg, Heap, acquire,
}
use nodecpp_foundation.Base.Lists.{put, IsMalloc}
use nodecpp_foundation.Message.Buffer.{
  impl_add_page, second, count_page, list_locally, new_index_page, start_index, link_index,
  list_in_index,
}
use nodecpp_foundation.Message.Buffer.Contents.{IsClosed, IsPaged, IsIndexed}
use nodecpp_foundation.Message.Buffer.Index.{
  IsIndexed-none, IsIndexed-list, IsIndexed-link, IsIndexed-start, last_in_use,
}

-- What adding page `p` to `m` changes.
abbrev pub AddsPage : ℕ → Heap → InternalMsg → Heap → InternalMsg → Type 0
AddsPage p h m h' m' =
    (m'.current_page ≡ p)
    × (p ≢ 0)
    × (elem p h.live ≡ false)
    × (m'.page_cnt ≡ m.page_cnt + 1)
    × (m'.total_sz ≡ m.total_sz)
    × (h'.bytes ≡ h.bytes)

IsPaged-add :
    (page : ℕ → ℕ) (p : ℕ) (h : Heap) (m : InternalMsg) (h' : Heap) (m' : InternalMsg)
    → IsPaged page h m
    → IsClosed m
    → AddsPage p h m h' m'
    → (elem p h'.live ≡ true)
    → ((q : ℕ) → elem q h.live ≡ true → elem q h'.live ≡ true)
    → (m'.page_cnt ≤ local_storage_size → (m'.first_header.next ≡ 0) × (m'.lip ≡ 0))
    → (local_storage_size < m'.page_cnt
        → (m'.first_header.next ≢ 0)
          × (m'.lip ≢ 0)
          × ((h'.index m'.lip).used_cnt ≤ max_addressed_by_page))
    → ((i : ℕ)
        → i < local_storage_size
        → i < m'.page_cnt
        → m'.first_header.pages i ≡ put m.first_header.pages m.page_cnt p i)
    → ((ip : ℕ → ℕ) × (n : ℕ) × IsIndexed
          (put page m.page_cnt p)
          h'.index
          h'.live
          m'.page_cnt
          m'.first_header.next
          m'.lip
          ip
          n)
    → IsPaged (put page m.page_cnt p) h' m'
IsPaged-add page p h m h' m' w c a new kept few many listed indexed = record {
  filling = inr (ground arith, ground arith, ground arith, ground arith, ground arith);
  few = few;
  many = many;
  allocated = λ i lt. ground (arith, w.allocated i, kept (page i), new);
  not_null = λ i lt. ground (arith, w.not_null i);
  distinct = λ i j p q e. ground (arith, w.distinct i j, w.allocated i, w.allocated j);
  listed = λ i p q. ground (arith, w.listed i, listed i);
  indexed = indexed;
}

-- A call on `m` succeeds and adds a page.
abbrev pub AddsOne : (ℕ → ℕ) → Heap → InternalMsg → Outcome (Heap × InternalMsg) → Type 0
AddsOne page h m result =
    (p : ℕ) × (h' : Heap) × (m' : InternalMsg) × (result ≡ ok (h', m'))
    × AddsPage p h m h' m'
    × IsPaged (put page m.page_cnt p) h' m'

module _ (malloc : List ℕ → ℕ) (ma : IsMalloc malloc) where
  module _ (page : ℕ → ℕ) (h : Heap) (m : InternalMsg) (w : IsPaged page h m) (c : IsClosed m)
      (lt : m.page_cnt + 1 < 0x10000000000000000) where
    first : ℕ
    first = malloc h.live

    next_one : ℕ
    next_one = second malloc h

    next_one-new : (next_one ≢ 0) × (elem next_one h.live ≡ false) × (next_one ≢ first)
    unfolding next_one first
    next_one-new = (
      ma.not_null (first ∷ h.live),
      ground (arith, ma.fresh (first ∷ h.live)),
      ground (arith, ma.fresh (first ∷ h.live)),
    )

    locally : m.page_cnt < local_storage_size → AddsOne page h m (impl_add_page malloc h m)
    unfolding impl_add_page first
    locally small = (
      first,
      h',
      m',
      ground (arith, w.few),
      added,
      IsPaged-add page first h m h' m' w c added (ground arith) (λ q l. ground arith)
          (λ le. w.few (ground arith)) (λ gt. absurd (ground arith)) (λ i a b. refl) chain,
    )
      where
        h' : Heap
        h' = acquire h first

        m' : InternalMsg
        m' = count_page (list_locally m first)

        added : AddsPage first h m h' m'
        added = (refl, ma.not_null h.live, ma.fresh h.live, ground arith, refl, refl)

        chain :
            (ip : ℕ → ℕ) × (n : ℕ) × IsIndexed
              (put page m.page_cnt first)
              h'.index
              h'.live
              m'.page_cnt
              m'.first_header.next
              m'.lip
              ip
              n
        chain = (λ j. 0, 0, IsIndexed-none _ _ _ _ _ _ (λ j. 0) (ground arith))

    indexed :
        local_storage_size < m.page_cnt
        → (h.index m.lip).used_cnt < max_addressed_by_page
        → AddsOne page h m (impl_add_page malloc h m)
    unfolding impl_add_page first
    indexed large room = (
      first,
      h',
      m',
      ground (arith, w.many),
      added,
      IsPaged-add page first h m h' m' w c added (ground arith) (λ q l. ground arith)
          (λ le. absurd (ground arith)) (λ gt. ground (arith, w.many)) (λ i a b. ground arith)
          chain,
    )
      where
        h' : Heap
        h' = list_in_index (acquire h first) m.lip first

        m' : InternalMsg
        m' = count_page (record m { current_page = first })

        added : AddsPage first h m h' m'
        added = (refl, ma.not_null h.live, ma.fresh h.live, ground arith, refl, refl)

        chain :
            (ip : ℕ → ℕ) × (n : ℕ) × IsIndexed
              (put page m.page_cnt first)
              h'.index
              h'.live
              m'.page_cnt
              m'.first_header.next
              m'.lip
              ip
              n
        chain =
            let (ip, n, x) = w.indexed in
            (
              ip,
              n,
              IsIndexed-list page h.index h.live m.page_cnt m.first_header.next m.lip ip n x large
                  h'.live m'.page_cnt first (ground arith) (λ q l. ground arith) h'.index room
                  (ground arith) (ground (arith, room)) (λ k lt. ground (arith, lt)) (ground arith)
                  (λ q ne. ground (arith, ne)),
            )

    started : m.page_cnt ≡ local_storage_size → AddsOne page h m (impl_add_page malloc h m)
    unfolding impl_add_page first next_one
    started edge = (
      next_one,
      h',
      m',
      ground (arith, w.few),
      added,
      IsPaged-add page next_one h m h' m' w c added (ground arith) (λ q l. ground arith)
          (λ le. absurd (ground arith)) (λ gt. ground (arith, ma.not_null h.live))
          (λ i a b. ground arith) chain,
    )
      where
        h' : Heap
        h' = new_index_page h first next_one

        m' : InternalMsg
        m' = count_page (start_index m first next_one)

        added : AddsPage next_one h m h' m'
        added = (refl, next_one-new.0, next_one-new.1, ground arith, refl, refl)

        chain :
            (ip : ℕ → ℕ) × (n : ℕ) × IsIndexed
              (put page m.page_cnt next_one)
              h'.index
              h'.live
              m'.page_cnt
              m'.first_header.next
              m'.lip
              ip
              n
        chain = (
          λ j. first,
          1,
          IsIndexed-start page h.index h.live m.page_cnt m.first_header.next m.lip h'.live
              m'.page_cnt next_one first h'.index edge (ground arith) (ground arith) (ground arith)
              (ground arith) (ground arith),
        )

    linked :
        local_storage_size < m.page_cnt
        → (h.index m.lip).used_cnt ≡ max_addressed_by_page
        → AddsOne page h m (impl_add_page malloc h m)
    unfolding impl_add_page first next_one
    linked large full = (
      next_one,
      h',
      m',
      ground (arith, w.many),
      added,
      IsPaged-add page next_one h m h' m' w c added (ground arith) (λ q l. ground arith)
          (λ le. absurd (ground arith)) (λ gt. ground (arith, w.many, ma.not_null h.live))
          (λ i a b. ground arith) chain,
    )
      where
        h' : Heap
        h' = link_index (new_index_page h first next_one) m.lip first

        m' : InternalMsg
        m' = count_page (record m { lip = first; current_page = next_one })

        added : AddsPage next_one h m h' m'
        added = (refl, next_one-new.0, next_one-new.1, ground arith, refl, refl)

        other_page : first ≢ m.lip
        other_page =
            let (ip, n, x) = w.indexed in
            ground (
              arith,
              ma.fresh h.live,
              last_in_use page h.index h.live m.page_cnt m.first_header.next m.lip ip n x large,
            )

        chain :
            (ip : ℕ → ℕ) × (n : ℕ) × IsIndexed
              (put page m.page_cnt next_one)
              h'.index
              h'.live
              m'.page_cnt
              m'.first_header.next
              m'.lip
              ip
              n
        chain =
            let (ip, n, x) = w.indexed in
            (
              put ip n first,
              n + 1,
              IsIndexed-link page h.index h.live m.page_cnt m.first_header.next m.lip ip n x large
                  h'.live m'.page_cnt next_one (ground arith) (λ q l. ground arith) h'.index first
                  full (ma.fresh h.live) (ground arith) (ground (arith, other_page))
                  (ground (arith, other_page)) (ground (arith, other_page)) (ground arith)
                  (λ q ne. ground (arith, ne)) (λ q k ne. ground (arith, ne))
                  (λ q ne nl. ground (arith, ne, nl)),
            )

    pub impl_add_page_lem : AddsOne page h m (impl_add_page malloc h m)
    impl_add_page_lem = elim (lt_or_ge m.page_cnt local_storage_size) [
      | inl small ↦ locally small
      | inr ge ↦ elim (lt_or_ge local_storage_size m.page_cnt) [
        | inl large ↦ elim (lt_or_ge (h.index m.lip).used_cnt max_addressed_by_page) [
          | inl room ↦ indexed large room
          | inr full ↦ linked large (ground (arith, w.many large))
        ]
        | inr edge ↦ started (omega arith)
      ]
    ]
