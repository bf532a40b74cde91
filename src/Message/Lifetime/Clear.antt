-- ===== src/Message/Lifetime/Clear.antt =====
-- `clear` of a message of at most four pages, and what it forgets to reset.
use nodecpp_foundation.Base.{ℕ, zero, suc, ◌+◌, ◌≤◌, ◌<◌, ◌≡◌, ◌≢◌, refl, ap, ◌∙◌, arith}
use nodecpp_foundation.Base.{List, [], true}
use nodecpp_foundation.Base.Lists.{elem, erase, elem-erase}
use nodecpp_foundation.Base.Outcome.{ok, throws, assertion_failed}
use nodecpp_foundation.Message.Memory.{local_storage_size, InternalMsg, Heap, release}
use nodecpp_foundation.Message.Buffer.Contents.{Holds}
use nodecpp_foundation.Message.Lifetime.{
  release_pages, impl_release_all_pages, impl_clear, convert_to_pointer,
}
use nodecpp_foundation.Message.Lifetime.Laws.{Holds-none}

-- The blocks in use without the `count` pages from index `i`
abbrev pub without_pages : List ℕ → (ℕ → ℕ) → ℕ → ℕ → List ℕ
without_pages live pages i zero = live
without_pages live pages i (suc count) = without_pages (erase (pages i) live) pages (suc i) count

-- Different allocated pages are released one after the other.
release_pages-ok :
    (h : Heap) (pages : ℕ → ℕ) (i count : ℕ)
    → ((j : ℕ) → i ≤ j → j < i + count → (pages j ≢ 0) × (elem (pages j) h.live ≡ true))
    → ((j k : ℕ) → i ≤ j → j < k → k < i + count → pages k ≢ pages j)
    → (h' : Heap) × (release_pages h pages i count ≡ ok h')
      × (h'.live ≡ without_pages h.live pages i count)
unfolding release_pages release
release_pages-ok h pages i zero live different = (h, refl, refl)
release_pages-ok h pages i (suc count) live different =
    let (h', e, gone) =
      release_pages-ok h1 pages (suc i) count later
        (λ j k a b c. different j k (omega arith) b (omega arith)) in
    (h', ground (arith, live i, e), gone)
  where
    h1 : Heap
    h1 = record h { live = erase (pages i) h.live }

    later :
        (j : ℕ) → suc i ≤ j → j < suc i + count → (pages j ≢ 0) × (elem (pages j) h1.live ≡ true)
    later j a b =
        let (nz, e) = live j (omega arith) (omega arith) in
        (nz, elem-erase (pages i) (pages j) h.live (different i j (omega arith) a (omega arith)) e)

without_pages-same :
    (live : List ℕ) (pages page : ℕ → ℕ) (i count : ℕ)
    → ((j : ℕ) → i ≤ j → j < i + count → pages j ≡ page j)
    → without_pages live pages i count ≡ without_pages live page i count
without_pages-same live pages page i zero same = refl
without_pages-same live pages page i (suc count) same =
    without_pages-same (erase (pages i) live) pages page (suc i) count
      (λ j a b. same j (omega arith) (omega arith))
    ∙ ap (λ (p : ℕ). without_pages (erase p live) page (suc i) count)
        (same i (omega arith) (omega arith))

-- A message of one to four pages is cleared without an error: each of its pages is given back, and nothing else, and
-- it holds nothing then. But the count and the list of pages in its header stay, so that `convertToPointer` of the
-- cleared message fails an assertion.
pub impl_clear_lem :
    (page : ℕ → ℕ) (h : Heap) (m : InternalMsg) (contents : List ℕ)
    → Holds page h m contents
    → 0 < m.page_cnt
    → m.page_cnt ≤ local_storage_size
    → (h' : Heap) × (m' : InternalMsg) × (impl_clear h m ≡ ok (h', m'))
      × Holds page h' m' []
      × (h'.live ≡ without_pages h.live page 0 m.page_cnt)
      × (m'.first_header.pages ≡ m.first_header.pages)
      × (m'.first_header.used_cnt ≡ m.first_header.used_cnt)
      × (convert_to_pointer h' m' ≡ throws assertion_failed)
unfolding impl_clear impl_release_all_pages convert_to_pointer
impl_clear_lem page h m contents w some_page few =
    let (h', e, gone) =
      release_pages-ok h m.first_header.pages 0 m.page_cnt
        (λ j a b. ground (arith, w.paged.listed j, w.paged.not_null j, w.paged.allocated j))
        (λ j k a b c. ground (arith, w.paged.listed j, w.paged.listed k, w.paged.distinct k j)) in
    (
      h',
      cleared,
      ground (arith, e, w.paged.few few),
      Holds-none page h' cleared refl refl refl refl refl,
      gone
          ∙ without_pages-same h.live m.first_header.pages page 0 m.page_cnt
              (λ j a b. w.paged.listed j (omega (arith, b)) (omega (arith, b, few))),
      refl,
      refl,
      ground (arith, w.paged.listed 0, w.paged.not_null 0),
    )
  where
    cleared : InternalMsg
    cleared = record {
      first_header = record m.first_header { next = 0 };
      page_cnt = 0;
      lip = 0;
      current_page = 0;
      total_sz = 0;
    }
