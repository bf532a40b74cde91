-- ===== src/Message/Buffer/Index.antt =====
-- The index pages of a message as `implAddPage` makes them: the list that they form, and the pages that they list.
use nodecpp_foundation.Base.{
  ℕ, ◌+◌, ◌*◌, ◌≤◌, ◌<◌, ◌≡◌, ◌≢◌, inl, inr, refl, ap, sym, ◌∙◌, arith, List, true, false, lt_or_ge,
}
use nodecpp_foundation.Base.Lists.{elem, put}
use nodecpp_foundation.Message.Memory.{local_storage_size, max_addressed_by_page, IndexPageHeader}
use nodecpp_foundation.Message.Buffer.Contents.{IsIndexed}

module _ (page : ℕ → ℕ) (index : ℕ → IndexPageHeader) (live : List ℕ) (cnt next lip : ℕ) where
  -- A message that keeps all its pages in its header has no index page.
  pub IsIndexed-none :
      (ip : ℕ → ℕ) → cnt ≤ local_storage_size → IsIndexed page index live cnt next lip ip 0
  IsIndexed-none ip few = record {
    sized = inl (refl, few);
    first = λ lt. absurd (omega (arith, lt));
    last = λ j e. absurd (omega (arith, e));
    linked = λ j lt. absurd (omega (arith, lt));
    ended = λ j e. absurd (omega (arith, e));
    full = λ j lt. absurd (omega (arith, lt));
    lists = λ j k lt. absurd (omega (arith, lt));
    in_use = λ j lt. absurd (omega (arith, lt));
    apart = λ i j lt. absurd (omega (arith, lt));
  }

  module _ (ip : ℕ → ℕ) (n : ℕ) (w : IsIndexed page index live cnt next lip ip n) where
    -- The last index page
    pub last_index :
        local_storage_size < cnt
        → (j : ℕ) × (n ≡ j + 1)
          × (lip ≡ ip j)
          × (cnt ≡ local_storage_size + max_addressed_by_page * j + (index lip).used_cnt)
          × (1 ≤ (index lip).used_cnt)
          × ((index lip).used_cnt ≤ max_addressed_by_page)
    last_index many = elim (w.sized) [
      | inl none ↦ absurd (omega (arith, none, many))
      | inr (j, e, c, a, b) ↦
          let place : lip ≡ ip j = w.last j (sym e) in
          let same : (index (ip j)).used_cnt ≡ (index lip).used_cnt =
            ap (λ (q : ℕ). (index q).used_cnt) (sym place) in
          (j, e, place, omega (arith, c, same), omega (arith, a, same), omega (arith, b, same))
    ]

    in_place : (x : ℕ) (i j : ℕ) → i ≡ j → put page j x i ≡ x
    in_place x i j e = ground (arith, e)

    aside : (x : ℕ) (i : ℕ) → i < cnt → put page cnt x i ≡ page i
    aside x i lt = ground (arith, lt)

    pub last_in_use : local_storage_size < cnt → elem lip live ≡ true
    last_in_use many =
        let (z, size_n, place, size, some_used, bound) = last_index many in
        ap (λ (q : ℕ). elem q live) place ∙ w.in_use z (omega (arith, size_n))

    not_last : (j : ℕ) → local_storage_size < cnt → j + 1 < n → ip j ≢ lip
    not_last j many lt e =
        let (z, size_n, place, size, some_used, bound) = last_index many in
        let same : j ≡ z = w.apart j z (omega (arith, lt)) (omega (arith, size_n)) (e ∙ place) in
        omega (arith, same, size_n, lt)

    -- A page that is listed in the last index page: `index'` is what the index pages are then.
    module _ (many : local_storage_size < cnt) (live' : List ℕ) (cnt' p : ℕ) (more : cnt' ≡ cnt + 1)
        (kept : (q : ℕ) → elem q live ≡ true → elem q live' ≡ true)
        (index' : ℕ → IndexPageHeader) where
      pub IsIndexed-list :
          (index lip).used_cnt < max_addressed_by_page
          → (index' lip).next ≡ (index lip).next
          → (index' lip).used_cnt ≡ (index lip).used_cnt + 1
          → ((k : ℕ) → k < (index lip).used_cnt → (index' lip).pages k ≡ (index lip).pages k)
          → (index' lip).pages (index lip).used_cnt ≡ p
          → ((q : ℕ) → q ≢ lip → index' q ≡ index q)
          → IsIndexed (put page cnt p) index' live' cnt' next lip ip n
      IsIndexed-list room same_next counted same_pages new others =
          let (z, e, place, size, some_used, _) = last_index many in
          let used : (index' (ip z)).used_cnt ≡ (index lip).used_cnt + 1 =
            ap (λ (q : ℕ). (index' q).used_cnt) (sym place) ∙ counted in
          let other : (j : ℕ) → j + 1 < n → index' (ip j) ≡ index (ip j) =
            λ j lt. others (ip j) (not_last j many lt) in
          record {
            sized = inr (
              z,
              e,
              omega (arith, used, size, more),
              omega (arith, used),
              omega (arith, used, room),
            );
            first = w.first;
            last = w.last;
            linked = λ j lt. ap (λ (h : IndexPageHeader). h.next) (other j lt) ∙ w.linked j lt;
            ended = λ j f.
                ap (λ (q : ℕ). (index' q).next) (sym (w.last j f))
                ∙ same_next
                ∙ ap (λ (q : ℕ). (index q).next) (w.last j f)
                ∙ w.ended j f;
            full = λ j lt. ap (λ (h : IndexPageHeader). h.used_cnt) (other j lt) ∙ w.full j lt;
            lists = λ j k lt small inside. elim (lt_or_ge (j + 1) n) [
              | inl before ↦
                  let old : local_storage_size + max_addressed_by_page * j + k < cnt =
                    omega (arith, before, e, size, small) in
                  ap (λ (h : IndexPageHeader). h.pages k) (other j before)
                  ∙ w.lists j k lt small old
                  ∙ sym (aside p (local_storage_size + max_addressed_by_page * j + k) old)
              | inr end ↦
                  let here : j + 1 ≡ n = omega (arith, end, lt) in
                  let is_last : j ≡ z = omega (arith, here, e) in
                  elim (lt_or_ge k (index lip).used_cnt) [
                    | inl listed ↦
                        let old : local_storage_size + max_addressed_by_page * j + k < cnt =
                          omega (arith, is_last, size, listed) in
                        ap (λ (q : ℕ). (index' q).pages k) (sym (w.last j here))
                        ∙ same_pages k listed
                        ∙ ap (λ (q : ℕ). (index q).pages k) (w.last j here)
                        ∙ w.lists j k lt small old
                        ∙ sym (aside p (local_storage_size + max_addressed_by_page * j + k) old)
                    | inr past ↦
                        let at_end : k ≡ (index lip).used_cnt =
                          omega (arith, past, inside, more, size, is_last) in
                        let spot : local_storage_size + max_addressed_by_page * j + k ≡ cnt =
                          omega (arith, at_end, size, is_last) in
                        ap (λ (q : ℕ). (index' q).pages k) (sym (w.last j here))
                        ∙ ap (λ (i : ℕ). (index' lip).pages i) at_end
                        ∙ new
                        ∙ sym (
                            in_place p (local_storage_size + max_addressed_by_page * j + k) cnt
                              spot)
                  ]
            ];
            in_use = λ j lt. kept (ip j) (w.in_use j lt);
            apart = w.apart;
          }

      -- A new index page `new_ip` that lists a page, linked to the last one when that is full
      pub IsIndexed-link :
          (new_ip : ℕ)
          → (index lip).used_cnt ≡ max_addressed_by_page
          → elem new_ip live ≡ false
          → elem new_ip live' ≡ true
          → (index' new_ip).next ≡ 0
          → (index' new_ip).used_cnt ≡ 1
          → (index' new_ip).pages 0 ≡ p
          → (index' lip).next ≡ new_ip
          → ((q : ℕ) → q ≢ new_ip → (index' q).used_cnt ≡ (index q).used_cnt)
          → ((q k : ℕ) → q ≢ new_ip → (index' q).pages k ≡ (index q).pages k)
          → ((q : ℕ) → q ≢ new_ip → q ≢ lip → (index' q).next ≡ (index q).next)
          → IsIndexed (put page cnt p) index' live' cnt' next new_ip (put ip n new_ip) (n + 1)
      IsIndexed-link new_ip filled fresh taken no_next one lists_it linked_to used pages nexts =
          let (z, e, place, size, some_used, _) = last_index many in
          let old : (j : ℕ) → j < n → put ip n new_ip j ≡ ip j = λ j lt. ground (arith, lt) in
          let new : (j : ℕ) → j ≡ n → put ip n new_ip j ≡ new_ip = λ j at_n. ground (arith, at_n) in
          let apart_from : (j : ℕ) → j < n → ip j ≢ new_ip =
            λ j lt same. ground (arith, fresh, w.in_use j lt, same) in
          record {
            sized = inr (
              n,
              refl,
              omega (
                arith,
                size,
                filled,
                e,
                more,
                ap (λ (q : ℕ). (index' q).used_cnt) (new n refl) ∙ one,
              ),
              omega (arith, ap (λ (q : ℕ). (index' q).used_cnt) (new n refl) ∙ one),
              omega (arith, ap (λ (q : ℕ). (index' q).used_cnt) (new n refl) ∙ one),
            );
            first = λ lt. w.first (omega (arith, e)) ∙ sym (old 0 (omega (arith, e)));
            last = λ j f. sym (new j (omega (arith, f)));
            linked = λ j lt. elim (lt_or_ge (j + 1) n) [
              | inl before ↦
                  let inside : j < n = omega (arith, before) in
                  ap (λ (q : ℕ). (index' q).next) (old j inside)
                  ∙ nexts (ip j) (apart_from j inside) (not_last j many before)
                  ∙ w.linked j before
                  ∙ sym (old (j + 1) before)
              | inr end ↦
                  let here : j + 1 ≡ n = omega (arith, end, lt) in
                  ap (λ (q : ℕ). (index' q).next)
                    (old j (omega (arith, here)) ∙ sym (w.last j here))
                  ∙ linked_to
                  ∙ sym (new (j + 1) here)
            ];
            ended = λ j f. ap (λ (q : ℕ). (index' q).next) (new j (omega (arith, f))) ∙ no_next;
            full = λ j lt.
                let inside : j < n = omega (arith, lt) in
                ap (λ (q : ℕ). (index' q).used_cnt) (old j inside)
                ∙ used (ip j) (apart_from j inside)
                ∙ elim (lt_or_ge (j + 1) n) [
                  | inl before ↦ w.full j before
                  | inr end ↦
                      let here : j + 1 ≡ n = omega (arith, end, lt) in
                      ap (λ (q : ℕ). (index q).used_cnt) (sym (w.last j here)) ∙ filled
                ];
            lists = λ j k lt small inside. elim (lt_or_ge j n) [
              | inl before ↦
                  let known : local_storage_size + max_addressed_by_page * j + k < cnt =
                    omega (arith, before, e, size, filled, small) in
                  ap (λ (q : ℕ). (index' q).pages k) (old j before)
                  ∙ pages (ip j) k (apart_from j before)
                  ∙ w.lists j k before small known
                  ∙ sym (aside p (local_storage_size + max_addressed_by_page * j + k) known)
              | inr end ↦
                  let at_n : j ≡ n = omega (arith, end, lt) in
                  let at_zero : k ≡ 0 = omega (arith, inside, more, at_n, e, size, filled) in
                  let spot : local_storage_size + max_addressed_by_page * j + k ≡ cnt =
                    omega (arith, at_zero, at_n, e, size, filled) in
                  ap (λ (q : ℕ). (index' q).pages k) (new j at_n)
                  ∙ ap (λ (i : ℕ). (index' new_ip).pages i) at_zero
                  ∙ lists_it
                  ∙ sym (in_place p (local_storage_size + max_addressed_by_page * j + k) cnt spot)
            ];
            in_use = λ j lt. elim (lt_or_ge j n) [
              | inl before ↦
                  ap (λ (q : ℕ). elem q live') (old j before) ∙ kept (ip j) (w.in_use j before)
              | inr end ↦ ap (λ (q : ℕ). elem q live') (new j (omega (arith, end, lt))) ∙ taken
            ];
            apart = λ i j a b f. elim (lt_or_ge i n) [
              | inl i_old ↦ elim (lt_or_ge j n) [
                | inl j_old ↦ w.apart i j i_old j_old (sym (old i i_old) ∙ f ∙ old j j_old)
                | inr j_new ↦
                    absurd
                      (apart_from i i_old (sym (old i i_old) ∙ f ∙ new j (omega (arith, j_new, b))))
              ]
              | inr i_new ↦ elim (lt_or_ge j n) [
                | inl j_old ↦ absurd (
                    apart_from j j_old
                      (sym (old j j_old) ∙ sym f ∙ new i (omega (arith, i_new, a))))
                | inr j_new ↦ omega (arith, i_new, j_new, a, b)
              ]
            ];
          }

  -- The first index page
  pub IsIndexed-start :
      (live' : List ℕ) (cnt' p new_ip : ℕ) (index' : ℕ → IndexPageHeader)
      → cnt ≡ local_storage_size
      → cnt' ≡ cnt + 1
      → elem new_ip live' ≡ true
      → (index' new_ip).next ≡ 0
      → (index' new_ip).used_cnt ≡ 1
      → (index' new_ip).pages 0 ≡ p
      → IsIndexed (put page cnt p) index' live' cnt' new_ip new_ip (λ j. new_ip) 1
  IsIndexed-start live' cnt' p new_ip index' edge more taken no_next one lists_it = record {
    sized = inr (0, refl, omega (arith, one, edge, more), omega (arith, one), omega (arith, one));
    first = λ lt. refl;
    last = λ j f. refl;
    linked = λ j lt. absurd (omega (arith, lt));
    ended = λ j f. no_next;
    full = λ j lt. absurd (omega (arith, lt));
    lists = λ j k lt small inside.
        let at_zero : k ≡ 0 = omega (arith, inside, more, edge) in
        let spot : local_storage_size + max_addressed_by_page * j + k ≡ cnt =
          omega (arith, at_zero, lt, edge) in
        ap (λ (i : ℕ). (index' new_ip).pages i) at_zero ∙ lists_it ∙ ground (arith, spot);
    in_use = λ j lt. taken;
    apart = λ i j a b f. omega (arith, a, b);
  }
