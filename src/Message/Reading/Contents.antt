-- ===== src/Message/Reading/Contents.antt =====
-- What a `ReadIter` reads of a message of at most four pages.
use nodecpp_foundation.Base.{
  ℕ, ◌+◌, ◌-◌, ◌*◌, ◌/◌, ◌%◌, ◌≤◌, ◌<◌, ◌≡◌, ◌⊎◌, inl, inr, refl, ap, sym, ◌∙◌, arith,
}
use nodecpp_foundation.Base.{List, lt_or_ge}
use nodecpp_foundation.Base.Lists.{length, take, drop, length-take, length-drop, at-take, at-drop}
use nodecpp_foundation.Base.Bytes.{read_from, read_from-at}
use nodecpp_foundation.Base.Outcome.{ok}
use nodecpp_foundation.Message.Memory.{
  page_size, local_storage_size, total_reserved, InternalMsg, Heap, word_add,
}
use nodecpp_foundation.Message.Buffer.Contents.{Holds, byte_at}
use nodecpp_foundation.Message.Reading.{
  ReadIter, of_message, next_block, advance, impl_skip, direct_read, get_read_iter, new_iter,
}

-- The iterator stands in a block that has bytes, at byte `k` of the contents.
pub record Inside (page : ℕ → ℕ) (k : ℕ) (it : ReadIter) : Type 0 where
  pub in_message : it.ip ≡ of_message
  pub on_page : it.page ≡ page ((total_reserved + k) / page_size)
  pub at_offset : it.offset ≡ (total_reserved + k) % page_size
  pub index : it.idx_in_index_page ≡ (total_reserved + k) / page_size
  pub some_bytes : 0 < it.size_remaining_in_block
  pub of_total : it.size_remaining_in_block ≤ it.total_sz
  pub of_page_size : it.offset + it.size_remaining_in_block ≤ page_size
  pub whole :
      (it.size_remaining_in_block ≡ it.total_sz)
      ⊎ (it.offset + it.size_remaining_in_block ≡ page_size)

-- The iterator stands at byte `k` of the contents, or behind the last one.
pub record StandsAt (page : ℕ → ℕ) (contents : List ℕ) (k : ℕ) (it : ReadIter) : Type 0 where
  pub left : k + it.total_sz ≡ length contents
  pub counted : it.current_offset ≡ k
  pub block : ((it.total_sz ≡ 0) × (it.size_remaining_in_block ≡ 0)) ⊎ Inside page k it

-- A message of at most four pages, all listed by its header, that holds `contents`
pub record IsLocal (page : ℕ → ℕ) (h : Heap) (m : InternalMsg) (contents : List ℕ) : Type 0 where
  pub holds : Holds page h m contents
  pub local : m.page_cnt ≤ local_storage_size
  pub used : m.first_header.used_cnt ≡ m.page_cnt
  pub started : m.total_sz ≡ total_reserved + length contents
  pub bounded : m.total_sz ≤ page_size * m.page_cnt

some_page :
    (page : ℕ → ℕ) (h : Heap) (m : InternalMsg) (contents : List ℕ)
    → IsLocal page h m contents
    → 1 ≤ m.page_cnt
some_page page h m contents w = omega (arith, w.bounded, w.started)

-- A new iterator stands at the first byte.
pub get_read_iter-StandsAt :
    (page : ℕ → ℕ) (h : Heap) (m : InternalMsg) (contents : List ℕ)
    → IsLocal page h m contents
    → (it : ReadIter) × (get_read_iter m ≡ ok it) × StandsAt page contents 0 it
unfolding get_read_iter
get_read_iter-StandsAt page h m contents w = (
  it,
  ground (arith, w.started),
  record {
    left = omega (arith, w.started);
    counted = refl;
    block = elim (lt_or_ge 0 (length contents)) [
      | inr none_left ↦
          inl (omega (arith, w.started, none_left), ground (arith, w.started, none_left))
      | inl some_left ↦ inr (record {
        in_message = refl;
        on_page =
            w.holds.paged.listed 0 (omega (arith, some_page page h m contents w)) (omega arith);
        at_offset = refl;
        index = refl;
        some_bytes = ground (arith, w.started, some_left);
        of_total = ground (arith, w.started, some_left);
        of_page_size = ground (arith, w.started, some_left);
        whole = ground (arith, w.started, some_left);
      })
    ];
  },
)
  where
    it : ReadIter
    it = new_iter of_message (m.first_header.pages 0) total_reserved (m.total_sz - total_reserved)

-- The bytes of a part of a block are those of the contents.
block_bytes :
    (page : ℕ → ℕ) (h : Heap) (m : InternalMsg) (contents : List ℕ) (k : ℕ) (it : ReadIter) (sz : ℕ)
    → Holds page h m contents
    → k + it.total_sz ≡ length contents
    → Inside page k it
    → sz ≤ it.size_remaining_in_block
    → read_from (h.bytes it.page) it.offset sz ≡ take sz (drop k contents)
block_bytes page h m contents k it sz w left b le =
    ap (read_from (h.bytes it.page) it.offset) (sym size)
    ∙ read_from-at (h.bytes it.page) it.offset (take sz (drop k contents)) (λ i lt.
      let inside : it.offset + i < page_size = omega (arith, lt, size, le, b.of_page_size) in
      at_byte i inside
      ∙ w.same_bytes (k + i) (omega (arith, left, lt, size, le, b.of_total))
      ∙ sym (at-drop k contents i)
      ∙ sym (at-take sz (drop k contents) i (omega (arith, lt, size))))
  where
    size : length (take sz (drop k contents)) ≡ sz
    size =
        length-take sz (drop k contents)
          (omega (arith, length-drop k contents, left, le, b.of_total))

    at_byte :
        (i : ℕ)
        → it.offset + i < page_size
        → h.bytes it.page (it.offset + i) ≡ byte_at page h (k + i)
    at_byte i inside =
        let same_page : (total_reserved + (k + i)) / page_size ≡ (total_reserved + k) / page_size =
          omega (arith, inside, b.at_offset) in
        let same_offset : (total_reserved + (k + i)) % page_size ≡ it.offset + i =
          omega (arith, inside, b.at_offset) in
        ap (λ (q : ℕ). h.bytes q (it.offset + i)) (b.on_page ∙ ap page (sym same_page))
        ∙ ap (h.bytes (page ((total_reserved + (k + i)) / page_size))) (sym same_offset)

-- To skip a part of a block leads that far on.
impl_skip_lem :
    (page : ℕ → ℕ) (h : Heap) (m : InternalMsg) (contents : List ℕ) (k : ℕ) (it : ReadIter) (sz : ℕ)
    → IsLocal page h m contents
    → k + it.total_sz ≡ length contents
    → Inside page k it
    → sz ≤ it.size_remaining_in_block
    → (it1 : ReadIter) × (impl_skip h m it sz ≡ ok it1)
      × (it1.current_offset ≡ it.current_offset)
      × ((k + sz) + it1.total_sz ≡ length contents)
      × (((it1.total_sz ≡ 0) × (it1.size_remaining_in_block ≡ 0)) ⊎ Inside page (k + sz) it1)
unfolding impl_skip advance
impl_skip_lem page h m contents k it sz w left b le =
    elim (lt_or_ge sz it.size_remaining_in_block) [
      | inl within ↦ (
        record it {
          size_remaining_in_block = it.size_remaining_in_block - sz;
          total_sz = it.total_sz - sz;
          offset = it.offset + sz;
        },
        ground (arith, b.in_message, within),
        refl,
        omega (arith, left, le, b.of_total),
        inr (record {
          in_message = b.in_message;
          on_page =
              b.on_page
              ∙ ap page {x = (total_reserved + k) / page_size}
                  {y = (total_reserved + (k + sz)) / page_size}
                  (omega (arith, within, b.at_offset, b.of_page_size));
          at_offset = omega (arith, within, b.at_offset, b.of_page_size);
          index = omega (arith, within, b.at_offset, b.of_page_size, b.index);
          some_bytes = omega (arith, within);
          of_total = omega (arith, within, b.of_total);
          of_page_size = omega (arith, within, b.of_page_size);
          whole = ground (arith, b.whole, within);
        }),
      )
      | inr all ↦ elim (lt_or_ge sz it.total_sz) [
        | inr over ↦ (
          record it {
            size_remaining_in_block = it.size_remaining_in_block - sz;
            total_sz = it.total_sz - sz;
            offset = it.offset + sz;
          },
          ground (arith, b.in_message, over, le),
          refl,
          omega (arith, left, le, b.of_total),
          inl (omega (arith, over), omega (arith, all)),
        )
        | inl more ↦
            let last : it.offset + it.size_remaining_in_block ≡ page_size =
              ground (arith, b.whole, more, all, le) in
            let next_index : (total_reserved + (k + sz)) / page_size ≡ it.idx_in_index_page + 1 =
              omega (arith, last, all, le, b.at_offset, b.index) in
            let next_offset : (total_reserved + (k + sz)) % page_size ≡ 0 =
              omega (arith, last, all, le, b.at_offset, b.index) in
            let listed : it.idx_in_index_page + 1 < m.page_cnt =
              omega (arith, next_index, w.bounded, w.started, left, more) in
            (
              record it {
                idx_in_index_page = word_add it.idx_in_index_page 1;
                page = m.first_header.pages (word_add it.idx_in_index_page 1);
                offset = 0;
                total_sz = it.total_sz - sz;
                size_remaining_in_block = next_block (it.total_sz - sz);
              },
              ground (arith, b.in_message, more, all, le, listed, w.used, w.local),
              refl,
              omega (arith, left, le, b.of_total),
              inr (record {
                in_message = b.in_message;
                on_page =
                    ap m.first_header.pages {x = word_add it.idx_in_index_page 1}
                      {y = it.idx_in_index_page + 1} (omega (arith, listed, w.local))
                    ∙ w.holds.paged.listed (it.idx_in_index_page + 1) listed
                        (omega (arith, listed, w.local))
                    ∙ ap page (sym next_index);
                at_offset = sym next_offset;
                index = omega (arith, listed, w.local, next_index);
                some_bytes = ground (arith, more);
                of_total = ground (arith, more);
                of_page_size = ground (arith, more);
                whole = ground (arith, more);
              }),
            )
      ]
    ]

-- What `directRead` points to and where it leads
pub direct_read_lem :
    (page : ℕ → ℕ) (h : Heap) (m : InternalMsg) (contents : List ℕ) (k : ℕ) (it : ReadIter) (sz : ℕ)
    → IsLocal page h m contents
    → StandsAt page contents k it
    → Inside page k it
    → sz ≤ it.size_remaining_in_block
    → (it1 : ReadIter) × (direct_read h m it sz ≡ ok ((it.page, it.offset), it1))
      × (read_from (h.bytes it.page) it.offset sz ≡ take sz (drop k contents))
      × StandsAt page contents (k + sz) it1
unfolding direct_read
direct_read_lem page h m contents k it sz w s b le =
    let (it1, skips, same, left, block) = impl_skip_lem page h m contents k it sz w s.left b le in
    (
      record it1 { current_offset = word_add it.current_offset sz },
      rw (skips) refl,
      block_bytes page h m contents k it sz w.holds s.left b le,
      record {
        left = left;
        counted = omega (arith, s.counted, s.left, w.bounded, w.started, w.local, left);
        block = elim block [
          | inl none_left ↦ inl none_left
          | inr c ↦ inr (record {
            in_message = c.in_message;
            on_page = c.on_page;
            at_offset = c.at_offset;
            index = c.index;
            some_bytes = c.some_bytes;
            of_total = c.of_total;
            of_page_size = c.of_page_size;
            whole = c.whole;
          })
        ];
      },
    )
