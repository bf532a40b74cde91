-- ===== src/Message/Lifetime/Laws.antt =====
-- What the operations of a message beside appending keep of its contents.
use nodecpp_foundation.Base.{ℕ, ◌+◌, ◌-◌, ◌/◌, ◌≤◌, ◌<◌, ◌≡◌, ◌≢◌, inl, inr, refl, ◌∙◌, arith}
use nodecpp_foundation.Base.{List, [], lt_or_ge}
use nodecpp_foundation.Base.Lists.{length}
use nodecpp_foundation.Base.Outcome.{ok}
use nodecpp_foundation.Base.Store.{Store}
use nodecpp_foundation.Message.Memory.{
  page_size, app_reserved, total_reserved, InternalMsg, Heap, write_bytes, read_bytes,
}
use nodecpp_foundation.Message.Buffer.Index.{IsIndexed-none}
use nodecpp_foundation.Message.Buffer.Contents.{Holds, byte_at}
use nodecpp_foundation.Message.Memory.Writes.{
  write_bytes-elsewhere, write_bytes-at, write_bytes-after, read_bytes-at,
}
use nodecpp_foundation.Message.Lifetime.{
  move_construct, taken, left_behind, app_write_data, app_read_data, size,
}

-- A message without pages holds nothing.
pub Holds-none :
    (page : ℕ → ℕ) (h : Heap) (m : InternalMsg)
    → m.page_cnt ≡ 0
    → m.current_page ≡ 0
    → m.total_sz ≡ 0
    → m.first_header.next ≡ 0
    → m.lip ≡ 0
    → Holds page h m []
Holds-none page h m p c t n l = record {
  paged = record {
    filling = inl (c, omega arith);
    few = λ le. (n, l);
    many = λ gt. absurd (omega arith);
    allocated = λ i lt. absurd (omega arith);
    not_null = λ i lt. absurd (omega arith);
    distinct = λ i j a b. absurd (omega arith);
    indexed = (λ j. 0, 0, IsIndexed-none _ _ _ _ _ _ (λ j. 0) (omega arith));
    listed = λ i a b. absurd (omega arith);
  };
  sizes = inl (p, refl);
  same_bytes = λ k lt. absurd (omega arith);
}

-- `size` of a message that holds `contents` is their number.
pub size-Holds :
    (page : ℕ → ℕ) (h : Heap) (m : InternalMsg) (contents : List ℕ)
    → Holds page h m contents
    → size m ≡ ok (length contents)
unfolding size
size-Holds page h m contents w = elim (w.sizes) [
  | inl empty ↦ ground (arith, w.paged.filling)
  | inr grown ↦ ground arith
]

-- A message moved to another place holds there what it held, and leaves an empty one behind.
pub move_construct-Holds :
    (page : ℕ → ℕ) (h : Heap) (s : Store InternalMsg) (this other : ℕ) (contents : List ℕ)
    → this ≢ other
    → Holds page h (s other) contents
    → Holds page h (move_construct s this other this) contents
      × Holds page h (move_construct s this other other) []
unfolding move_construct
move_construct-Holds page h s this other contents ne w = (
  rw (at_this) (record {
    paged = record {
      filling = w.paged.filling;
      few = w.paged.few;
      many = w.paged.many;
      allocated = w.paged.allocated;
      not_null = w.paged.not_null;
      distinct = w.paged.distinct;
      indexed = w.paged.indexed;
      listed = λ i a b. ground (arith, w.paged.listed i);
    };
    sizes = w.sizes;
    same_bytes = w.same_bytes;
  }),
  rw (at_other) (Holds-none page h (left_behind (s other)) refl refl refl refl refl),
)
  where
    at_this : move_construct s this other this ≡ taken (s other)
    at_this = ground arith

    at_other : move_construct s this other other ≡ left_behind (s other)
    at_other = ground arith

-- Bytes written to the part of the first page that is reserved leave the contents.
pub kept-reserved :
    (page : ℕ → ℕ) (h : Heap) (m : InternalMsg) (contents : List ℕ) (start : ℕ) (source : List ℕ)
    → Holds page h m contents
    → m.total_sz ≢ 0
    → start + length source ≤ total_reserved
    → (k : ℕ) → k < length contents
    → byte_at page
        (record h { bytes = write_bytes h.bytes (m.first_header.pages 0) start source })
        k
      ≡ byte_at page h k
kept-reserved page h m contents start source w some_bytes fits k lt =
    elim (lt_or_ge (total_reserved + k) page_size) [
      | inl inside ↦ write_bytes-after h.bytes first_page start source _ _ (omega (arith, fits))
      | inr beyond ↦
          write_bytes-elsewhere h.bytes first_page start source _ _ (inl (elsewhere beyond))
    ]
  where
    first_page : ℕ
    first_page = m.first_header.pages 0

    elsewhere :
        page_size ≤ total_reserved + k → page ((total_reserved + k) / page_size) ≢ first_page
    elsewhere beyond = ground (
      arith,
      w.paged.listed 0,
      w.paged.distinct ((total_reserved + k) / page_size) 0,
      w.sizes,
      w.paged.filling,
    )

-- What the application writes to the bytes reserved for it in a message that holds something is
-- read back, and the contents of the message stay.
pub app_read_data-app_write_data :
    (malloc : List ℕ → ℕ) (page : ℕ → ℕ) (h : Heap) (m : InternalMsg) (contents source : List ℕ)
    (offset : ℕ)
    → Holds page h m contents
    → m.total_sz ≢ 0
    → offset + length source ≤ app_reserved
    → (h' : Heap) × (app_write_data malloc h m source offset ≡ ok (h', m))
      × (app_read_data h' m offset (length source) ≡ ok source)
      × Holds page h' m contents
unfolding app_write_data app_read_data
app_read_data-app_write_data malloc page h m contents source offset w some_bytes fits = (
  h',
  ground (arith, large),
  ground (arith, large, first, read_back),
  record {
    paged = record {
      filling = w.paged.filling;
      few = w.paged.few;
      many = w.paged.many;
      allocated = w.paged.allocated;
      not_null = w.paged.not_null;
      distinct = w.paged.distinct;
      indexed = w.paged.indexed;
      listed = w.paged.listed;
    };
    sizes = w.sizes;
    same_bytes = λ k lt. kept k lt ∙ w.same_bytes k lt;
  },
)
  where
    first_page : ℕ
    first_page = m.first_header.pages 0

    start : ℕ
    start = total_reserved - app_reserved + offset

    h' : Heap
    h' = record h { bytes = write_bytes h.bytes first_page start source }

    some_page : 0 < m.page_cnt
    some_page = ground (arith, w.paged.filling)

    first : first_page ≢ 0
    first = ground (arith, w.paged.listed 0, w.paged.not_null 0, some_page)

    large : total_reserved ≤ m.total_sz
    large = ground (arith, w.sizes, w.paged.filling)

    read_back :
        read_bytes (write_bytes h.bytes first_page start source) first_page start (length source)
        ≡ source
    read_back =
        read_bytes-at (write_bytes h.bytes first_page start source) first_page start source
          (write_bytes-at h.bytes first_page start source)

    kept : (k : ℕ) → k < length contents → byte_at page h' k ≡ byte_at page h k
    kept = kept-reserved page h m contents start source w some_bytes (omega (arith, fits))
