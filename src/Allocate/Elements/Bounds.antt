-- ===== src/Allocate/Elements/Bounds.antt =====
-- A block is never smaller than its elements.
use nodecpp_foundation.Base.{ℕ, ◌*◌, ◌/◌, ◌%◌, ◌≤◌, ◌<◌, List, ◌∷◌, ◌≡◌, ◌≢◌, refl, ◌∙◌, arith}
use native.Mathlib.Nat.{div-lt_iff_lt-mul, le-mul_of_pos_right}
use nodecpp_foundation.Base.{◌↔◌, Bool-cases, inl, inr, true, false, ltb, leb, ◌==◌, if◌then◌else◌}
use nodecpp_foundation.Base.Lists.{elem, erase, put}
use nodecpp_foundation.Base.Outcome.{ok}
use nodecpp_foundation.Allocate.Elements.{
  Blocks, CLibrary, Sizes, max_size, is_aligned, get_byte_size_of_n_elem, alignment, raw_allocate,
  allocate, raw_deallocate, deallocate,
}

-- What the C library documents: a block that is given is not in use and is aligned.
pub record IsCLibrary (z : Sizes) (c : CLibrary) : Type 0 where
  pub malloc_fresh : (live : List ℕ) (n : ℕ) → elem (c.malloc live n) live ≡ false
  pub malloc_aligned :
      (live : List ℕ) (n : ℕ)
      → leb (alignment z) z.guaranteed_malloc_alignment ≡ true
      → is_aligned (alignment z) (c.malloc live n) ≡ true
  pub aligned_fresh :
      (live : List ℕ) (n a : ℕ) → 1 ≤ a → elem (c.aligned_alloc live n a) live ≡ false
  pub aligned_aligned :
      (live : List ℕ) (n a : ℕ) → 1 ≤ a → is_aligned a (c.aligned_alloc live n a) ≡ true

-- The size of a number of elements is exact where a `size_t` holds it, and is otherwise the greatest one, which no
-- product that wraps around can pass for.
pub get_byte_size_of_n_elem_lem :
    (z : Sizes) (n : ℕ)
    → 1 ≤ z.size_of
    → n ≤ max_size
    → get_byte_size_of_n_elem z n
      ≡ (if leb (n * z.size_of) max_size then n * z.size_of else max_size)
unfolding get_byte_size_of_n_elem
get_byte_size_of_n_elem_lem z n positive fits =
    let same : (max_size / z.size_of < n) ↔ (max_size < n * z.size_of) =
      div-lt_iff_lt-mul positive in
    elim (Bool-cases (z.size_of == 1)) [
      | inl one ↦
          let unit : z.size_of ≡ 1 = ground (arith, one) in
          let all : n * z.size_of ≡ n = rw unit (omega arith) in
          rw (get_byte_size_of_n_elem, one, all) (ground (arith, fits))
      | inr other ↦ elim (Bool-cases (ltb (max_size / z.size_of) n)) [
        | inl over ↦
            let wraps : max_size < n * z.size_of = same.0 (ground (arith, over)) in
            rw (get_byte_size_of_n_elem, other, over) (ground (arith, wraps))
        | inr within ↦
            let holds : n * z.size_of ≤ max_size =
              elim (Bool-cases (ltb max_size (n * z.size_of))) [
                | inl more ↦
                    let over : max_size / z.size_of < n = same.1 (ground (arith, more)) in
                    absurd (ground (arith, over, within))
                | inr less ↦ ground (arith, less)
              ] in
            let whole : n * z.size_of % 0x10000000000000000 ≡ n * z.size_of =
              omega (arith, holds) in
            rw (get_byte_size_of_n_elem, other, within, whole) (ground (arith, holds))
      ]
    ]

-- A block that the library gives for `sz` bytes
record Given (z : Sizes) (c : CLibrary) (b : Blocks) (sz : ℕ) : Type 0 where
  place : ℕ
  not_null : place ≢ 0
  fresh : elem place b.live ≡ false
  aligned : is_aligned (alignment z) place ≡ true
  is :
      raw_allocate z c b sz
      ≡ ok (record { live = place ∷ b.live; size_at = put b.size_at place sz }, place)

neq : {n : ℕ} → n ≢ 0 → (n == 0) ≡ false
neq ne = ground (arith, ne)

raw_allocate-Given :
    (z : Sizes) (c : CLibrary)
    → IsCLibrary z c
    → ((live : List ℕ) (n : ℕ) → c.malloc live n ≢ 0)
    → ((live : List ℕ) (n : ℕ) → c.aligned_alloc live n (alignment z) ≢ 0)
    → (b : Blocks) (sz : ℕ) → Given z c b sz
unfolding raw_allocate
raw_allocate-Given z c is gives gives_aligned b sz =
    elim (Bool-cases (leb (alignment z) z.guaranteed_malloc_alignment)) [
      | inl common ↦ record {
        place = c.malloc b.live sz;
        not_null = gives b.live sz;
        fresh = is.malloc_fresh b.live sz;
        aligned = is.malloc_aligned b.live sz common;
        is = rw (raw_allocate, common) (rw (neq (gives b.live sz)) refl);
      }
      | inr greater ↦ record {
        place = c.aligned_alloc b.live sz (alignment z);
        not_null = gives_aligned b.live sz;
        fresh = is.aligned_fresh b.live sz (alignment z) (ground (arith, greater));
        aligned = is.aligned_aligned b.live sz (alignment z) (ground (arith, greater));
        is = rw (raw_allocate, greater) (rw (neq (gives_aligned b.live sz)) refl);
      }
    ]

-- What is allocated for at least one element, where a `size_t` holds its size and the library gives blocks: the
-- elements fit in the block, and when it is deallocated the blocks in use are those of before.
pub allocate-deallocate :
    (z : Sizes) (c : CLibrary)
    → IsCLibrary z c
    → ((live : List ℕ) (n : ℕ) → c.malloc live n ≢ 0)
    → ((live : List ℕ) (n : ℕ) → c.aligned_alloc live n (alignment z) ≢ 0)
    → (b : Blocks) (n : ℕ) → 1 ≤ z.size_of
    → 1 ≤ n
    → n * z.size_of ≤ max_size
    → (r : Blocks × ℕ) × (b' : Blocks) × (allocate z c b n ≡ ok r)
      × (r.1 ≢ 0)
      × (n * z.size_of ≤ (r.0).size_at (r.1))
      × (deallocate z (r.0) (r.1) ≡ ok b')
      × (b'.live ≡ b.live)
unfolding allocate deallocate raw_deallocate
allocate-deallocate z c is gives gives_aligned b n positive some fits =
    let sz = n * z.size_of in
    let least : n ≤ sz = le-mul_of_pos_right n positive in
    let size : get_byte_size_of_n_elem z n ≡ sz =
      get_byte_size_of_n_elem_lem z n positive (omega (arith, least, fits))
      ∙ ground (arith, fits) in
    let g = raw_allocate-Given z c is gives gives_aligned b sz in
    let nonzero : (sz == 0) ≡ false = ground (arith, least, some) in
    let same : (g.place == g.place) ≡ true = ground arith in
    (
      (record { live = g.place ∷ b.live; size_at = put b.size_at g.place sz }, g.place),
      record { live = erase g.place (g.place ∷ b.live); size_at = put b.size_at g.place sz },
      rw (allocate, size) (rw (nonzero, g.is) (rw g.aligned refl)),
      g.not_null,
      rw same (omega arith),
      rw (deallocate, g.aligned) (rw (raw_deallocate, neq g.not_null) (rw same refl)),
      rw same refl,
    )
