-- ===== src/Allocate/Elements.antt =====
-- `selective_allocator` of include/allocator_template.h over `StdRawAllocator` of include/malloc_based_allocator.h,
-- for elements of one type.
pub mod Bounds
use nodecpp_foundation.Base.{ℕ, ◌-◌, ◌*◌, ◌/◌, ◌%◌, ◌^◌, ◌≤◌, List, ◌∷◌, ◌≡◌, ◌≢◌}
use nodecpp_foundation.Base.{Bool, true, false, ltb, leb, ◌==◌, if◌then◌else◌}
use nodecpp_foundation.Base.Lists.{elem, erase, put}
use nodecpp_foundation.Base.Outcome.{Outcome, ok, throws, asserting, ◌>>=◌, bad_alloc, invalid_free}

-- The blocks in use and their sizes
pub record Blocks : Type 0 where
  pub live : List ℕ
  pub size_at : ℕ → ℕ

-- `malloc` and `aligned_alloc`, given the blocks in use; 0 where there is none
pub record CLibrary : Type 0 where
  pub malloc : List ℕ → ℕ → ℕ
  pub aligned_alloc : List ℕ → ℕ → ℕ → ℕ

-- `sizeof` and `alignof` of the elements, `__STDCPP_DEFAULT_NEW_ALIGNMENT__` and
-- `NODECPP_GUARANTEED_MALLOC_ALIGNMENT`
pub record Sizes : Type 0 where
  pub size_of : ℕ
  pub align_of : ℕ
  pub default_new_alignment : ℕ
  pub guaranteed_malloc_alignment : ℕ

-- `static_cast<size_t>(-1)`
abbrev pub max_size : ℕ
max_size = 0xFFFFFFFFFFFFFFFF

-- `(uintptr_t)p & (alignment-1)`, for a power of 2, is 0.
abbrev pub is_aligned : ℕ → ℕ → Bool
is_aligned alignment p = p % alignment == 0

module _ (z : Sizes) where
  -- `getByteSizeOfNElem`
  unfoldable pub get_byte_size_of_n_elem : ℕ → ℕ
  get_byte_size_of_n_elem n =
      if z.size_of == 1
      then n
      else (if ltb (max_size / z.size_of) n then max_size else n * z.size_of % 0x10000000000000000)

  abbrev pub alignment : ℕ
  alignment = if ltb z.default_new_alignment z.align_of then z.align_of else z.default_new_alignment

  module _ (c : CLibrary) where
    -- `StdRawAllocator::allocate`
    unfoldable pub raw_allocate : Blocks → ℕ → Outcome (Blocks × ℕ)
    raw_allocate b sz =
        let p =
          if leb alignment z.guaranteed_malloc_alignment
          then c.malloc b.live sz
          else c.aligned_alloc b.live sz alignment in
        if p == 0
        then throws bad_alloc
        else ok (record { live = p ∷ b.live; size_at = put b.size_at p sz }, p)

    -- `allocate`
    unfoldable pub allocate : Blocks → ℕ → Outcome (Blocks × ℕ)
    allocate b n =
        let sz = get_byte_size_of_n_elem n in
        if sz == 0
        then ok (b, 0)
        else (raw_allocate b sz >>= λ r. asserting (is_aligned alignment (r.1)) (ok r))

  -- `StdRawAllocator::deallocate`: the `free` of a null pointer does nothing.
  unfoldable pub raw_deallocate : Blocks → ℕ → Outcome Blocks
  raw_deallocate b p =
      if p == 0
      then ok b
      else (if elem p b.live then ok (record b { live = erase p b.live }) else throws invalid_free)

  -- `deallocate`
  unfoldable pub deallocate : Blocks → ℕ → Outcome Blocks
  deallocate b p = asserting (is_aligned alignment p) (raw_deallocate b p)
