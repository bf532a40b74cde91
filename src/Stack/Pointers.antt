-- ===== src/Stack/Pointers.antt =====
-- `StackInfo::StackPointers` of include/stack_info.h: the array of the addresses of a stack, owned.
pub mod Laws
use nodecpp_foundation.Base.{ℕ, ◌*◌, List, [], ◌∷◌, ◌≡◌, ◌≢◌, ◌⊎◌}
use nodecpp_foundation.Base.{Bool, true, false, not, ◌&&◌, leb, ◌==◌, if◌then◌else◌}
use nodecpp_foundation.Base.Lists.{elem, erase, put, length, take}
use nodecpp_foundation.Base.Outcome.{Outcome, ok, throws, ◌>>=◌, invalid_free, dangling_read}
use nodecpp_foundation.Base.Store.{Store, update}

pub record StackPointers : Type 0 where
  pub ptrs : ℕ
  pub cnt : ℕ

abbrev pub no_pointers : StackPointers
no_pointers = record { ptrs = 0; cnt = 0 }

-- The blocks in use, and the words in the block at an address
pub record Heap : Type 0 where
  pub live : List ℕ
  pub words : ℕ → List ℕ

-- The array that `init` copies: of the function that calls it, or a block of the heap
pub data Source : Type 0 where
  on_stack : List ℕ → Source
  in_heap : ℕ → Source

-- `free`
unfoldable pub free : Heap → ℕ → Outcome Heap
free heap p =
    if elem p heap.live then ok (record heap { live = erase p heap.live }) else throws invalid_free

-- What `memcpy` reads
unfoldable pub read : Heap → Source → ℕ → Outcome (List ℕ)
read heap (on_stack ws) n = if leb n (length ws) then ok (take n ws) else throws dangling_read
read heap (in_heap p) n =
    if elem p heap.live && leb n (length (heap.words p))
    then ok (take n (heap.words p))
    else throws dangling_read

-- `if (ptrs ) free( ptrs );`
unfoldable pub release : Heap → StackPointers → Outcome Heap
release heap sp = if not (sp.ptrs == 0) then free heap sp.ptrs else ok heap

-- The destructor; what follows is not an object.
unfoldable pub destroy : Heap → StackPointers → Outcome Heap
destroy heap sp = release heap sp

-- The move constructor: the new object and what it leaves
unfoldable pub move_construct : StackPointers → StackPointers × StackPointers
move_construct other = (other, record other { ptrs = 0; cnt = 0 })

-- The move assignment of the object at `other` to the one at `dst`
unfoldable pub move_assign : Store StackPointers → ℕ → ℕ → Store StackPointers
move_assign s dst other =
    let moved = update s dst (s other) in
    update moved other (record (moved other) { ptrs = 0; cnt = 0 })

-- `malloc`, given the blocks in use and a number of bytes; 0 where it has none
module _ (malloc : List ℕ → ℕ → ℕ) where
  -- `init`
  unfoldable pub init : Heap → StackPointers → Source → ℕ → Outcome (Heap × StackPointers)
  init heap sp src n = release heap sp >>= λ h.
      let p = malloc h.live (8 * n) in
      if n == 0
      then ok (h, no_pointers)
      else (if p == 0
          then ok (h, no_pointers)
          else (read h src n >>= λ ws. ok (
            record { live = p ∷ h.live; words = put h.words p ws },
            record { ptrs = p; cnt = n },
          )))

  -- The copy constructor
  unfoldable pub copy_construct : Heap → StackPointers → Outcome (Heap × StackPointers)
  copy_construct heap other = init heap no_pointers (in_heap other.ptrs) other.cnt

  -- The copy assignment of the object at `other` to the one at `dst`
  unfoldable pub copy_assign :
      Heap → Store StackPointers → ℕ → ℕ → Outcome (Heap × Store StackPointers)
  copy_assign heap s dst other = init heap (s dst) (in_heap (s other).ptrs) ((s other).cnt) >>= λ r.
      ok (r.0, update s dst (r.1))
