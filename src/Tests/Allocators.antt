-- ===== src/Tests/Allocators.antt =====
-- The theorems on allocators at concrete inputs.
use nodecpp_foundation.Base.{ℕ, suc, ◌+◌, ◌*◌, ◌%◌, ◌≤◌, leb, if◌then◌else◌, ◌≡◌, ◌≢◌, refl, arith}
use native.Mathlib.Nat.{add-mul-mod_self_left, mul-le-mul_right}
use nodecpp_foundation.Base.{◌∙◌, ap, List, [], ◌∷◌}
use nodecpp_foundation.Base.Outcome.{ok}
use nodecpp_foundation.Log.State.{word_sub}
use nodecpp_foundation.Allocate.Elements
use nodecpp_foundation.Allocate.Elements.{
  Blocks, CLibrary, Sizes, max_size, get_byte_size_of_n_elem,
}
use nodecpp_foundation.Allocate.Elements.Bounds.{
  IsCLibrary, get_byte_size_of_n_elem_lem, allocate-deallocate,
}
use nodecpp_foundation.Tests.Allocator.{sum, elem-above}
use nodecpp_foundation.Allocate.Wasm
use nodecpp_foundation.Allocate.Wasm.{wasm_page_size}
use nodecpp_foundation.Allocate.Wasm.Bounds.{Placed, deallocate-allocate}

-- Elements of 24 bytes
abbrev sizes : Sizes
sizes = record {
  size_of = 24;
  align_of = 8;
  default_new_alignment = 16;
  guaranteed_malloc_alignment = 16;
}

get_byte_size_of_n_elem_lem_example :
    get_byte_size_of_n_elem sizes 0x1000000000000000
    ≡ (if leb (0x1000000000000000 * 24) max_size then 0x1000000000000000 * 24 else max_size)
get_byte_size_of_n_elem_lem_example =
    get_byte_size_of_n_elem_lem sizes 0x1000000000000000 (omega arith) (omega arith)

-- Addresses grow by the alignment.
abbrev library : CLibrary
library = record {
  malloc = λ live n. 16 * suc (sum live);
  aligned_alloc = λ live n a. a * suc (sum live);
}

zero_mod : (a : ℕ) → 0 % a ≡ 0
zero_mod a = ground arith

multiple-mod : (a k : ℕ) → a * k % a ≡ 0
multiple-mod a k =
    ap (λ (n : ℕ). n % a) {x = a * k} {y = 0 + a * k} (omega arith)
    ∙ add-mul-mod_self_left 0 a k
    ∙ zero_mod a

library-IsCLibrary : IsCLibrary sizes library
library-IsCLibrary = record {
  malloc_fresh = λ live n. elem-above (16 * suc (sum live)) live (omega arith);
  malloc_aligned = λ live n low. ground arith;
  aligned_fresh = λ live n a positive.
      elem-above (a * suc (sum live)) live
        (omega (arith, mul-le-mul_right (suc (sum live)) positive));
  aligned_aligned = λ live n a positive. ground (arith, multiple-mod a (suc (sum live)));
}

abbrev blocks : Blocks
blocks = record { live = 16 ∷ []; size_at = λ p. 100 }

allocate-deallocate_example :
    (r : Blocks × ℕ) × (b' : Blocks) × (Elements.allocate sizes library blocks 10 ≡ ok r)
    × (r.1 ≢ 0)
    × (10 * 24 ≤ (r.0).size_at (r.1))
    × (Elements.deallocate sizes (r.0) (r.1) ≡ ok b')
    × (b'.live ≡ blocks.live)
allocate-deallocate_example =
    allocate-deallocate sizes library library-IsCLibrary (λ live n. omega arith)
      (λ live n. omega arith) blocks 10 (omega arith) (omega arith) (omega arith)

abbrev memory : Wasm.Memory
memory = record { live = 0x500 ∷ []; word_at = λ p. 0 }

abbrev next : List ℕ → ℕ → ℕ
next live n = 16 * suc (sum live)

deallocate-allocate_example :
    (r : Wasm.Memory × ℕ) × (Wasm.allocate next memory 0x2000 ≡ ok r)
    × Placed (next memory.live (0x2000 + wasm_page_size)) 0x2000 (r.1)
    × ((words : ℕ → ℕ)
        → words (word_sub (r.1) 8) ≡ (r.0).word_at (word_sub (r.1) 8)
        → (m' : Wasm.Memory) × (Wasm.deallocate (record r.0 { word_at = words }) (r.1) 0x2000
            ≡ ok m')
          × (m'.live ≡ memory.live))
deallocate-allocate_example =
    deallocate-allocate next memory 0x2000 (omega arith) refl (omega arith) refl
