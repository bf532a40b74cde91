-- ===== src/Allocate/Wasm.antt =====
-- `VirtualMemory` of src/page_allocator.cpp as built for 64-bit WASM: pages inside a block of `malloc`, whose address
-- is kept in the word before them.
pub mod Bounds
use nodecpp_foundation.Base.{ℕ, ◌+◌, ◌-◌, ◌*◌, ◌/◌, ◌%◌, List, ◌∷◌, Bool, ◌==◌, leb, if◌then◌else◌}
use nodecpp_foundation.Base.Lists.{elem, erase, put}
use nodecpp_foundation.Base.Outcome.{Outcome, ok, throws, asserting, ◌>>=◌, bad_alloc, invalid_free}
use nodecpp_foundation.Log.State.{word_add, word_sub}

-- `WasmPageSize`
abbrev pub wasm_page_size : ℕ
wasm_page_size = 0x1000

-- The blocks in use, and the word at an address of the linear memory
pub record Memory : Type 0 where
  pub live : List ℕ
  pub word_at : ℕ → ℕ

-- `((uintptr_t)ptr & ~(WasmPageSize-1)) + WasmPageSize`
abbrev pub next_page : ℕ → ℕ
next_page ptr = word_add (ptr / wasm_page_size * wasm_page_size) wasm_page_size

module _ (malloc : List ℕ → ℕ → ℕ) where
  -- `allocate`
  unfoldable pub allocate : Memory → ℕ → Outcome (Memory × ℕ)
  allocate m size =
      let ptr = malloc m.live (word_add size wasm_page_size) in
      let ret = next_page ptr in
      if ptr == 0xFFFFFFFFFFFFFFFF
      then throws bad_alloc
      else asserting (leb (word_sub ret ptr) wasm_page_size) (
          ok (
            record {
              live = if ptr == 0 then m.live else ptr ∷ m.live;
              word_at = put m.word_at (word_sub ret 8) ptr;
            },
            ret,
          ))

-- `free`
abbrev pub free : Memory → ℕ → Outcome Memory
free m p =
    if p == 0
    then ok m
    else (if elem p m.live then ok (record m { live = erase p m.live }) else throws invalid_free)

-- `deallocate`
unfoldable pub deallocate : Memory → ℕ → ℕ → Outcome Memory
deallocate m ptr size =
    let ptr_to_delete = m.word_at (word_sub ptr 8) in
    asserting (size % wasm_page_size == 0)
      (asserting (leb (word_sub ptr ptr_to_delete) wasm_page_size) (free m ptr_to_delete))
