-- ===== src/Allocate/Wasm/Bounds.antt =====
-- The pages stand inside the block that is freed with them.
use nodecpp_foundation.Base.{
  ℕ, ◌+◌, ◌-◌, ◌%◌, ◌≤◌, ◌<◌, ◌≡◌, ◌≢◌, refl, ◌∙◌, arith, List, ◌∷◌, true, false, ◌==◌, leb,
}
use nodecpp_foundation.Base.Lists.{elem, erase, put}
use nodecpp_foundation.Base.Outcome.{ok}
use nodecpp_foundation.Log.State.{word_add, word_sub}
use nodecpp_foundation.Allocate.Wasm.{wasm_page_size, Memory, next_page, allocate, deallocate}

-- Where the pages of a block stand
pub record Placed (ptr size ret : ℕ) : Type 0 where
  pub aligned : ret % wasm_page_size ≡ 0
  pub room_before : ptr ≤ ret - 8
  pub within : ret + size ≤ ptr + (size + wasm_page_size)
  pub after : 8 ≤ ret

next_page-Placed :
    (ptr size : ℕ)
    → ptr % 16 ≡ 0
    → ptr + (size + wasm_page_size) < 0x10000000000000000
    → Placed ptr size (next_page ptr)
next_page-Placed ptr size aligned fits = record {
  aligned = omega (arith, aligned, fits);
  room_before = omega (arith, aligned, fits);
  within = omega (arith, aligned, fits);
  after = omega (arith, aligned, fits);
}

next_page-near :
    (ptr size : ℕ)
    → ptr + (size + wasm_page_size) < 0x10000000000000000
    → word_sub (next_page ptr) ptr ≤ wasm_page_size
next_page-near ptr size fits = omega (arith, fits)

neq : {n : ℕ} → n ≢ 0 → (n == 0) ≡ false
neq ne = ground (arith, ne)

eq_refl : (n : ℕ) → (n == n) ≡ true
eq_refl n = ground arith

-- The memory with the block `ptr`
with_block : Memory → ℕ → Memory
with_block m ptr = record {
  live = ptr ∷ m.live;
  word_at = put m.word_at (word_sub (next_page ptr) 8) ptr;
}

allocate-with_block :
    (malloc : List ℕ → ℕ → ℕ) (m : Memory) (size ptr : ℕ)
    → malloc m.live (size + wasm_page_size) ≡ ptr
    → ptr ≢ 0
    → ptr + (size + wasm_page_size) < 0x10000000000000000
    → allocate malloc m size ≡ ok (with_block m ptr, next_page ptr)
unfolding allocate with_block
allocate-with_block malloc m size ptr is given fits =
    let asked : word_add size wasm_page_size ≡ size + wasm_page_size = omega (arith, fits) in
    let top : (ptr == 0xFFFFFFFFFFFFFFFF) ≡ false = ground (arith, fits) in
    let close : leb (word_sub (next_page ptr) ptr) wasm_page_size ≡ true =
      ground (arith, next_page-near ptr size fits) in
    rw (allocate, asked, is) (rw (top, close, neq given) refl)

deallocate-block :
    (m : Memory) (size ptr : ℕ)
    → ptr ≢ 0
    → ptr + (size + wasm_page_size) < 0x10000000000000000
    → size % wasm_page_size ≡ 0
    → m.word_at (word_sub (next_page ptr) 8) ≡ ptr
    → elem ptr m.live ≡ true
    → deallocate m (next_page ptr) size ≡ ok (record m { live = erase ptr m.live })
unfolding deallocate
deallocate-block m size ptr given fits whole kept there =
    let pages : (size % wasm_page_size == 0) ≡ true = ground (arith, whole) in
    let close : leb (word_sub (next_page ptr) ptr) wasm_page_size ≡ true =
      ground (arith, next_page-near ptr size fits) in
    rw (deallocate, pages, kept) (rw (close, neq given, there) refl)

-- Pages that a `malloc` with a new block aligned to 16 gives, at an address where the block does not wrap around: they
-- are aligned, and with the word before them lie in the block. After any writes that leave that word, they are
-- deallocated, and the blocks in use are those of before.
pub deallocate-allocate :
    (malloc : List ℕ → ℕ → ℕ) (m : Memory) (size : ℕ)
    → malloc m.live (size + wasm_page_size) ≢ 0
    → malloc m.live (size + wasm_page_size) % 16 ≡ 0
    → malloc m.live (size + wasm_page_size) + (size + wasm_page_size) < 0x10000000000000000
    → size % wasm_page_size ≡ 0
    → (r : Memory × ℕ) × (allocate malloc m size ≡ ok r)
      × Placed (malloc m.live (size + wasm_page_size)) size (r.1)
      × ((words : ℕ → ℕ)
          → words (word_sub (r.1) 8) ≡ (r.0).word_at (word_sub (r.1) 8)
          → (m' : Memory) × (deallocate (record r.0 { word_at = words }) (r.1) size ≡ ok m')
            × (m'.live ≡ m.live))
unfolding with_block
deallocate-allocate malloc m size given aligned fits whole =
    let ptr = malloc m.live (size + wasm_page_size) in
    let slot : (word_sub (next_page ptr) 8 == word_sub (next_page ptr) 8) ≡ true =
      eq_refl (word_sub (next_page ptr) 8) in
    (
      (with_block m ptr, next_page ptr),
      allocate-with_block malloc m size ptr refl given fits,
      next_page-Placed ptr size aligned fits,
      λ words kept. (
        record { live = erase ptr (ptr ∷ m.live); word_at = words },
        deallocate-block (record { live = ptr ∷ m.live; word_at = words }) size ptr given fits whole
            (kept ∙ rw slot refl) (rw (eq_refl ptr) refl),
        rw (eq_refl ptr) refl,
      ),
    )
