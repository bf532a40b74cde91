-- ===== src/Tests/Allocator.antt =====
-- An allocator for the tests.
use nodecpp_foundation.Base.{ℕ, suc, ◌+◌, ◌<◌, ◌≡◌, false, refl, arith, List, [], ◌∷◌}
use nodecpp_foundation.Base.Lists.{elem, IsMalloc}

abbrev pub sum : List ℕ → ℕ
sum [] = 0
sum (x ∷ xs) = x + sum xs

-- An allocator whose addresses grow.
abbrev pub counting_malloc : List ℕ → ℕ
counting_malloc live = suc (sum live)

pub elem-above : (n : ℕ) (l : List ℕ) → sum l < n → elem n l ≡ false
elem-above n [] lt = refl
elem-above n (x ∷ l) lt = ground (arith, elem-above n l)

pub counting_malloc-IsMalloc : IsMalloc counting_malloc
counting_malloc-IsMalloc = record {
  not_null = λ live. ground arith;
  fresh = λ live. elem-above (suc (sum live)) live (omega arith);
}
