-- ===== src/Tests/Strings.antt =====
-- The theorems on `string_ref` at concrete inputs: object 10 owns block 1, object 20 owns block 2,
-- and the others are null.
use nodecpp_foundation.Base.{ℕ, ◌≡◌, ◌≢◌, arith, false, [], ◌∷◌, ◌==◌, if◌then◌else◌}
use nodecpp_foundation.Base.Outcome.{ok}
use nodecpp_foundation.Base.Store.{Store, update}
use nodecpp_foundation.Tests.Allocator.{counting_malloc, counting_malloc-IsMalloc}
use nodecpp_foundation.StringRef.{StringRef, Memory, AreOwned, copy_assign, move_assign, c_str}
use nodecpp_foundation.StringRef.Laws.{copy_assign_lem, move_assign_lem}
use nodecpp_foundation.StringRef.Laws.Copies.{with_copy, IsApart}
use nodecpp_foundation.StringRef.Laws.Released.{freed}

-- Two blocks of one character.
abbrev memory : Memory
memory = record {
  live = 1 ∷ 2 ∷ [];
  is_literal = λ p. p == 0;
  text = λ p. if p == 1 then 65 ∷ [] else 66 ∷ [];
}

abbrev owner : ℕ → StringRef
owner block = record { from_literal = false; str = block }

abbrev objects : Store StringRef
objects = update (update (λ q. owner 0) 10 (owner 1)) 20 (owner 2)

objects-AreOwned : AreOwned memory objects
objects-AreOwned = record { valid = λ q. ground arith; separate = λ q r a b n e. ground arith }

memory-IsApart : IsApart memory counting_malloc
memory-IsApart = record { apart = λ live. ground arith }

copy_assign_lem_example :
    (mem' : Memory) × (s' : Store StringRef) × (copy_assign counting_malloc memory objects 10 20
      ≡ ok (mem', s'))
    × AreOwned mem' s'
    × (c_str mem' (s' 10) ≡ c_str memory (owner 2))
    × ((q : ℕ) → q ≢ 10 → c_str mem' (s' q) ≡ c_str memory (objects q))
    × (mem'.live ≡ with_copy (freed memory.live (owner 1)) (owner 2) (s' 10))
copy_assign_lem_example =
    copy_assign_lem counting_malloc memory objects 10 20 counting_malloc-IsMalloc memory-IsApart
      (ground arith) objects-AreOwned

move_assign_lem_example :
    (mem' : Memory) × (s' : Store StringRef) × (move_assign memory objects 10 20 ≡ ok (mem', s'))
    × AreOwned mem' s'
    × (c_str mem' (s' 10) ≡ c_str memory (owner 2))
    × ((s' 20).str ≡ 0)
    × ((q : ℕ) → q ≢ 10 → q ≢ 20 → c_str mem' (s' q) ≡ c_str memory (objects q))
    × (mem'.live ≡ freed memory.live (owner 1))
move_assign_lem_example = move_assign_lem memory objects 10 20 (ground arith) objects-AreOwned
