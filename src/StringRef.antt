-- ===== src/StringRef.antt =====
-- `string_ref` of include/string_ref.h: a string that is owned, or a literal that is not.
pub mod Laws
use nodecpp_foundation.Base.{ℕ, List, [], ◌∷◌, ◌≡◌, ◌≢◌, ◌⊎◌}
use nodecpp_foundation.Base.{Bool, true, false, not, ◌&&◌, ◌||◌, ◌==◌, if◌then◌else◌}
use nodecpp_foundation.Base.Lists.{elem, erase, put}
use nodecpp_foundation.Base.Outcome.{Outcome, ok, throws, ◌>>=◌, invalid_free, dangling_read}
use nodecpp_foundation.Base.Store.{Store, update}

pub record StringRef : Type 0 where
  pub from_literal : Bool
  pub str : ℕ

-- The blocks that `strdup` gave, the strings that live for ever, and the characters at an address.
pub record Memory : Type 0 where
  pub live : List ℕ
  pub is_literal : ℕ → Bool
  pub text : ℕ → List ℕ

abbrev pub is_readable : Memory → ℕ → Bool
is_readable mem p = mem.is_literal p || elem p mem.live

-- What an `strdup` of the string at `p` to the block `q` leaves.
abbrev pub copied : Memory → ℕ → ℕ → Memory
copied mem p q = record mem { live = q ∷ mem.live; text = put mem.text q (mem.text p) }

-- `release_str`
unfoldable pub release_str : Memory → StringRef → Outcome (Memory × StringRef)
release_str mem r =
    if not r.from_literal && not (r.str == 0)
    then (if elem r.str mem.live
        then ok (record mem { live = erase r.str mem.live }, record r { str = 0 })
        else throws invalid_free)
    else ok (mem, r)

-- `c_str`
unfoldable pub c_str : Memory → StringRef → Outcome (List ℕ)
c_str mem r =
    if not (r.str == 0)
    then (if is_readable mem r.str then ok (mem.text r.str) else throws dangling_read)
    else ok []

-- `empty`: the characters stop at the first 0.
unfoldable pub is_empty : Memory → StringRef → Outcome Bool
is_empty mem r =
    if r.str == 0
    then ok true
    else (if is_readable mem r.str
        then ok (elim (mem.text r.str) [ [] ↦ true | c ∷ cs ↦ false ])
        else throws dangling_read)

module _ (malloc : List ℕ → ℕ) where
  -- `duplicate_str`, whose `strdup` takes its block from `malloc`
  unfoldable pub duplicate_str : Memory → ℕ → Outcome (Memory × ℕ)
  duplicate_str mem p =
      if not (p == 0)
      then (if is_readable mem p
          then ok (copied mem p (malloc mem.live), malloc mem.live)
          else throws dangling_read)
      else ok (mem, 0)

  -- `string_ref( const char* )`
  unfoldable pub construct : Memory → ℕ → Outcome (Memory × StringRef)
  unfolding duplicate_str
  construct mem p =
      duplicate_str mem p >>= λ d. ok (d.0, record { from_literal = false; str = d.1 })

  -- `string_ref( literal_tag_t, const char* )`
  unfoldable pub construct_literal : ℕ → StringRef
  construct_literal p = record { from_literal = true; str = p }

  -- `operator =( const char* )`
  unfoldable pub assign : Memory → StringRef → ℕ → Outcome (Memory × StringRef)
  unfolding duplicate_str release_str
  assign mem r p = release_str mem r >>= λ s.
      duplicate_str (s.0) p >>= λ d. ok (d.0, record { from_literal = false; str = d.1 })

  -- The string of `other` as a copy takes it
  unfoldable pub copy_of : Memory → StringRef → Outcome (Memory × StringRef)
  unfolding duplicate_str
  copy_of mem other =
      (if other.from_literal then ok (mem, other.str) else duplicate_str mem other.str) >>= λ d.
      ok (d.0, record { from_literal = other.from_literal; str = d.1 })

  -- `string_ref( const string_ref& other )`
  unfoldable pub copy_construct : Memory → StringRef → Outcome (Memory × StringRef)
  unfolding copy_of
  copy_construct mem other = copy_of mem other

  -- `operator =( const string_ref& other )`
  unfoldable pub copy_assign : Memory → Store StringRef → ℕ → ℕ → Outcome (Memory × Store StringRef)
  unfolding copy_of release_str
  copy_assign mem s this other = release_str mem (s this) >>= λ r.
      let s' = update s this (r.1) in
      copy_of (r.0) (s' other) >>= λ d. ok (d.0, update s' this (d.1))

-- `string_ref( string_ref&& other )`
unfoldable pub move_construct : Store StringRef → ℕ → ℕ → Store StringRef
move_construct s this other =
    let s' = update s this (s other) in update s' other (record { from_literal = false; str = 0 })

-- `operator =( string_ref&& other )`
unfoldable pub move_assign : Memory → Store StringRef → ℕ → ℕ → Outcome (Memory × Store StringRef)
unfolding release_str
move_assign mem s this other = release_str mem (s this) >>= λ r.
    let s' = update s this (r.1) in
    let s1 = update s' this (s' other) in
    ok (r.0, update s1 other (record { from_literal = false; str = 0 }))

-- `~string_ref`
unfoldable pub destruct : Memory → StringRef → Outcome Memory
unfolding release_str
destruct mem r = release_str mem r >>= λ s. ok (s.0)

-- A string is null, a literal, or a live block that is no literal.
abbrev pub IsValid : Memory → StringRef → Type 0
IsValid mem r =
    (r.str ≡ 0)
    ⊎ ((r.from_literal ≡ true) × (mem.is_literal r.str ≡ true)
        ⊎ ((r.from_literal ≡ false)
            × (mem.is_literal r.str ≡ false)
            × (elem r.str mem.live ≡ true)))

-- Every object is valid, and no two own one block.
pub record AreOwned (mem : Memory) (s : Store StringRef) : Type 0 where
  pub valid : (q : ℕ) → IsValid mem (s q)
  pub separate :
      (q r : ℕ)
      → (s q).from_literal ≡ false
      → (s r).from_literal ≡ false
      → (s q).str ≢ 0
      → (s q).str ≡ (s r).str
      → q ≡ r
