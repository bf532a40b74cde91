-- ===== src/StringRef/Laws.antt =====
-- Copies and moves of a `string_ref` leave no block with two owners and lose none.
pub mod Released
pub mod Copies
use nodecpp_foundation.Base.{
  ℕ, ◌≡◌, ◌≢◌, ◌⊎◌, inl, inr, refl, sym, ap, ◌∙◌, arith, List, [], true, false, lt_or_ge,
}
use nodecpp_foundation.Base.Lists.{elem, erase, elem-erase, IsMalloc}
use nodecpp_foundation.Base.Outcome.{Outcome, ok}
use nodecpp_foundation.Base.Store.{Store, update}
use nodecpp_foundation.StringRef.{
  StringRef, Memory, copied, is_readable, release_str, c_str, duplicate_str, copy_of, copy_assign,
  move_assign, IsValid, AreOwned, construct, destruct, is_empty,
}
use nodecpp_foundation.StringRef.Laws.Released.{
  freed, release_lem, at_this, elsewhere, released_other,
}
use nodecpp_foundation.StringRef.Laws.Copies.{with_copy, IsApart, copy_of_lem}

-- Where every string is null, a literal or a block in use that no other string owns, and `malloc` gives fresh blocks that
-- are no literals, after
-- `operator =( const string_ref& )` between different objects both hold what the other one
-- held, every other object holds what it held, and no block has two owners. The blocks in use are
-- those of before without the one that this object owned, and with the one of the copy if the other owns its string.
pub copy_assign_lem :
    (malloc : List ℕ → ℕ) (mem : Memory) (s : Store StringRef) (this other : ℕ)
    → IsMalloc malloc
    → IsApart mem malloc
    → this ≢ other
    → AreOwned mem s
    → (mem' : Memory) × (s' : Store StringRef) × (copy_assign malloc mem s this other
        ≡ ok (mem', s'))
      × AreOwned mem' s'
      × (c_str mem' (s' this) ≡ c_str mem (s other))
      × ((q : ℕ) → q ≢ this → c_str mem' (s' q) ≡ c_str mem (s q))
      × (mem'.live ≡ with_copy (freed mem.live (s this)) (s other) (s' this))
unfolding copy_assign
copy_assign_lem malloc mem s this other ma ia ne w =
    let (mem1, r1, e1, w1, t1, l1, b1) = release_lem mem s this w in
    let (mem2, r2, e2, w2, c2, k2, b2) =
      copy_of_lem malloc ma mem1
        (record { apart = λ live. ap (λ f. f (malloc live)) l1 ∙ ia.apart live }) (update s this r1)
        this other ne w1 in
    (
      mem2,
      update (update s this r1) this r2,
      rw (e1) (rw (e2) refl),
      w2,
      ap (c_str mem2) (at_this (update s this r1) this r2)
          ∙ c2
          ∙ released_other mem s this mem1 r1 w w1 t1 other (λ e. ne (sym e)),
      λ q nq.
          ap (c_str mem2) (elsewhere (update s this r1) this r2 q nq)
          ∙ k2 q
          ∙ released_other mem s this mem1 r1 w w1 t1 q nq,
      b2
          ∙ ap (λ (o : StringRef). with_copy mem1.live o r2)
              (elsewhere s this r1 other (λ e. ne (sym e)))
          ∙ ap (λ (l : List ℕ). with_copy l (s other) r2) b1
          ∙ ap (with_copy (freed mem.live (s this)) (s other))
              (sym (at_this (update s this r1) this r2)),
    )

abbrev moved : Store StringRef → ℕ → ℕ → Store StringRef
moved s this other =
    update (update s this (s other)) other (record { from_literal = false; str = 0 })

moved_this :
    (s : Store StringRef) (this other : ℕ) → this ≢ other → moved s this other this ≡ s other
moved_this s this other ne = ground arith

moved_other : (s : Store StringRef) (this other : ℕ) → (moved s this other other).str ≡ 0
moved_other s this other = ground arith

moved_elsewhere :
    (s : Store StringRef) (this other q : ℕ) → q ≢ this → q ≢ other → moved s this other q ≡ s q
moved_elsewhere s this other q nt nother = ground arith

AreOwned-moved :
    (mem : Memory) (s : Store StringRef) (this other : ℕ)
    → this ≢ other
    → AreOwned mem s
    → AreOwned mem (moved s this other)
AreOwned-moved mem s this other ne w = record {
  valid = λ q. ground (arith, w.valid q, w.valid other);
  separate = λ q r a b n e. ground (arith, w.separate q r, w.separate other r, w.separate q other);
}

-- Where every string is null, a literal or a block in use that no other string owns, after `operator =( string_ref&& )` between different objects this
-- one holds what the other one
-- held, the other one is null, every further object holds what it held, and no block has two
-- owners. The blocks in use are those of before without the one that this object owned.
pub move_assign_lem :
    (mem : Memory) (s : Store StringRef) (this other : ℕ)
    → this ≢ other
    → AreOwned mem s
    → (mem' : Memory) × (s' : Store StringRef) × (move_assign mem s this other ≡ ok (mem', s'))
      × AreOwned mem' s'
      × (c_str mem' (s' this) ≡ c_str mem (s other))
      × ((s' other).str ≡ 0)
      × ((q : ℕ) → q ≢ this → q ≢ other → c_str mem' (s' q) ≡ c_str mem (s q))
      × (mem'.live ≡ freed mem.live (s this))
unfolding move_assign
move_assign_lem mem s this other ne w =
    let (mem1, r1, e1, w1, t1, l1, b1) = release_lem mem s this w in
    (
      mem1,
      moved (update s this r1) this other,
      rw (e1) refl,
      AreOwned-moved mem1 (update s this r1) this other ne w1,
      ap (c_str mem1) (moved_this (update s this r1) this other ne)
          ∙ released_other mem s this mem1 r1 w w1 t1 other (λ e. ne (sym e)),
      moved_other (update s this r1) this other,
      λ q nt nother.
          ap (c_str mem1) (moved_elsewhere (update s this r1) this other q nt nother)
          ∙ released_other mem s this mem1 r1 w w1 t1 q nt,
      b1,
    )

-- A copy to itself of an object that holds no literal, where no block has two owners, succeeds
-- but loses the string: the object then reads as empty.
pub copy_assign_self :
    (malloc : List ℕ → ℕ) (mem : Memory) (s : Store StringRef) (this : ℕ)
    → AreOwned mem s
    → (s this).from_literal ≡ false
    → (mem' : Memory) × (s' : Store StringRef) × (copy_assign malloc mem s this this
        ≡ ok (mem', s'))
      × (c_str mem' (s' this) ≡ ok [])
unfolding copy_assign release_str copy_of duplicate_str c_str
copy_assign_self malloc mem s this w own = elim (w.valid this) [
  | inl null ↦ (mem, update (update s this (s this)) this lost, ground arith, ground arith)
  | inr (inl literal) ↦ absurd (ground arith)
  | inr (inr owned) ↦ elim (lt_or_ge 0 (s this).str) [
    | inl some_str ↦ (
      record mem { live = erase (s this).str mem.live },
      update (update s this (record (s this) { str = 0 })) this lost,
      ground arith,
      ground arith,
    )
    | inr null ↦ (mem, update (update s this (s this)) this lost, ground arith, ground arith)
  ]
]
  where
    lost : StringRef
    lost = record { from_literal = false; str = 0 }

-- If `malloc` gives fresh blocks, a string constructed from readable characters holds them and is empty if they are, and its
-- destruction leaves the blocks there were.
pub destruct-construct :
    (malloc : List ℕ → ℕ) (mem : Memory) (chars : ℕ)
    → IsMalloc malloc
    → chars ≢ 0
    → is_readable mem chars ≡ true
    → (mem' : Memory) × (r : StringRef) × (mem2 : Memory) × (construct malloc mem chars
        ≡ ok (mem', r))
      × (c_str mem' r ≡ ok (mem.text chars))
      × (is_empty mem' r ≡ is_empty mem (record { from_literal = true; str = chars }))
      × (destruct mem' r ≡ ok mem2)
      × (mem2.live ≡ mem.live)
unfolding construct duplicate_str destruct release_str c_str is_empty
destruct-construct malloc mem chars ma nz readable = (
  copied mem chars (malloc mem.live),
  record { from_literal = false; str = malloc mem.live },
  record (copied mem chars (malloc mem.live)) { live = mem.live },
  ground arith,
  ground (arith, ma.not_null mem.live),
  ground (arith, ma.not_null mem.live),
  ground (arith, ma.not_null mem.live),
  refl,
)
