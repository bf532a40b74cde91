-- ===== src/Stack/Pointers/Laws.antt =====
-- Who owns the arrays of addresses.
use nodecpp_foundation.Base.{
  ℕ, ◌*◌, List, [], ◌∷◌, ◌≡◌, ◌≢◌, ◌⊎◌, refl, ap, sym, subst, ◌∙◌, arith, inl, inr,
}
use nodecpp_foundation.Base.{true, false, leb, ◌==◌, if◌then◌else◌, Bool-cases}
use nodecpp_foundation.Base.Lists.{elem, erase, put, length, take, elem-erase}
use nodecpp_foundation.Base.Outcome.{ok, throws, dangling_read}
use nodecpp_foundation.Base.Store.{Store, update}
use nodecpp_foundation.Stack.Pointers.{
  StackPointers, Heap, in_heap, free, read, release, move_assign, init, copy_assign,
}

-- `malloc` gives no block that is in use; it may give none.
abbrev pub IsFresh : (List ℕ → ℕ → ℕ) → Type 0
IsFresh malloc = (live : List ℕ) (n : ℕ) → elem (malloc live n) live ≡ false

-- The object holds `n` words that are its own, or nothing.
pub record Owns (heap : Heap) (sp : StackPointers) : Type 0 where
  pub held : (sp.ptrs ≡ 0) ⊎ (elem sp.ptrs heap.live ≡ true)
  pub counted : sp.ptrs ≢ 0 → length (heap.words sp.ptrs) ≡ sp.cnt
  pub none : sp.ptrs ≡ 0 → sp.cnt ≡ 0
  pub some : sp.ptrs ≢ 0 → sp.cnt ≢ 0

-- The addresses that an object gives to its user
abbrev pub contents : Heap → StackPointers → List ℕ
contents heap sp = if sp.ptrs == 0 then [] else heap.words sp.ptrs

pub take-length : (ws : List ℕ) → take (length ws) ws ≡ ws
take-length [] = refl
take-length (w ∷ ws) = ap (λ t. w ∷ t) (take-length ws)

pub neq : {n : ℕ} → n ≢ 0 → (n == 0) ≡ false
neq ne = ground (arith, ne)

pub eq_refl : (n : ℕ) → (n == n) ≡ true
eq_refl n = ground arith

pub not_eq : {m n : ℕ} → m ≢ n → (m == n) ≡ false
not_eq ne = ground (arith, ne)

pub true-false : true ≢ false
true-false e = cc

is_held : (p : ℕ) (live : List ℕ) → (p ≡ 0) ⊎ (elem p live ≡ true) → p ≢ 0 → elem p live ≡ true
is_held p live (inl nothing) some = absurd (some nothing)
is_held p live (inr there) some = there

-- What an object leaves when it gives up its array
pub after : Heap → StackPointers → Heap
after heap sp = if sp.ptrs == 0 then heap else record heap { live = erase sp.ptrs heap.live }

pub release-Owns :
    (heap : Heap) (sp : StackPointers) → Owns heap sp → release heap sp ≡ ok (after heap sp)
unfolding release free after
release-Owns heap sp owns = elim (owns.held) [
  | inl nothing ↦ rw (release, nothing) refl
  | inr live ↦ ground (arith, live)
]

after-live :
    (heap : Heap) (sp : StackPointers) (p : ℕ)
    → p ≢ sp.ptrs
    → elem p heap.live ≡ true
    → elem p (after heap sp).live ≡ true
unfolding after
after-live heap sp p ne live = ground (arith, live, elem-erase sp.ptrs p heap.live ne live)

after-words : (heap : Heap) (sp : StackPointers) → (after heap sp).words ≡ heap.words
unfolding after
after-words heap sp = ground arith

-- `init` with an array of the heap that the release leaves
pub init-in_heap :
    (malloc : List ℕ → ℕ → ℕ) (heap h : Heap) (sp : StackPointers) (p n : ℕ)
    → release heap sp ≡ ok h
    → malloc h.live (8 * n) ≢ 0
    → n ≢ 0
    → elem p h.live ≡ true
    → length (h.words p) ≡ n
    → init malloc heap sp (in_heap p) n
      ≡ ok (
        record {
          live = malloc h.live (8 * n) ∷ h.live;
          words = put h.words (malloc h.live (8 * n)) (h.words p);
        },
        record { ptrs = malloc h.live (8 * n); cnt = n },
      )
unfolding init read
init-in_heap malloc heap h sp p n is given some live long =
    let nonzero : (n == 0) ≡ false = ground (arith, some) in
    let room : (malloc h.live (8 * n) == 0) ≡ false = ground (arith, given) in
    let whole : leb n (length (h.words p)) ≡ true = ground (arith, long) in
    let same : take n (h.words p) ≡ h.words p =
      ap (λ (k : ℕ). take k (h.words p)) (sym long) ∙ take-length (h.words p) in
    rw (init, is) (rw (nonzero, room) (rw (read, live, whole) (rw same refl)))

-- An object that is assigned to itself, and holds addresses, reads the array that it has just freed.
pub copy_assign_self :
    (malloc : List ℕ → ℕ → ℕ) (heap : Heap) (s : Store StackPointers) (d : ℕ)
    → Owns heap (s d)
    → (s d).ptrs ≢ 0
    → elem ((s d).ptrs) (erase ((s d).ptrs) heap.live) ≡ false
    → malloc (erase ((s d).ptrs) heap.live) (8 * (s d).cnt) ≢ 0
    → copy_assign malloc heap s d d ≡ throws dangling_read
unfolding copy_assign after init read
copy_assign_self malloc heap s d owns held once given =
    let nonzero : ((s d).cnt == 0) ≡ false = ground (arith, owns.some held) in
    let is : after heap (s d) ≡ record heap { live = erase (s d).ptrs heap.live } =
      rw (after, neq held) refl in
    let room : (malloc (erase (s d).ptrs heap.live) (8 * (s d).cnt) == 0) ≡ false =
      ground (arith, given) in
    rw (copy_assign, init, release-Owns heap (s d) owns ∙ ap ok is)
      (rw (nonzero, room) (rw (read, once) refl))

-- The heap with another block, and the object that holds it
unfoldable pub added : Heap → ℕ → List ℕ → Heap
added h q ws = record { live = q ∷ h.live; words = put h.words q ws }

added-Owns_new :
    (h : Heap) (q : ℕ) (ws : List ℕ)
    → q ≢ 0
    → length ws ≢ 0
    → Owns (added h q ws) (record { ptrs = q; cnt = length ws })
unfolding added
added-Owns_new h q ws given some = record {
  held = inr (ground arith);
  counted = λ e. ground arith;
  none = λ e. absurd (given e);
  some = λ e. some;
}

added-contents :
    (h : Heap) (sp : StackPointers) (q : ℕ) (ws : List ℕ)
    → elem q h.live ≡ false
    → elem sp.ptrs h.live ≡ true
    → (added h q ws).words sp.ptrs ≡ h.words sp.ptrs
unfolding added
added-contents h sp q ws new live = elim (Bool-cases (sp.ptrs == q)) [
  | inl same ↦
      let there : sp.ptrs ≡ q = ground (arith, same) in
      absurd (true-false (sym live ∙ ap (λ p. elem p h.live) there ∙ new))
  | inr other ↦ rw other refl
]

-- Two objects that hold what one held in an earlier heap, each in a block of its own
pub record Copied (heap : Heap) (src : StackPointers) (h : Heap) (a b : StackPointers)
    : Type 0 where
  pub copy : contents h a ≡ contents heap src
  pub kept : contents h b ≡ contents heap src
  pub apart : a.ptrs ≢ b.ptrs
  pub owns_copy : Owns h a
  pub owns_kept : Owns h b

added-Copied :
    (heap h : Heap) (o : StackPointers) (q : ℕ)
    → h.words ≡ heap.words
    → Owns heap o
    → o.ptrs ≢ 0
    → elem o.ptrs h.live ≡ true
    → q ≢ 0
    → elem q h.live ≡ false
    → Copied heap o (added h q (h.words o.ptrs)) (record { ptrs = q; cnt = o.cnt }) o
unfolding added
added-Copied heap h o q words owns held live given new =
    let same : h.words o.ptrs ≡ heap.words o.ptrs = ap (λ (f : ℕ → List ℕ). f o.ptrs) words in
    let long : length (h.words o.ptrs) ≡ o.cnt = ap length same ∙ owns.counted held in
    let old : (added h q (h.words o.ptrs)).words o.ptrs ≡ h.words o.ptrs =
      added-contents h o q (h.words o.ptrs) new live in
    record {
      copy = rw (neq given, neq held) (rw (eq_refl q) same);
      kept = rw (neq held) (old ∙ same);
      apart = λ e. true-false (sym live ∙ ap (λ p. elem p h.live) (sym e) ∙ new);
      owns_copy =
          subst (λ (n : ℕ). Owns (added h q (h.words o.ptrs)) (record { ptrs = q; cnt = n })) long
            (added-Owns_new h q (h.words o.ptrs) given (λ e. owns.some held (sym long ∙ e)));
      owns_kept = record {
        held = inr (ground (arith, live));
        counted = λ e. ap length old ∙ long;
        none = owns.none;
        some = owns.some;
      };
    }

-- An object that holds addresses is assigned to an object with an array of its own, by a `malloc` that gives a
-- new block: both then hold the same addresses, each in a block that is its own, and the source is as it was.
pub copy_assign-Copied :
    (malloc : List ℕ → ℕ → ℕ) (heap : Heap) (s : Store StackPointers) (d o : ℕ)
    → IsFresh malloc
    → ((live : List ℕ) (n : ℕ) → malloc live n ≢ 0)
    → Owns heap (s d)
    → Owns heap (s o)
    → (s d).ptrs ≢ (s o).ptrs
    → (s o).ptrs ≢ 0
    → (h : Heap) × (t : Store StackPointers) × (copy_assign malloc heap s d o ≡ ok (h, t))
      × (t o ≡ s o)
      × Copied heap (s o) h (t d) (t o)
unfolding copy_assign added
copy_assign-Copied malloc heap s d o fresh gives od oo apart held =
    let h = after heap (s d) in
    let q = malloc h.live (8 * (s o).cnt) in
    let there : elem (s o).ptrs heap.live ≡ true = is_held (s o).ptrs heap.live (oo.held) held in
    let live = after-live heap (s d) (s o).ptrs (λ e. apart (sym e)) there in
    let words = after-words heap (s d) in
    let long : length (h.words (s o).ptrs) ≡ (s o).cnt =
      ap (λ (f : ℕ → List ℕ). length (f (s o).ptrs)) words ∙ oo.counted held in
    let done =
      init-in_heap malloc heap h (s d) (s o).ptrs (s o).cnt (release-Owns heap (s d) od)
        (gives h.live (8 * (s o).cnt)) (oo.some held) live long in
    let sp : StackPointers = record { ptrs = q; cnt = (s o).cnt } in
    let both =
      added-Copied heap h (s o) q words oo held live (gives h.live (8 * (s o).cnt))
        (fresh h.live (8 * (s o).cnt)) in
    let apart_at : (o == d) ≡ false = not_eq (λ e. apart (ap (λ p. (s p).ptrs) (sym e))) in
    (
      added h q (h.words (s o).ptrs),
      update s d sp,
      rw (copy_assign, done) refl,
      rw apart_at refl,
      rw (apart_at, eq_refl d) both,
    )

-- A move assignment to an object that alone holds an array leaves the array with no object, whatever object is
-- moved, the same one included; nothing has freed it.
pub move_assign-leaks :
    (s : Store StackPointers) (d o : ℕ)
    → (s d).ptrs ≢ 0
    → ((q : ℕ) → (s q).ptrs ≡ (s d).ptrs → q ≡ d)
    → (q : ℕ) → (move_assign s d o q).ptrs ≢ (s d).ptrs
unfolding move_assign
move_assign-leaks s d o held alone q e = elim (Bool-cases (q == o)) [
  | inl at_o ↦ held (sym e ∙ rw at_o refl)
  | inr other ↦ elim (Bool-cases (q == d)) [
    | inl at_d ↦
        let value : (move_assign s d o q).ptrs ≡ (s o).ptrs = rw (move_assign, other, at_d) refl in
        let one : o ≡ d = alone o (sym value ∙ e) in
        true-false (sym (eq_refl q) ∙ ground (arith, other, at_d, one))
    | inr apart ↦
        let value : (move_assign s d o q).ptrs ≡ (s q).ptrs = rw (move_assign, other, apart) refl in
        let one : q ≡ d = alone q (sym value ∙ e) in true-false (ground (arith, apart, one))
  ]
]
