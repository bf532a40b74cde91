-- ===== src/TaggedPtr/Zombie/Refine.antt =====
-- The two structs give a client the same replies but for one exception, on objects that share and exchange pointers.
use nodecpp_foundation.Base.{
  Bool, not, ◌&&◌, ℕ, ◌<◌, ◌≢◌, ◌⊎◌, inl, inr, true, false, ◌==◌, Bool-cases, if◌then◌else◌,
}
use nodecpp_foundation.Base.{◌≡◌, refl, arith, List, [], ◌∷◌}
use nodecpp_foundation.Base.Words.{shl}
use nodecpp_foundation.Base.Store.{Store, update}
use nodecpp_foundation.Base.Outcome.{ok, throws, assertion_failed, zombie_access}
use nodecpp_foundation.TaggedPtr.Zombie.{Op, Reply, failed, step, run}
use nodecpp_foundation.TaggedPtr.Zombie.Generic
use nodecpp_foundation.TaggedPtr.Zombie.Optimized
use nodecpp_foundation.TaggedPtr.Zombie.Optimized.{zombie_indicator}

-- Both zombies, or both live with one pointer that is null or above the mark.
abbrev pub Represents : Generic.Ptr → Optimized.Ptr → Type 0
Represents g o =
    ((g.zombie ≡ true) × (o.ptr ≡ zombie_indicator))
    ⊎ ((g.zombie ≡ false) × (o.ptr ≡ g.ptr) × ((g.ptr ≡ 0) ⊎ (zombie_indicator < g.ptr)))

abbrev pub AllRepresent : Store Generic.Ptr → Store Optimized.Ptr → Type 0
AllRepresent s t = (q : ℕ) → Represents (s q) (t q)

-- An address that is initialised is null or above the mark, and no object is moved into itself.
abbrev pub IsPermitted : Op → Type 0
IsPermitted (Op.init d a) = (a ≡ 0) ⊎ (zombie_indicator < a)
IsPermitted (Op.reset d) = Unit {0}
IsPermitted (Op.set_zombie d) = Unit {0}
IsPermitted (Op.is_zombie d) = Unit {0}
IsPermitted (Op.get_dereferencable_ptr d) = Unit {0}
IsPermitted (Op.get_ptr d) = Unit {0}
IsPermitted (Op.copy_from d e) = Unit {0}
IsPermitted (Op.move_from d e) = d ≢ e
IsPermitted (Op.swap d e) = Unit {0}

abbrev pub ArePermitted : List Op → Type 0
ArePermitted [] = Unit {0}
ArePermitted (op ∷ ops) = IsPermitted op × ArePermitted ops

mark_pos : 0 < zombie_indicator
unfolding shl
mark_pos = omega arith

AllRepresent-update :
    (s : Store Generic.Ptr) (t : Store Optimized.Ptr) (d : ℕ) (g : Generic.Ptr) (o : Optimized.Ptr)
    → AllRepresent s t
    → Represents g o
    → AllRepresent (update s d g) (update t d o)
AllRepresent-update s t d g o h r q = elim (Bool-cases (q == d)) [
  | inl same ↦ rw same r
  | inr differ ↦ rw differ (h q)
]

-- A copy, move or swap of a live object whose source is a zombie
abbrev pub is_source_alone : Op → Store Generic.Ptr → Bool
is_source_alone (Op.init d a) s = false
is_source_alone (Op.reset d) s = false
is_source_alone (Op.set_zombie d) s = false
is_source_alone (Op.is_zombie d) s = false
is_source_alone (Op.get_dereferencable_ptr d) s = false
is_source_alone (Op.get_ptr d) s = false
is_source_alone (Op.copy_from d e) s = not (s d).zombie && (s e).zombie
is_source_alone (Op.move_from d e) s = not (s d).zombie && (s e).zombie
is_source_alone (Op.swap d e) s = not (s d).zombie && (s e).zombie

-- The replies to one call: there the generic struct fails its own assertion and the optimized one throws zombie
-- access, and everywhere else they are the same.
abbrev pub RepliesAgree : Bool → Reply → Reply → Type 0
RepliesAgree true g o = (g ≡ failed assertion_failed) × (o ≡ failed zombie_access)
RepliesAgree false g o = g ≡ o

-- The replies to the calls `ops` on the generic objects `s`, one by one
abbrev pub AllAgree : List Op → Store Generic.Ptr → List Reply → List Reply → Type 0
AllAgree [] s gs os = (gs ≡ []) × (os ≡ [])
AllAgree (op ∷ ops) s gs os =
    (g o : Reply) × (gs' os' : List Reply) × (gs ≡ g ∷ gs')
    × (os ≡ o ∷ os')
    × RepliesAgree (is_source_alone op s) g o
    × AllAgree ops (step Generic.pointers op s).1 gs' os'

-- The replies agree, and the objects afterwards represent one another.
abbrev StepsAgree : Op → Store Generic.Ptr → Store Optimized.Ptr → Type 0
StepsAgree op s t =
    RepliesAgree (is_source_alone op s) (step Generic.pointers op s).0
      (step Optimized.pointers op t).0
    × AllRepresent (step Generic.pointers op s).1 (step Optimized.pointers op t).1

module _ (s : Store Generic.Ptr) (t : Store Optimized.Ptr) (h : AllRepresent s t) where
  guards_agree :
      (d e : ℕ)
      → (not ((t d).ptr == zombie_indicator) && not ((t e).ptr == zombie_indicator))
        ≡ (not (s d).zombie && not (s e).zombie)
  guards_agree d e = ground (arith, h d, h e, mark_pos)

  both_live :
      (d e : ℕ)
      → (not (s d).zombie && not (s e).zombie) ≡ true
      → (not (s d).zombie && (s e).zombie) ≡ false
  both_live d e live = ground (arith, live)

  source_dead :
      (d e : ℕ)
      → (not (s d).zombie && not (s e).zombie) ≡ false
      → (s d).zombie ≡ false
      → (s e).zombie ≡ true
  source_dead d e dead there = ground (arith, dead, there)

  live_both :
      (d e : ℕ)
      → (not (s d).zombie && not (s e).zombie) ≡ true
      → Represents (record (s d) { ptr = (s e).ptr }) (record { ptr = (t e).ptr })
  live_both d e live = ground (arith, h d, h e, mark_pos)

  -- The objects after the first of the two writes of a move or a swap.
  moved : (d e : ℕ) → Store Generic.Ptr
  moved d e = update s d (record (s d) { ptr = (s e).ptr })

  live_null :
      (d e : ℕ)
      → (not (s d).zombie && not (s e).zombie) ≡ true
      → Represents (record (moved d e e) { ptr = 0 }) (record { ptr = 0 })
  unfolding moved
  live_null d e live = ground (arith, h e)

  live_back :
      (d e : ℕ)
      → (not (s d).zombie && not (s e).zombie) ≡ true
      → Represents (record (moved d e e) { ptr = (s d).ptr }) (record { ptr = (t d).ptr })
  unfolding moved
  live_back d e live = ground (arith, h d, h e, mark_pos)

  optimized_move :
      (d e : ℕ)
      → d ≢ e
      → Optimized.move_from t d e ≡ (
          if not ((t d).ptr == zombie_indicator) && not ((t e).ptr == zombie_indicator)
          then ok (update (update t d (record { ptr = (t e).ptr })) e (record { ptr = 0 }))
          else throws zombie_access)
  unfolding Optimized.move_from
  optimized_move d e ne = rw apart
    where
      apart : (e == d) ≡ false
      apart = ground arith

  step-agrees : (op : Op) → IsPermitted op → StepsAgree op s t
  unfolding step Generic.init Optimized.init Generic.reset Optimized.reset Generic.set_zombie
      Optimized.set_zombie Generic.is_zombie Optimized.is_zombie
  step-agrees (Op.init d a) p = (refl, AllRepresent-update s t d _ _ h (inr (refl, refl, p)))
  step-agrees (Op.reset d) p = (refl, AllRepresent-update s t d _ _ h (inr (refl, refl, inl refl)))
  step-agrees (Op.set_zombie d) p = (refl, AllRepresent-update s t d _ _ h (inl (refl, refl)))
  step-agrees (Op.is_zombie d) p = (ground (arith, h d, mark_pos), h)
  step-agrees (Op.get_dereferencable_ptr d) p = (
    unfold Generic.get_dereferencable_ptr Optimized.get_dereferencable_ptr in
        ground (arith, h d, mark_pos),
    h,
  )
  step-agrees (Op.get_ptr d) p =
      (unfold Generic.get_ptr Optimized.get_ptr in ground (arith, h d, mark_pos), h)
  step-agrees (Op.copy_from d e) p = elim (Bool-cases (not (s d).zombie && not (s e).zombie)) [
    | inl live ↦
        unfold Generic.copy_from Optimized.copy_from in
        rw (live, guards_agree d e, live, both_live d e live)
          (refl, AllRepresent-update s t d _ _ h (live_both d e live))
    | inr dead ↦ elim (Bool-cases (s d).zombie) [
      | inl here ↦
          unfold Generic.copy_from Optimized.copy_from in
          rw (guards_agree d e, dead, here) (refl, h)
      | inr there ↦
          unfold Generic.copy_from Optimized.copy_from in
          rw (guards_agree d e, dead, there, source_dead d e dead there) ((refl, refl), h)
    ]
  ]
  step-agrees (Op.move_from d e) p = elim (Bool-cases (not (s d).zombie && not (s e).zombie)) [
    | inl live ↦
        unfold Generic.move_from moved in
        rw (optimized_move d e p, live, guards_agree d e, live, both_live d e live)
          (
            refl,
            AllRepresent-update _ _ e _ _ (AllRepresent-update s t d _ _ h (live_both d e live))
                (live_null d e live),
          )
    | inr dead ↦ elim (Bool-cases (s d).zombie) [
      | inl here ↦
          unfold Generic.move_from in
          rw (optimized_move d e p, guards_agree d e, dead, here) (refl, h)
      | inr there ↦
          unfold Generic.move_from in
          rw (optimized_move d e p, guards_agree d e, dead, there, source_dead d e dead there)
            ((refl, refl), h)
    ]
  ]
  step-agrees (Op.swap d e) p = elim (Bool-cases (not (s d).zombie && not (s e).zombie)) [
    | inl live ↦
        unfold Generic.swap Optimized.swap moved in
        rw (live, guards_agree d e, live, both_live d e live)
          (
            refl,
            AllRepresent-update _ _ e _ _ (AllRepresent-update s t d _ _ h (live_both d e live))
                (live_back d e live),
          )
    | inr dead ↦ elim (Bool-cases (s d).zombie) [
      | inl here ↦ unfold Generic.swap Optimized.swap in rw (guards_agree d e, dead, here) (refl, h)
      | inr there ↦
          unfold Generic.swap Optimized.swap in
          rw (guards_agree d e, dead, there, source_dead d e dead there) ((refl, refl), h)
    ]
  ]

-- On objects that represent one another, the two structs give the same replies, exceptions included, to every
-- sequence of calls that initialises with null or an address above the mark and moves no object into itself, but for
-- one: a copy, move or swap of a live object whose source is a zombie fails an assertion in the generic struct and
-- throws zombie access in the optimized one. The calls after it agree again.
pub run-agrees :
    (ops : List Op) (s : Store Generic.Ptr) (t : Store Optimized.Ptr)
    → AllRepresent s t
    → ArePermitted ops
    → AllAgree ops s (run Generic.pointers ops s) (run Optimized.pointers ops t)
unfolding run
run-agrees [] s t h p = (refl, refl)
run-agrees (op ∷ ops) s t h p =
    let (same, related) = step-agrees s t h op p.0 in
    (_, _, _, _, refl, refl, same, run-agrees ops _ _ related p.1)

-- A move of a live object into itself: the generic struct loses the pointer, the optimized one
-- changes nothing.
pub move_from_self :
    (s : Store Generic.Ptr) (t : Store Optimized.Ptr) (d q : ℕ)
    → (s d).zombie ≡ false
    → (s' : Store Generic.Ptr) × (Generic.move_from s d d ≡ ok s')
      × ((s' q).ptr ≡ (if q == d then 0 else (s q).ptr))
      × (Optimized.move_from t d d ≡ ok t)
unfolding Generic.move_from Optimized.move_from
move_from_self s t d q live = (
  update (update s d (record (s d) { ptr = (s d).ptr })) d
      (record (update s d (record (s d) { ptr = (s d).ptr }) d) { ptr = 0 }),
  ground (arith, live),
  ground arith,
  ground arith,
)

-- A copy, move or swap whose source alone is a zombie: the generic struct fails its own assertion,
-- the optimized one throws zombie access.
pub source_zombie :
    (s : Store Generic.Ptr) (t : Store Optimized.Ptr) (d e : ℕ)
    → (s d).zombie ≡ false
    → (s e).zombie ≡ true
    → (t e).ptr ≡ zombie_indicator
    → d ≢ e
    → (Generic.copy_from s d e ≡ throws assertion_failed)
      × (Generic.move_from s d e ≡ throws assertion_failed)
      × (Generic.swap s d e ≡ throws assertion_failed)
      × (Optimized.copy_from t d e ≡ throws zombie_access)
      × (Optimized.move_from t d e ≡ throws zombie_access)
      × (Optimized.swap t d e ≡ throws zombie_access)
unfolding Generic.copy_from Generic.move_from Generic.swap Optimized.copy_from Optimized.move_from
    Optimized.swap
source_zombie s t d e live dead mark ne =
    (ground arith, ground arith, ground arith, ground arith, ground arith, ground arith)
