-- ===== src/TaggedPtr/PtrPtr/Refine/Getters.antt =====
-- The getters of both structs, on a live object and after any mutations.
use nodecpp_foundation.Base.{◌<◌}
use nodecpp_foundation.Base.{◌≡◌, arith}
use nodecpp_foundation.Base.Words.{shl-one}
use native.Mathlib.Nat.{one-le-pow}
use nodecpp_foundation.TaggedPtr.PtrPtr.Optimized
use nodecpp_foundation.TaggedPtr.PtrPtr.Optimized.{
  Config, IsConfig, zombie_indicator, allocptr_mask,
}
use nodecpp_foundation.TaggedPtr.PtrPtr.Generic
use nodecpp_foundation.TaggedPtr.PtrPtr.Refine.{
  Represents, Op, IsAddress, IsAllocation, ArePermitted, run_generic, run_optimized,
}
use nodecpp_foundation.TaggedPtr.PtrPtr.Refine.Steps.{init-agrees, run-Represents}
use nodecpp_foundation.Base.Outcome.{ok}
use nodecpp_foundation.Base.{ℕ, List, ◌∷◌, ◌≤◌, ltb, ◌&&◌}

module _ (c : Config) (cfg : IsConfig c) where
  open c use {lower}

  mark_pos : 0 < zombie_indicator c
  mark_pos = ground (arith, shl-one lower, one-le-pow lower 2, cfg)

  -- What the getters of both structs give a client
  abbrev pub GettersAgree : Generic.Tagged → Optimized.Tagged → Type 0
  GettersAgree g o =
      (Optimized.is_zombie c o ≡ Generic.is_zombie c g)
      × (Optimized.get_ptr c o ≡ Generic.get_ptr c g)
      × (Optimized.get_dereferencable_ptr c o ≡ Generic.get_dereferencable_ptr c g)
      × (Optimized.get_allocated_ptr c o ≡ Generic.get_allocated_ptr c g)
      × (Optimized.get_dereferencable_allocated_ptr c o
          ≡ Generic.get_dereferencable_allocated_ptr c g)
      × (Optimized.get_data c o ≡ Generic.get_data c g)
      × ((pos : ℕ)
          → (ltb pos c.nflags && Optimized.has_flag c pos o)
            ≡ (ltb pos c.nflags && Generic.has_flag c pos g))

  getters_agree : (g : Generic.Tagged) (o : Optimized.Tagged) → Represents c g o → GettersAgree g o
  unfolding Optimized.is_zombie Optimized.get_ptr Optimized.get_dereferencable_ptr
      Optimized.get_allocated_ptr Optimized.get_dereferencable_allocated_ptr Generic.is_zombie
      Generic.get_ptr Generic.get_dereferencable_ptr Generic.get_allocated_ptr
      Generic.get_dereferencable_allocated_ptr Generic.get_data
  getters_agree g o r = (
    ground (arith, r.same_ptr, r.live, r.above_mark, mark_pos),
    ground (arith, r.same_ptr, r.live, r.above_mark, mark_pos),
    ground (arith, r.same_ptr, r.live, r.above_mark, mark_pos),
    ground (arith, r.same_ptr, r.same_allocptr, r.live, r.above_mark, mark_pos),
    ground (arith, r.same_ptr, r.same_allocptr, r.live, r.above_mark, mark_pos),
    r.same_data,
    r.same_flags,
  )

  -- Whatever the two objects were, after `init` and any mutations, each with permitted arguments, both have passed every
  -- assertion, and they agree on being no zombie, on both pointers, also when they are dereferenced, on the data and
  -- on every flag.
  pub run-GettersAgree :
      (g : Generic.Tagged) (o : Optimized.Tagged) (p a d : ℕ) (ops : List Op)
      → IsAddress c p
      → IsAllocation c a
      → d ≤ Optimized.max_data c
      → ArePermitted c ops
      → (g' : Generic.Tagged) × (o' : Optimized.Tagged) × (run_generic c (Op.init p a d ∷ ops) g
          ≡ ok g')
        × (run_optimized c (Op.init p a d ∷ ops) o ≡ ok o')
        × GettersAgree g' o'
  unfolding run_generic run_optimized
  run-GettersAgree g o p a d ops hp ha hd h =
      let (g₁, o₁, eg, eo, r₁) = init-agrees c cfg g o p a d hp ha hd in
      let (g₂, o₂, fg, fo, r₂) = run-Represents c cfg ops g₁ o₁ r₁ h in
      (g₂, o₂, rw (eg, run_generic) fg, rw (eo, run_optimized) fo, getters_agree g₂ o₂ r₂)
