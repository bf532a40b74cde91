-- ===== src/TaggedPtr/PtrPtr/Refine/Steps.antt =====
-- Every permitted mutation succeeds on both structs and keeps `Represents`.
use nodecpp_foundation.Base.{ℕ, ◌≤◌, ◌<◌, bit, bit_and, false}
use nodecpp_foundation.Base.{ap, ◌∙◌, ◌≡◌, refl, arith, List, [], ◌∷◌}
use nodecpp_foundation.Base.{bit-zero}
use nodecpp_foundation.TaggedPtr.Layout.{any_ptr_value_bits_mask}
use nodecpp_foundation.Base.Outcome.{ok}
use nodecpp_foundation.TaggedPtr.PtrPtr.Optimized
use nodecpp_foundation.TaggedPtr.PtrPtr.Optimized.{
  Config, IsConfig, zombie_indicator, allocptr_mask,
}
use nodecpp_foundation.TaggedPtr.PtrPtr.Optimized.Digits.{
  get_data-store_data, ptr-store_data, allocptr-store_data, flag-store_data,
}
use nodecpp_foundation.TaggedPtr.PtrPtr.Optimized.Parts.{
  SameFlag-of_bit, max_data-lt, address_passes, address_kept, data_congr, allocated_passes,
  allocated_kept, aligned_digit, ptr_word, ptr_word-address, ptr_word-data, alloc_word,
  alloc_word-address, alloc_word-upper, alloc_word-middle, alloc_word-flag, set_word-digit,
  unset_word-digit, set_word-upper, unset_word-upper, set_word-middle, unset_word-middle,
  set_word-address, unset_word-address,
}
use nodecpp_foundation.TaggedPtr.PtrPtr.Generic
use nodecpp_foundation.TaggedPtr.PtrPtr.Refine.{
  Represents, Op, step_generic, step_optimized, IsPermitted, ArePermitted, IsAddress, IsAllocation,
  run_generic, run_optimized,
}
use nodecpp_foundation.TaggedPtr.PtrPtr.Refine.Digits.{
  max_data_same, generic_assertion, flags_of_digits, digits_of_flags, generic_set_digit,
  generic_unset_digit,
}

module _ (c : Config) (cfg : IsConfig c) where
  open c use {nflags}

  abbrev StepsAgree : Op → Generic.Tagged → Optimized.Tagged → Type 0
  StepsAgree op g o =
      (g' : Generic.Tagged) × (o' : Optimized.Tagged) × (step_generic c op g ≡ ok g')
      × (step_optimized c op o ≡ ok o')
      × Represents c g' o'

  module _ (g : Generic.Tagged) (o : Optimized.Tagged) (r : Represents c g o) where
    set_data-agrees : (d : ℕ) → d ≤ Optimized.max_data c → StepsAgree (Op.set_data d) g o
    unfolding step_generic step_optimized Generic.set_data Optimized.set_data Generic.has_flag
    set_data-agrees d h = (
      record g { payload = d },
      Optimized.store_data c o d,
      ground (arith, max_data_same c cfg),
      ground arith,
      record {
        live = r.live;
        above_mark = r.above_mark;
        same_ptr = ptr-store_data c cfg o d ∙ r.same_ptr;
        same_allocptr = allocptr-store_data c cfg o d ∙ r.same_allocptr;
        same_data = get_data-store_data c cfg o d (omega (arith, max_data-lt c cfg));
        same_flags = λ pos.
            SameFlag-of_bit c cfg pos (Optimized.store_data c o d) o
              (ground (arith, flag-store_data c cfg o d pos))
            ∙ r.same_flags pos;
      },
    )

    set_ptr-agrees : (p : ℕ) → IsAddress c p → StepsAgree (Op.set_ptr p) g o
    unfolding step_generic step_optimized Generic.set_ptr Optimized.set_ptr Generic.has_flag
        Optimized.has_flag
    set_ptr-agrees p h = (
      record g { ptr = p },
      record o { ptr = ptr_word c cfg o.ptr p },
      refl,
      ground (arith, address_passes c cfg p h.0),
      record {
        live = r.live;
        above_mark = h.1;
        same_ptr = ptr_word-address c cfg o.ptr p h.0;
        same_allocptr = r.same_allocptr;
        same_data = data_congr c cfg _ _ (ptr_word-data c cfg o.ptr p) refl refl ∙ r.same_data;
        same_flags = r.same_flags;
      },
    )

    set_allocated_ptr-agrees : (p : ℕ) → IsAllocation c p → StepsAgree (Op.set_allocated_ptr p) g o
    unfolding step_generic step_optimized Generic.set_allocated_ptr Optimized.set_allocated_ptr
        Generic.has_flag
    set_allocated_ptr-agrees p h = (
      record g { allocptr = p },
      record o { allocptr = alloc_word c cfg o.allocptr p },
      ground (arith, generic_assertion c cfg p h),
      ground (arith, allocated_passes c cfg p h),
      record {
        live = r.live;
        above_mark = r.above_mark;
        same_ptr = r.same_ptr;
        same_allocptr = alloc_word-address c cfg o.allocptr p h;
        same_data =
            data_congr c cfg _ _ refl (alloc_word-upper c cfg o.allocptr p)
              (alloc_word-middle c cfg o.allocptr p)
            ∙ r.same_data;
        same_flags = λ pos.
            SameFlag-of_bit c cfg pos _ o (alloc_word-flag c cfg o.allocptr p pos)
            ∙ r.same_flags pos;
      },
    )

    set_flag-agrees : (pos : ℕ) → pos < nflags → StepsAgree (Op.set_flag pos) g o
    unfolding step_generic step_optimized Generic.set_flag Optimized.set_flag
    set_flag-agrees pos h = (
      Generic.set_flag c pos g,
      Optimized.set_flag c pos o,
      refl,
      refl,
      record {
        live = r.live;
        above_mark = r.above_mark;
        same_ptr = r.same_ptr;
        same_allocptr = set_word-address c cfg o.allocptr pos h ∙ r.same_allocptr;
        same_data =
            data_congr c cfg _ _ refl (set_word-upper c cfg o.allocptr pos h)
              (set_word-middle c cfg o.allocptr pos h)
            ∙ r.same_data;
        same_flags = λ q.
            flags_of_digits c cfg (Generic.set_flag c pos g) (Optimized.set_flag c pos o) q (
              ground (
                arith,
                digits_of_flags c cfg g o q (r.same_flags q),
                generic_set_digit c cfg g.flags pos q h,
                set_word-digit c cfg o.allocptr pos h q,
                cfg,
              ));
      },
    )

    unset_flag-agrees : (pos : ℕ) → pos < nflags → StepsAgree (Op.unset_flag pos) g o
    unfolding step_generic step_optimized Generic.unset_flag Optimized.unset_flag
    unset_flag-agrees pos h = (
      Generic.unset_flag c pos g,
      Optimized.unset_flag c pos o,
      refl,
      refl,
      record {
        live = r.live;
        above_mark = r.above_mark;
        same_ptr = r.same_ptr;
        same_allocptr = unset_word-address c cfg o.allocptr pos h ∙ r.same_allocptr;
        same_data =
            data_congr c cfg _ _ refl (unset_word-upper c cfg o.allocptr pos h)
              (unset_word-middle c cfg o.allocptr pos h)
            ∙ r.same_data;
        same_flags = λ q.
            flags_of_digits c cfg (Generic.unset_flag c pos g) (Optimized.unset_flag c pos o) q (
              ground (
                arith,
                digits_of_flags c cfg g o q (r.same_flags q),
                generic_unset_digit c cfg g.flags pos q h,
                unset_word-digit c cfg o.allocptr pos h q,
                cfg,
              ));
      },
    )

  -- `init` on any objects, related or not
  pub init-agrees :
      (g : Generic.Tagged) (o : Optimized.Tagged) (p a d : ℕ)
      → IsAddress c p
      → IsAllocation c a
      → d ≤ Optimized.max_data c
      → StepsAgree (Op.init p a d) g o
  unfolding step_generic step_optimized Generic.init Optimized.init Optimized.set_data
  init-agrees g o p a d hp ha hd = (
    record { ptr = p; allocptr = a; payload = d; flags = 0; zombie = false },
    Optimized.store_data c fresh d,
    ground (arith, generic_assertion c cfg a ha, max_data_same c cfg),
    ground (arith, address_passes c cfg p hp.0, allocated_passes c cfg a ha),
    record {
      live = refl;
      above_mark = hp.1;
      same_ptr =
          ptr-store_data c cfg fresh d ∙ rw (address_kept c cfg p hp.0) (address_kept c cfg p hp.0);
      same_allocptr =
          allocptr-store_data c cfg fresh d
          ∙ rw (allocated_kept c cfg a ha) (allocated_kept c cfg a ha);
      same_data = get_data-store_data c cfg fresh d (omega (arith, max_data-lt c cfg));
      same_flags = λ q.
          flags_of_digits c cfg
            (record { ptr = p; allocptr = a; payload = d; flags = 0; zombie = false })
            (Optimized.store_data c fresh d) q
            (ground (
              arith,
              flag-store_data c cfg fresh d q,
              ap (λ (t : ℕ). bit t q) (allocated_kept c cfg a ha),
              aligned_digit c cfg a q ha,
              bit-zero q,
              cfg,
            ));
    },
  )
    where
      fresh : Optimized.Tagged
      fresh = record {
        ptr = bit_and p any_ptr_value_bits_mask;
        allocptr = bit_and a (allocptr_mask c);
      }

  -- A permitted mutation of related objects succeeds on both, and relates the results.
  pub step-Represents :
      (op : Op) (g : Generic.Tagged) (o : Optimized.Tagged)
      → Represents c g o
      → IsPermitted c op
      → StepsAgree op g o
  step-Represents (Op.set_data d) g o r h = set_data-agrees g o r d h
  step-Represents (Op.set_ptr p) g o r h = set_ptr-agrees g o r p h
  step-Represents (Op.set_allocated_ptr p) g o r h = set_allocated_ptr-agrees g o r p h
  step-Represents (Op.set_flag pos) g o r h = set_flag-agrees g o r pos h
  step-Represents (Op.unset_flag pos) g o r h = unset_flag-agrees g o r pos h
  step-Represents (Op.init p a d) g o r h = init-agrees g o p a d h.0 h.1 h.2

  -- From related objects any sequence of permitted mutations succeeds on both structs and ends in
  -- related objects.
  pub run-Represents :
      (ops : List Op) (g : Generic.Tagged) (o : Optimized.Tagged)
      → Represents c g o
      → ArePermitted c ops
      → (g' : Generic.Tagged) × (o' : Optimized.Tagged) × (run_generic c ops g ≡ ok g')
        × (run_optimized c ops o ≡ ok o')
        × Represents c g' o'
  unfolding run_generic run_optimized
  run-Represents [] g o r h = (g, o, refl, refl, r)
  run-Represents (op ∷ ops) g o r h =
      let (g₁, o₁, eg, eo, r₁) = step-Represents op g o r h.0 in
      let (g₂, o₂, fg, fo, r₂) = run-Represents ops g₁ o₁ r₁ h.1 in
      (g₂, o₂, rw (eg, run_generic) fg, rw (eo, run_optimized) fo, r₂)
