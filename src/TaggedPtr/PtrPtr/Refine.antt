-- ===== src/TaggedPtr/PtrPtr/Refine.antt =====
-- The two words of the optimized struct stand for the members of the generic one. `Represents` says
-- how, and `Op` names the mutations that a client may ask of either.
pub mod Getters
pub mod Digits
pub mod Steps
use nodecpp_foundation.Base.{
  ℕ, zero, suc, ◌-◌, ◌≤◌, ◌<◌, ◌%◌, ◌^◌, ◌≢◌, ◌⊎◌, bit, bit_and, bit_or, Bool, true, false, not,
  ◌&&◌, ◌||◌,
}
use nodecpp_foundation.Base.{ltb, leb, ◌==◌, if◌then◌else◌, ◌≡◌, refl, arith, List, [], ◌∷◌}
use nodecpp_foundation.Base.Words.{
  shl, ones, complement, test_bit, bit_laws, shl-one, bit-word_ones,
}
use native.Mathlib.Nat.{one-le-pow}
use nodecpp_foundation.Base.{bit-and, bit-or, bit-mod, bit-zero, bit_ext, bit_above}
use nodecpp_foundation.TaggedPtr.Layout.{any_ptr_value_bits_mask}
use nodecpp_foundation.Base.Outcome.{Outcome, ok, throws, zombie_access, zero_access, asserting}
use nodecpp_foundation.TaggedPtr.PtrPtr.Optimized
use nodecpp_foundation.TaggedPtr.PtrPtr.Optimized.{
  Config, IsConfig, zombie_indicator, allocptr_mask,
}
use nodecpp_foundation.TaggedPtr.PtrPtr.Optimized.Digits.{
  get_data-store_data, ptr-store_data, allocptr-store_data, flag-store_data,
}
use nodecpp_foundation.TaggedPtr.PtrPtr.Optimized.Parts.{
  SameFlag-of_bit, flag_bit, max_data-lt, address_passes, address_kept, data_congr,
  allocated_passes, allocated_kept, aligned_digit, IsAllocated, ptr_word, ptr_word-address,
  ptr_word-data, alloc_word, alloc_word-address, alloc_word-upper, alloc_word-middle,
  alloc_word-flag, set_word-digit, unset_word-digit, set_word-upper, unset_word-upper,
  set_word-middle, unset_word-middle, set_word-address, unset_word-address,
}
use nodecpp_foundation.TaggedPtr.PtrPtr.Generic

-- The optimized object `o` holds the live generic object `g`, whose pointer is null or above the mark.
pub record Represents (c : Config) (g : Generic.Tagged) (o : Optimized.Tagged) : Type 0 where
  pub live : g.zombie ≡ false
  pub above_mark : (g.ptr ≡ 0) ⊎ (zombie_indicator c < g.ptr)
  pub same_ptr : bit_and o.ptr any_ptr_value_bits_mask ≡ g.ptr
  pub same_allocptr : bit_and o.allocptr (allocptr_mask c) ≡ g.allocptr
  pub same_data : Optimized.get_data c o ≡ g.payload
  pub same_flags :
      (pos : ℕ)
      → (ltb pos c.nflags && Optimized.has_flag c pos o)
        ≡ (ltb pos c.nflags && Generic.has_flag c pos g)

-- A mutation that a client may ask for.
pub data Op : Type 0 where
  set_data : ℕ → Op
  set_ptr : ℕ → Op
  set_allocated_ptr : ℕ → Op
  set_flag : ℕ → Op
  unset_flag : ℕ → Op
  init : ℕ → ℕ → ℕ → Op

module _ (c : Config) where
  unfoldable pub step_generic : Op → Generic.Tagged → Outcome Generic.Tagged
  step_generic (set_data d) g = Generic.set_data c g d
  step_generic (set_ptr p) g = ok (Generic.set_ptr c g p)
  step_generic (set_allocated_ptr p) g = Generic.set_allocated_ptr c g p
  step_generic (set_flag pos) g = ok (Generic.set_flag c pos g)
  step_generic (unset_flag pos) g = ok (Generic.unset_flag c pos g)
  step_generic (init p a d) g = Generic.init c p a d

  unfoldable pub step_optimized : Op → Optimized.Tagged → Outcome Optimized.Tagged
  step_optimized (set_data d) o = Optimized.set_data c o d
  step_optimized (set_ptr p) o = Optimized.set_ptr c o p
  step_optimized (set_allocated_ptr p) o = Optimized.set_allocated_ptr c o p
  step_optimized (set_flag pos) o = ok (Optimized.set_flag c pos o)
  step_optimized (unset_flag pos) o = ok (Optimized.unset_flag c pos o)
  step_optimized (init p a d) o = Optimized.init c p a d

  -- An address of 48 digits that is null or above the zombie mark.
  abbrev pub IsAddress : ℕ → Type 0
  IsAddress p = (p < 2 ^ 48) × ((p ≡ 0) ⊎ (zombie_indicator c < p))

  -- An address of 48 digits that is a multiple of the alignment.
  abbrev pub IsAllocation : ℕ → Type 0
  IsAllocation p = (p < 2 ^ 48) × (p % 2 ^ c.lower ≡ 0)

  abbrev pub IsPermitted : Op → Type 0
  IsPermitted (set_data d) = d ≤ Optimized.max_data c
  IsPermitted (set_ptr p) = IsAddress p
  IsPermitted (set_allocated_ptr p) = IsAllocation p
  IsPermitted (set_flag pos) = pos < c.nflags
  IsPermitted (unset_flag pos) = pos < c.nflags
  IsPermitted (init p a d) = IsAddress p × IsAllocation a × (d ≤ Optimized.max_data c)

  abbrev pub ArePermitted : List Op → Type 0
  ArePermitted [] = Unit {0}
  ArePermitted (op ∷ ops) = IsPermitted op × ArePermitted ops

  -- A client's mutations in order; the first exception ends them.
  unfoldable pub run_generic : List Op → Generic.Tagged → Outcome Generic.Tagged
  run_generic [] g = ok g
  run_generic (op ∷ ops) g = elim (step_generic op g) [
    | ok g' ↦ run_generic ops g'
    | throws e ↦ throws e
  ]

  unfoldable pub run_optimized : List Op → Optimized.Tagged → Outcome Optimized.Tagged
  run_optimized [] o = ok o
  run_optimized (op ∷ ops) o = elim (step_optimized op o) [
    | ok o' ↦ run_optimized ops o'
    | throws e ↦ throws e
  ]
