-- ===== src/TaggedPtr/PtrPtr/Optimized.antt =====
-- `optimized_allocated_ptr_and_ptr_and_data_and_flags_64_`: two words. The data stand in the upper
-- digits of `ptr`, the lower digits of `allocptr` above the flags, and the upper digits of `allocptr`.
pub mod Digits
pub mod Parts
pub mod Fields
pub mod Zombies
use nodecpp_foundation.Base.{ℕ, ◌+◌, ◌-◌, ◌≤◌, ◌<◌, bit_and, bit_or, Bool, not, ◌&&◌, ◌||◌}
use nodecpp_foundation.Base.{ltb, leb, ◌==◌, if◌then◌else◌, ◌≡◌, ◌⊎◌}
use nodecpp_foundation.Base.Words.{shl, shr, ones, complement}
use nodecpp_foundation.Base.Store.{Store, update}
use nodecpp_foundation.TaggedPtr.Layout.{
  pointer_bit_size, unused_upper_bit_count, any_ptr_value_bits_mask, upper_data_mask,
}
use nodecpp_foundation.Base.Outcome.{Outcome, ok, throws, zombie_access, zero_access, asserting}

pub record Tagged : Type 0 where
  pub ptr : ℕ
  pub allocptr : ℕ

-- The template arguments: `allocated_ptr_unused_lower_bit_count`, `dataminsize` and `nflags`.
pub record Config : Type 0 where
  pub lower : ℕ
  pub dataminsize : ℕ
  pub nflags : ℕ

-- What the static assertions demand of them. `1 << remainingInAllocPtr` is an `int` shift, so
-- `lower` is below 31.
pub record IsConfig (c : Config) : Type 0 where
  pub few_flags : c.nflags ≤ 1
  pub few_data : c.dataminsize ≤ 32
  pub flags_fit : c.nflags ≤ c.lower
  pub no_rest_no_flags : (c.nflags ≡ 0) ⊎ (c.nflags < c.lower)
  pub int_shift : c.lower < 31

module _ (c : Config) where
  open c use {lower, dataminsize, nflags}

  abbrev pub zombie_indicator : ℕ
  zombie_indicator = shl 1 lower

  abbrev pub allocptr_mask : ℕ
  allocptr_mask = shl (ones (pointer_bit_size - lower - unused_upper_bit_count)) lower

  abbrev pub alloc_ptr_flags_mask : ℕ
  alloc_ptr_flags_mask = ones nflags

  abbrev pub ptr_part_mask_in_data : ℕ
  ptr_part_mask_in_data = ones unused_upper_bit_count

  abbrev pub allocptr_lower_part_mask_in_data : ℕ
  allocptr_lower_part_mask_in_data = shl (ones (lower - nflags)) unused_upper_bit_count

  abbrev pub allocptr_upper_part_mask_in_data : ℕ
  allocptr_upper_part_mask_in_data = shl 0xffff (unused_upper_bit_count + lower - nflags)

  abbrev pub allocptr_lower_part_offset_in_data : ℕ
  allocptr_lower_part_offset_in_data = unused_upper_bit_count

  abbrev pub allocptr_upper_part_offset_in_data : ℕ
  allocptr_upper_part_offset_in_data = unused_upper_bit_count + nflags

  abbrev pub upper_data_bit_offset_in_pointers : ℕ
  upper_data_bit_offset_in_pointers = pointer_bit_size - unused_upper_bit_count

  unfoldable pub max_data : ℕ
  max_data = shl 1 dataminsize - 1

  -- `init()`
  unfoldable pub init_empty : Tagged
  init_empty = record { ptr = 0; allocptr = 0 }

  unfoldable pub is_zombie : Tagged → Bool
  is_zombie w = bit_and w.ptr any_ptr_value_bits_mask == zombie_indicator

  -- The body of `set_data` after its assertion.
  unfoldable pub store_data : Tagged → ℕ → Tagged
  store_data w d = record {
    ptr =
        bit_or (bit_and w.ptr any_ptr_value_bits_mask)
          (shl (bit_and d ptr_part_mask_in_data) upper_data_bit_offset_in_pointers);
    allocptr =
        bit_or
          (bit_or (bit_and w.allocptr (bit_or allocptr_mask alloc_ptr_flags_mask)) (
            shl
              (shr (bit_and d allocptr_upper_part_mask_in_data) allocptr_upper_part_offset_in_data)
              upper_data_bit_offset_in_pointers))
          (shl (shr (bit_and d allocptr_lower_part_mask_in_data) allocptr_lower_part_offset_in_data)
            nflags);
  }

  unfoldable pub set_data : Tagged → ℕ → Outcome Tagged
  set_data w d = asserting (leb d max_data) (ok (store_data w d))

  unfoldable pub get_data : Tagged → ℕ
  get_data w =
      let shift_size_for_alloc_ptr =
        64 - unused_upper_bit_count - unused_upper_bit_count - nflags in
      let shift_size_for_ptr : ℕ = 64 - unused_upper_bit_count in
      let ret =
        bit_or (shr (bit_and w.allocptr upper_data_mask) shift_size_for_alloc_ptr)
          (shr (bit_and w.ptr upper_data_mask) shift_size_for_ptr) in
      let remaining_in_alloc_ptr = lower - nflags in
      let remaining_data_mask_in_alloc_ptr = shl (ones remaining_in_alloc_ptr) nflags in
      if ltb 0 remaining_in_alloc_ptr
      then bit_or ret (
          shl (bit_and w.allocptr remaining_data_mask_in_alloc_ptr)
            (unused_upper_bit_count - nflags))
      else ret

  -- `throwZombieAccess` of this struct calls `throwZeroPointerAccess`.
  unfoldable pub throw_zombie_access {ℓ} : {A : Type ℓ} → Outcome A
  throw_zombie_access = throws zero_access

  unfoldable pub copy_from : Store Tagged → ℕ → ℕ → Outcome (Store Tagged)
  unfolding is_zombie throw_zombie_access
  copy_from s this other =
      if not (is_zombie (s this)) && not (is_zombie (s other))
      then ok (update s this (record { ptr = (s other).ptr; allocptr = (s other).allocptr }))
      else throw_zombie_access

  unfoldable pub move_from : Store Tagged → ℕ → ℕ → Outcome (Store Tagged)
  unfolding is_zombie throw_zombie_access init_empty
  move_from s this other =
      if not (is_zombie (s this)) && not (is_zombie (s other))
      then ok (
          let s' = update s this (record { ptr = (s other).ptr; allocptr = (s other).allocptr }) in
          update s' other init_empty)
      else throw_zombie_access

  -- The body of `swap` after its test.
  unfoldable pub swap_words : Store Tagged → ℕ → ℕ → Store Tagged
  swap_words s this other =
      let tmp = (s this).ptr in
      let s₁ = update s this (record (s this) { ptr = (s other).ptr }) in
      let s₂ = update s₁ other (record (s₁ other) { ptr = tmp }) in
      let tmp' = (s₂ this).allocptr in
      let s₃ = update s₂ this (record (s₂ this) { allocptr = (s₂ other).allocptr }) in
      update s₃ other (record (s₃ other) { allocptr = tmp' })

  unfoldable pub swap : Store Tagged → ℕ → ℕ → Outcome (Store Tagged)
  unfolding is_zombie throw_zombie_access
  swap s this other =
      if not (is_zombie (s this)) && not (is_zombie (s other))
      then ok (swap_words s this other)
      else throw_zombie_access

  -- `init( data )`
  unfoldable pub init_data : ℕ → Outcome Tagged
  unfolding init_empty
  init_data d = set_data init_empty d

  unfoldable pub init : ℕ → ℕ → ℕ → Outcome Tagged
  init ptr_ allocptr_ d = asserting (bit_and ptr_ (complement any_ptr_value_bits_mask) == 0) (
      asserting (bit_and allocptr_ (complement allocptr_mask) == 0) (
        asserting (leb d max_data) (
          set_data
            (record {
              ptr = bit_and ptr_ any_ptr_value_bits_mask;
              allocptr = bit_and allocptr_ allocptr_mask;
            })
            d)))

  unfoldable pub set_ptr : Tagged → ℕ → Outcome Tagged
  set_ptr w ptr_ = asserting (bit_and ptr_ (complement any_ptr_value_bits_mask) == 0) (
      ok (record w {
        ptr = bit_or (bit_and w.ptr upper_data_mask) (bit_and ptr_ any_ptr_value_bits_mask);
      }))

  -- `throwNullptrOrZombieAccess`
  unfoldable pub throw_nullptr_or_zombie_access : Tagged → Outcome ℕ
  unfolding is_zombie
  throw_nullptr_or_zombie_access w =
      if is_zombie w then throws zombie_access else throws zero_access

  unfoldable pub get_ptr : Tagged → Outcome ℕ
  unfolding throw_zombie_access
  get_ptr w =
      if not (bit_and w.ptr any_ptr_value_bits_mask == zombie_indicator)
      then ok (bit_and w.ptr any_ptr_value_bits_mask)
      else throw_zombie_access

  unfoldable pub get_dereferencable_ptr : Tagged → Outcome ℕ
  unfolding throw_nullptr_or_zombie_access
  get_dereferencable_ptr w =
      if ltb zombie_indicator (bit_and w.ptr any_ptr_value_bits_mask)
      then ok (bit_and w.ptr any_ptr_value_bits_mask)
      else throw_nullptr_or_zombie_access w

  unfoldable pub set_allocated_ptr : Tagged → ℕ → Outcome Tagged
  set_allocated_ptr w ptr_ = asserting (bit_and ptr_ (complement allocptr_mask) == 0) (
      ok (record w {
        allocptr =
            bit_or (bit_and w.allocptr (complement allocptr_mask)) (bit_and ptr_ allocptr_mask);
      }))

  unfoldable pub get_allocated_ptr : Tagged → Outcome ℕ
  unfolding is_zombie throw_zombie_access
  get_allocated_ptr w =
      if not (is_zombie w) then ok (bit_and w.allocptr allocptr_mask) else throw_zombie_access

  unfoldable pub get_dereferencable_allocated_ptr : Tagged → Outcome ℕ
  unfolding is_zombie throw_nullptr_or_zombie_access
  get_dereferencable_allocated_ptr w =
      if not (is_zombie w || bit_and w.allocptr allocptr_mask == 0)
      then ok (bit_and w.allocptr allocptr_mask)
      else throw_nullptr_or_zombie_access w

  unfoldable pub set_zombie : Tagged → Tagged
  set_zombie w = record w { ptr = zombie_indicator }

  unfoldable pub set_flag : ℕ → Tagged → Tagged
  set_flag pos w = record w { allocptr = bit_or w.allocptr (shl 1 pos) }

  unfoldable pub unset_flag : ℕ → Tagged → Tagged
  unset_flag pos w = record w { allocptr = bit_and w.allocptr (complement (shl 1 pos)) }

  unfoldable pub has_flag : ℕ → Tagged → Bool
  has_flag pos w = not (bit_and w.allocptr (shl 1 pos) == 0)
