-- ===== src/TaggedPtr/PtrPtr/Optimized/Fields.antt =====
-- The two addresses, the data and the flags are independent fields of the two words.
use nodecpp_foundation.Base.{ℕ, ◌^◌, ◌≤◌, ◌<◌, false, ◌&&◌, bit, bit_and}
use nodecpp_foundation.Base.{◌==◌}
use nodecpp_foundation.Base.{if◌then◌else◌, ◌≡◌, refl, arith}
use nodecpp_foundation.TaggedPtr.Layout.{any_ptr_value_bits_mask}
use nodecpp_foundation.Base.Outcome.{ok, throws, zero_access}
use nodecpp_foundation.TaggedPtr.PtrPtr.Optimized.{
  Config, IsConfig, Tagged, store_data, get_data, set_data, max_data, allocptr_mask, is_zombie,
  get_ptr, get_allocated_ptr, has_flag, set_ptr, set_allocated_ptr, zombie_indicator,
}
use nodecpp_foundation.TaggedPtr.PtrPtr.Optimized.Digits.{
  get_data-store_data, ptr-store_data, allocptr-store_data, flag-store_data,
}
use nodecpp_foundation.Base.{not, ◌||◌}
use nodecpp_foundation.TaggedPtr.PtrPtr.Optimized.{set_flag, unset_flag, init}
use nodecpp_foundation.TaggedPtr.PtrPtr.Optimized.Parts.{
  SameAddresses, SameFlag, getters_congr, flag_bit, max_data-lt, SameFlag-of_bit, address_passes,
  address_kept, data_congr, allocated_passes, allocated_kept, aligned_digit, IsAllocated, ptr_word,
  ptr_word-address, ptr_word-data, alloc_word, alloc_word-address, alloc_word-upper,
  alloc_word-middle, alloc_word-flag, set_word-digit, unset_word-digit, set_word-upper,
  unset_word-upper, set_word-middle, unset_word-middle, set_word-address, unset_word-address,
}

module _ (c : Config) (cfg : IsConfig c) where
  open c use {lower, nflags, dataminsize}

  -- `set_data` accepts what the width allows; `get_data` then returns it, and the addresses and the
  -- flags read as before.
  pub set_data_lem :
      (w : Tagged) (d pos : ℕ)
      → d ≤ max_data c
      → (w' : Tagged) × (set_data c w d ≡ ok w')
        × (get_data c w' ≡ d)
        × SameAddresses c w' w
        × SameFlag c pos w' w
  unfolding set_data
  set_data_lem w d pos h = (
    store_data c w d,
    ground arith,
    get_data-store_data c cfg w d (omega (arith, max_data-lt c cfg)),
    getters_congr c cfg (store_data c w d) w (ptr-store_data c cfg w d)
        (allocptr-store_data c cfg w d),
    SameFlag-of_bit c cfg pos (store_data c w d) w (ground (arith, flag-store_data c cfg w d pos)),
  )

  -- `set_ptr` accepts an address of 48 digits; the word then holds that address, the data read as
  -- before, and `allocptr` is untouched.
  pub set_ptr_lem :
      (w : Tagged) (p : ℕ)
      → p < 2 ^ 48
      → (w' : Tagged) × (set_ptr c w p ≡ ok w')
        × (get_ptr c w' ≡ (if p == zombie_indicator c then throws zero_access else ok p))
        × (get_data c w' ≡ get_data c w)
        × (w'.allocptr ≡ w.allocptr)
  unfolding set_ptr get_ptr
  set_ptr_lem w p h = (
    record w { ptr = ptr_word c cfg w.ptr p },
    ground (arith, address_passes c cfg p h),
    ground (arith, ptr_word-address c cfg w.ptr p h),
    data_congr c cfg _ _ (ptr_word-data c cfg w.ptr p) refl refl,
    refl,
  )

  -- `set_allocated_ptr` accepts an address of 48 digits that is a multiple of `2 ^ lower`;
  -- `allocptr` then holds it, the flags and the data read as before, and `ptr` is untouched.
  pub set_allocated_ptr_lem :
      (w : Tagged) (p pos : ℕ)
      → IsAllocated c cfg p
      → (w' : Tagged) × (set_allocated_ptr c w p ≡ ok w')
        × (get_allocated_ptr c w' ≡ (if is_zombie c w then throws zero_access else ok p))
        × (get_data c w' ≡ get_data c w)
        × SameFlag c pos w' w
        × (w'.ptr ≡ w.ptr)
  unfolding set_allocated_ptr get_allocated_ptr
  set_allocated_ptr_lem w p pos h = (
    record w { allocptr = alloc_word c cfg w.allocptr p },
    ground (arith, allocated_passes c cfg p h),
    ground (arith, alloc_word-address c cfg w.allocptr p h),
    data_congr c cfg _ _ refl (alloc_word-upper c cfg w.allocptr p)
        (alloc_word-middle c cfg w.allocptr p),
    SameFlag-of_bit c cfg pos _ w (alloc_word-flag c cfg w.allocptr p pos),
    refl,
  )

  -- `set_flag` and `unset_flag` change their flag, and no other flag, address or data.
  pub set_flag_lem :
      (w : Tagged) (pos other : ℕ)
      → pos < nflags
      → other < nflags
      → (has_flag c other (set_flag c pos w) ≡ (other == pos || has_flag c other w))
        × (has_flag c other (unset_flag c pos w) ≡ (not (other == pos) && has_flag c other w))
        × (get_data c (set_flag c pos w) ≡ get_data c w)
        × (get_data c (unset_flag c pos w) ≡ get_data c w)
        × SameAddresses c (set_flag c pos w) w
        × SameAddresses c (unset_flag c pos w) w
  unfolding set_flag unset_flag
  set_flag_lem w pos other h k = (
    ground (
      arith,
      flag_bit c cfg other (set_flag c pos w),
      flag_bit c cfg other w,
      set_word-digit c cfg w.allocptr pos h other,
      cfg,
    ),
    ground (
      arith,
      flag_bit c cfg other (unset_flag c pos w),
      flag_bit c cfg other w,
      unset_word-digit c cfg w.allocptr pos h other,
      cfg,
    ),
    data_congr c cfg _ _ refl (set_word-upper c cfg w.allocptr pos h)
        (set_word-middle c cfg w.allocptr pos h),
    data_congr c cfg _ _ refl (unset_word-upper c cfg w.allocptr pos h)
        (unset_word-middle c cfg w.allocptr pos h),
    getters_congr c cfg _ _ refl (set_word-address c cfg w.allocptr pos h),
    getters_congr c cfg _ _ refl (unset_word-address c cfg w.allocptr pos h),
  )

  -- `init` accepts a 48-digit address, an aligned one and data of the width; every getter then
  -- returns what was given, and no flag is set. An address equal to the zombie mark reads as a zombie.
  pub init_lem :
      (p a d pos : ℕ)
      → p < 2 ^ 48
      → IsAllocated c cfg a
      → d ≤ max_data c
      → pos < nflags
      → (w : Tagged) × (init c p a d ≡ ok w)
        × (is_zombie c w ≡ (p == zombie_indicator c))
        × (get_ptr c w ≡ (if p == zombie_indicator c then throws zero_access else ok p))
        × (get_allocated_ptr c w ≡ (if p == zombie_indicator c then throws zero_access else ok a))
        × (get_data c w ≡ d)
        × (has_flag c pos w ≡ false)
  unfolding init set_data get_ptr get_allocated_ptr is_zombie
  init_lem p a d pos hp ha hd hf = (
    store_data c fresh d,
    ground (arith, address_passes c cfg p hp, allocated_passes c cfg a ha),
    ground (arith, address),
    ground (arith, address),
    ground (arith, address, allocated),
    get_data-store_data c cfg fresh d (omega (arith, max_data-lt c cfg)),
    ground (
      arith,
      flag_bit c cfg pos (store_data c fresh d),
      flag-store_data c cfg fresh d pos,
      fresh_flag,
      cfg,
    ),
  )
    where
      fresh : Tagged
      fresh = record {
        ptr = bit_and p any_ptr_value_bits_mask;
        allocptr = bit_and a (allocptr_mask c);
      }

      address : bit_and (store_data c fresh d).ptr any_ptr_value_bits_mask ≡ p
      address =
          rw (ptr-store_data c cfg fresh d) (rw (address_kept c cfg p hp) (address_kept c cfg p hp))

      allocated : bit_and (store_data c fresh d).allocptr (allocptr_mask c) ≡ a
      allocated =
          rw (allocptr-store_data c cfg fresh d)
            (rw (allocated_kept c cfg a ha) (allocated_kept c cfg a ha))

      fresh_flag : bit (bit_and a (allocptr_mask c)) pos ≡ false
      fresh_flag =
          rw (allocated_kept c cfg a ha) (aligned_digit c cfg a pos ha (omega (arith, cfg)))
