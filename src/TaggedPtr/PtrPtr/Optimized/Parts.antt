-- ===== src/TaggedPtr/PtrPtr/Optimized/Parts.antt =====
-- Which getters depend on which digits of the two words, and what each setter does to those digits.
use nodecpp_foundation.Base.{ℕ, ◌-◌, ◌^◌, ◌<◌, false, ◌&&◌, bit, bit_and, bit_or}
use nodecpp_foundation.Base.{bit-mod, ◌%◌, ltb, ◌==◌, bit_ext, bit_above, bit-zero}
use nodecpp_foundation.Base.{not, ◌||◌, ◌≡◌, ap, arith}
use nodecpp_foundation.Base.Words.{bit_laws, shl, ones, complement, test_bit}
use native.Mathlib.Nat.{pow-le-pow_right}
use nodecpp_foundation.TaggedPtr.Layout.{upper_data_mask, any_ptr_value_bits_mask}
use nodecpp_foundation.TaggedPtr.PtrPtr.Optimized.{
  Config, IsConfig, Tagged, get_data, max_data, allocptr_mask, is_zombie, get_ptr,
  get_dereferencable_ptr, get_allocated_ptr, get_dereferencable_allocated_ptr, has_flag,
  throw_nullptr_or_zombie_access,
}

-- The four getters of an address answer alike.
abbrev pub SameAddresses : Config → Tagged → Tagged → Type 0
SameAddresses c w v =
    (get_ptr c w ≡ get_ptr c v)
    × (get_dereferencable_ptr c w ≡ get_dereferencable_ptr c v)
    × (get_allocated_ptr c w ≡ get_allocated_ptr c v)
    × (get_dereferencable_allocated_ptr c w ≡ get_dereferencable_allocated_ptr c v)

-- Flag `pos`, if the struct has it, reads alike.
abbrev pub SameFlag : Config → ℕ → Tagged → Tagged → Type 0
SameFlag c pos w v = (ltb pos c.nflags && has_flag c pos w) ≡ (ltb pos c.nflags && has_flag c pos v)

module _ (c : Config) (cfg : IsConfig c) where
  open c use {lower, nflags, dataminsize}

  pub getters_congr :
      (w v : Tagged)
      → bit_and w.ptr any_ptr_value_bits_mask ≡ bit_and v.ptr any_ptr_value_bits_mask
      → bit_and w.allocptr (allocptr_mask c) ≡ bit_and v.allocptr (allocptr_mask c)
      → SameAddresses c w v
  unfolding throw_nullptr_or_zombie_access is_zombie get_ptr get_dereferencable_ptr
      get_allocated_ptr get_dereferencable_allocated_ptr
  getters_congr w v p a =
      (ground (arith, p), ground (arith, p), ground (arith, p, a), ground (arith, p, a))

  pub flag_bit : (pos : ℕ) (w : Tagged) → pos < 64 → has_flag c pos w ≡ bit w.allocptr pos
  unfolding has_flag
  flag_bit pos w h = test_bit w.allocptr pos h

  pub max_data-lt : max_data c < 2 ^ 32
  unfolding max_data shl
  max_data-lt = omega (arith, pow-le-pow_right {n = 2} (omega arith) cfg.few_data)

  pub SameFlag-of_bit :
      (pos : ℕ) (w v : Tagged)
      → (ltb pos nflags && bit w.allocptr pos) ≡ (ltb pos nflags && bit v.allocptr pos)
      → SameFlag c pos w v
  SameFlag-of_bit pos w v h = ground (arith, flag_bit pos w, flag_bit pos v, cfg)

  -- The digits of the two words that hold data.
  pub data_congr :
      (w v : Tagged)
      → bit_and w.ptr upper_data_mask ≡ bit_and v.ptr upper_data_mask
      → bit_and w.allocptr upper_data_mask ≡ bit_and v.allocptr upper_data_mask
      → bit_and w.allocptr (shl (ones (lower - nflags)) nflags)
        ≡ bit_and v.allocptr (shl (ones (lower - nflags)) nflags)
      → get_data c w ≡ get_data c v
  unfolding get_data
  data_congr w v p a b = rw (p, a, b)

  pub address_passes : (p : ℕ) → p < 2 ^ 48 → bit_and p (complement any_ptr_value_bits_mask) ≡ 0
  address_passes p h =
      bit_ext _ _ λ i. simp bit_laws (ground (arith, bit-zero i, bit_above i 48 p h))

  pub address_kept : (p : ℕ) → p < 2 ^ 48 → bit_and p any_ptr_value_bits_mask ≡ p
  address_kept p h = bit_ext _ _ λ i. simp bit_laws (ground (arith, bit_above i 48 p h))

  -- A multiple of the alignment, of 48 digits.
  abbrev pub IsAllocated : ℕ → Type 0
  IsAllocated p = (p < 2 ^ 48) × (p % 2 ^ lower ≡ 0)

  pub aligned_digit : (p i : ℕ) → IsAllocated p → i < lower → bit p i ≡ false
  aligned_digit p i h lt =
      ground (arith, bit-mod i lower p, ap (λ (t : ℕ). bit t i) h.1, bit-zero i)

  pub allocated_passes : (p : ℕ) → IsAllocated p → bit_and p (complement (allocptr_mask c)) ≡ 0
  allocated_passes p h = bit_ext _ _ λ i.
      simp bit_laws (ground (arith, bit-zero i, bit_above i 48 p h.0, aligned_digit p i h, cfg))

  pub allocated_kept : (p : ℕ) → IsAllocated p → bit_and p (allocptr_mask c) ≡ p
  allocated_kept p h =
      bit_ext _ _
        λ i. simp bit_laws (ground (arith, bit_above i 48 p h.0, aligned_digit p i h, cfg))

  -- The word that `set_ptr` stores.
  abbrev pub ptr_word : ℕ → ℕ → ℕ
  ptr_word w p = bit_or (bit_and w upper_data_mask) (bit_and p any_ptr_value_bits_mask)

  pub ptr_word-address : (w p : ℕ) → p < 2 ^ 48 → bit_and (ptr_word w p) any_ptr_value_bits_mask ≡ p
  ptr_word-address w p h = bit_ext _ _ λ i. simp bit_laws (ground (arith, bit_above i 48 p h))

  pub ptr_word-data : (w p : ℕ) → bit_and (ptr_word w p) upper_data_mask ≡ bit_and w upper_data_mask
  ptr_word-data w p = bit_ext _ _ λ i. simp bit_laws (ground arith)

  -- The word that `set_allocated_ptr` stores.
  abbrev pub alloc_word : ℕ → ℕ → ℕ
  alloc_word a p = bit_or (bit_and a (complement (allocptr_mask c))) (bit_and p (allocptr_mask c))

  -- The digits of `allocptr` for data below the address.
  abbrev pub middle_mask : ℕ
  middle_mask = shl (ones (lower - nflags)) nflags

  pub alloc_word-address :
      (a p : ℕ) → IsAllocated p → bit_and (alloc_word a p) (allocptr_mask c) ≡ p
  alloc_word-address a p h =
      bit_ext _ _
        λ i. simp bit_laws (ground (arith, bit_above i 48 p h.0, aligned_digit p i h, cfg))

  pub alloc_word-upper :
      (a p : ℕ) → bit_and (alloc_word a p) upper_data_mask ≡ bit_and a upper_data_mask
  alloc_word-upper a p = bit_ext _ _ λ i. simp bit_laws (ground (arith, cfg))

  pub alloc_word-middle : (a p : ℕ) → bit_and (alloc_word a p) middle_mask ≡ bit_and a middle_mask
  alloc_word-middle a p = bit_ext _ _ λ i. simp bit_laws (ground (arith, cfg))

  pub alloc_word-flag :
      (a p pos : ℕ) → (ltb pos nflags && bit (alloc_word a p) pos) ≡ (ltb pos nflags && bit a pos)
  alloc_word-flag a p pos = simp bit_laws (ground (arith, cfg))

  -- `set_flag` and `unset_flag` change one digit, a flag's.
  module _ (a pos : ℕ) (h : pos < nflags) where
    abbrev pub set_word : ℕ
    set_word = bit_or a (shl 1 pos)

    abbrev pub unset_word : ℕ
    unset_word = bit_and a (complement (shl 1 pos))

    pub set_word-digit : (i : ℕ) → i < 64 → bit set_word i ≡ (i == pos || bit a i)
    set_word-digit i lt = simp bit_laws (ground arith)

    pub unset_word-digit : (i : ℕ) → i < 64 → bit unset_word i ≡ (not (i == pos) && bit a i)
    unset_word-digit i lt = simp bit_laws (ground arith)

    pub set_word-upper : bit_and set_word upper_data_mask ≡ bit_and a upper_data_mask
    set_word-upper = bit_ext _ _ λ i. simp bit_laws (ground (arith, cfg))

    pub unset_word-upper : bit_and unset_word upper_data_mask ≡ bit_and a upper_data_mask
    unset_word-upper = bit_ext _ _ λ i. simp bit_laws (ground (arith, cfg))

    pub set_word-middle : bit_and set_word middle_mask ≡ bit_and a middle_mask
    set_word-middle = bit_ext _ _ λ i. simp bit_laws (ground (arith, cfg))

    pub unset_word-middle : bit_and unset_word middle_mask ≡ bit_and a middle_mask
    unset_word-middle = bit_ext _ _ λ i. simp bit_laws (ground (arith, cfg))

    pub set_word-address : bit_and set_word (allocptr_mask c) ≡ bit_and a (allocptr_mask c)
    set_word-address = bit_ext _ _ λ i. simp bit_laws (ground (arith, cfg))

    pub unset_word-address : bit_and unset_word (allocptr_mask c) ≡ bit_and a (allocptr_mask c)
    unset_word-address = bit_ext _ _ λ i. simp bit_laws (ground (arith, cfg))
