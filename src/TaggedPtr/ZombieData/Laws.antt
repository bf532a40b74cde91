-- ===== src/TaggedPtr/ZombieData/Laws.antt =====
-- The address and the data of the one word, and where the two structs differ.
use nodecpp_foundation.Base.{ℕ, ◌+◌, ◌*◌, ◌^◌, ◌%◌, ◌<◌, ◌≢◌, false, ◌&&◌, bit, bit_and, bit_or}
use nodecpp_foundation.Base.{
  ltb, leb, ◌==◌, if◌then◌else◌, ◌≡◌, refl, ap, arith, bit_ext, bit-mod, bit-zero, bit_above,
}
use nodecpp_foundation.Base.Words.{
  shl, shr, ones, complement, bit_laws, bit-word_shl, bit-word_ones,
}
use nodecpp_foundation.Base.Outcome.{ok, throws, zombie_access, zero_access}
use nodecpp_foundation.TaggedPtr.ZombieData.Optimized
use nodecpp_foundation.TaggedPtr.ZombieData.Optimized.{
  Ptr, zombie_indicator, allocptr_mask, data_mask,
}
use nodecpp_foundation.TaggedPtr.ZombieData.Generic

address_digit : (i : ℕ) → bit allocptr_mask i ≡ (leb 3 i && ltb i 48)
address_digit i = rw mask (simp (bit-word_shl, bit-word_ones) (ground arith))
  where
    mask : allocptr_mask ≡ shl (ones 45) 3
    mask = unfold shl ones in refl

data_digit : (i : ℕ) → bit data_mask i ≡ (leb 48 i && ltb i 64)
data_digit i = rw mask (simp (bit-word_shl, bit-word_ones) (ground arith))
  where
    mask : data_mask ≡ shl (ones 16) 48
    mask = unfold shl ones in refl

ruleset masks = (address_digit, data_digit)

mark_value : zombie_indicator ≡ 32
mark_value = unfold shl in refl

max_value : Optimized.max_data ≡ 65535
max_value = unfold shl in refl

-- A multiple of 8, of 48 digits.
abbrev pub IsAllocated : ℕ → Type 0
IsAllocated p = (p < 2 ^ 48) × (p % 2 ^ 3 ≡ 0)

aligned_digit : (p i : ℕ) → IsAllocated p → i < 3 → bit p i ≡ false
aligned_digit p i h lt = ground (arith, bit-mod i 3 p, ap (λ (t : ℕ). bit t i) h.1, bit-zero i)

passes : (p : ℕ) → IsAllocated p → bit_and p (complement allocptr_mask) ≡ 0
passes p h = bit_ext _ _ λ i.
    simp (bit_laws, masks) (ground (arith, bit-zero i, bit_above i 48 p h.0, aligned_digit p i h))

-- A word of an address and data.
abbrev pub word : ℕ → ℕ → ℕ
word p d = bit_or p (shl d 48)

word-address : (p d : ℕ) → IsAllocated p → bit_and (word p d) allocptr_mask ≡ p
word-address p d h =
    bit_ext _ _
      λ i. simp (bit_laws, masks) (ground (arith, bit_above i 48 p h.0, aligned_digit p i h))

word-data : (p d : ℕ) → p < 2 ^ 48 → d < 2 ^ 16 → shr (word p d) 48 ≡ d
word-data p d h k =
    bit_ext _ _ λ i. simp bit_laws (ground (arith, bit_above (48 + i) 48 p h, bit_above i 16 d k))

word-low : (p d : ℕ) → p < 2 ^ 48 → word p d % 2 ^ 48 ≡ p
word-low p d h =
    bit_ext _ _
      λ i. rw (bit-mod i 48 (word p d)) (simp bit_laws (ground (arith, bit_above i 48 p h)))

word_sum : (p d : ℕ) → p < 2 ^ 48 → d < 2 ^ 16 → word p d ≡ d * 2 ^ 48 + p
unfolding shr
word_sum p d h k = omega (arith, word-low p d h, word-data p d h k)

-- `init` accepts an allocated address and data of 16 digits. Unless the two make the zombie mark, both
-- getters then return what was given.
pub getters-init :
    (p d : ℕ)
    → IsAllocated p
    → d < 2 ^ 16
    → (w : Ptr) × (Optimized.init p d ≡ ok w)
      × (Optimized.get_ptr w ≡ (if Optimized.is_zombie w then throws zombie_access else ok p))
      × (Optimized.get_data w ≡ (if Optimized.is_zombie w then throws zombie_access else ok d))
      × (Optimized.is_zombie w ≡ (p == 32 && d == 0))
unfolding Optimized.init Optimized.get_ptr Optimized.get_data Optimized.is_zombie
getters-init p d h k = (
  record { ptr = word p d },
  ground (arith, passes p h, max_value),
  ground (arith, word-address p d h),
  ground (arith, word-data p d h.0 k),
  ground (arith, word_sum p d h.0 k, mark_value),
)

-- On a word that is no zombie `set_data` stores the data and keeps the address.
pub get_data-set_data :
    (w : Ptr) (d : ℕ)
    → d < 2 ^ 16
    → w.ptr < 2 ^ 64
    → w.ptr ≢ 32
    → (w' : Ptr) × (Optimized.set_data w d ≡ ok w')
      × (bit_and w'.ptr allocptr_mask ≡ bit_and w.ptr allocptr_mask)
      × (Optimized.get_data w' ≡ (if Optimized.is_zombie w' then throws zombie_access else ok d))
unfolding Optimized.set_data Optimized.get_data Optimized.is_zombie
get_data-set_data w d h k ne = (
  record { ptr = bit_or (bit_and w.ptr (complement data_mask)) (shl d 48) },
  ground (arith, mark_value),
  bit_ext _ _ λ i. simp (bit_laws, masks) (ground arith),
  ground (arith, stored),
)
  where
    stored : shr (bit_or (bit_and w.ptr (complement data_mask)) (shl d 48)) 48 ≡ d
    stored = bit_ext _ _ λ i. simp (bit_laws, masks) (ground (arith, bit_above i 16 d h))

-- A null pointer with data: the optimized struct hands null out for dereferencing, where the generic
-- one throws zero-pointer access.
pub null_with_data :
    (d : ℕ) (g g' : Generic.Ptr) (w : Ptr)
    → 0 < d
    → d < 2 ^ 16
    → Optimized.init 0 d ≡ ok w
    → Generic.init g 0 d ≡ ok g'
    → (Optimized.get_dereferencable_ptr w ≡ ok 0)
      × (Generic.get_dereferencable_ptr g' ≡ throws zero_access)
unfolding Optimized.init Generic.init Optimized.get_dereferencable_ptr
    Generic.get_dereferencable_ptr
null_with_data d g g' w h k e f = (
  ground (arith, e, f, passes 0 null, max_value, mark_value, word_sum 0 d, word-address 0 d null),
  ground (arith, f),
)
  where
    null : IsAllocated 0
    null = omega arith
