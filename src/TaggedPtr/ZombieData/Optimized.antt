-- ===== src/TaggedPtr/ZombieData/Optimized.antt =====
-- `optimized_alloc_ptr_with_zombie_property_and_data_`: one word, the data in its upper 16 digits.
-- `data_` is a `uint16_t`, below `2 ^ 16`.
use nodecpp_foundation.Base.{
  ◌-◌, bit_and, bit_or, leb, ℕ, Bool, not, ◌&&◌, ltb, ◌==◌, if◌then◌else◌,
}
use nodecpp_foundation.Base.Words.{shl, shr, complement}
use nodecpp_foundation.Base.Store.{Store, update}
use nodecpp_foundation.TaggedPtr.Layout.{unused_lower_bit_count_minimum}
use nodecpp_foundation.Base.Outcome.{Outcome, ok, throws, zombie_access, zero_access, asserting}

pub record Ptr : Type 0 where
  pub ptr : ℕ

abbrev pub zombie_indicator : ℕ
zombie_indicator = shl 1 unused_lower_bit_count_minimum

abbrev pub data_bit_size : ℕ
data_bit_size = 16

abbrev pub allocptr_mask : ℕ
allocptr_mask = 0xFFFFFFFFFFF8

abbrev pub data_mask : ℕ
data_mask = 0xFFFF000000000000

abbrev pub max_data : ℕ
max_data = shl 1 data_bit_size - 1

unfoldable pub throw_nullptr_or_zombie_access : Ptr → Outcome ℕ
throw_nullptr_or_zombie_access p =
    if p.ptr == zombie_indicator then throws zombie_access else throws zero_access

unfoldable pub throw_zombie_access : {A : Type 0} → Outcome A
throw_zombie_access = throws zombie_access

unfoldable pub copy_from : Store Ptr → ℕ → ℕ → Outcome (Store Ptr)
unfolding throw_zombie_access
copy_from s this other =
    if not ((s this).ptr == zombie_indicator) && not ((s other).ptr == zombie_indicator)
    then ok (update s this (record { ptr = (s other).ptr }))
    else throw_zombie_access

unfoldable pub move_from : Store Ptr → ℕ → ℕ → Outcome (Store Ptr)
unfolding throw_zombie_access
move_from s this other =
    if not (other == this)
    then (if not ((s this).ptr == zombie_indicator) && not ((s other).ptr == zombie_indicator)
        then ok (
            let s' = update s this (record { ptr = (s other).ptr }) in
            update s' other (record { ptr = 0 }))
        else throw_zombie_access)
    else ok s

unfoldable pub swap : Store Ptr → ℕ → ℕ → Outcome (Store Ptr)
unfolding throw_zombie_access
swap s this other =
    if not ((s this).ptr == zombie_indicator) && not ((s other).ptr == zombie_indicator)
    then ok (
        let tmp = (s this).ptr in
        let s' = update s this (record { ptr = (s other).ptr }) in
        update s' other (record { ptr = tmp }))
    else throw_zombie_access

unfoldable pub init : ℕ → ℕ → Outcome Ptr
init ptr_ data_ = asserting (leb data_ max_data) (
    asserting (bit_and ptr_ (complement allocptr_mask) == 0)
      (ok (record { ptr = bit_or ptr_ (shl data_ 48) })))

unfoldable pub reset : Ptr → Ptr
reset p = record { ptr = 0 }

unfoldable pub set_zombie : Ptr → Ptr
set_zombie p = record { ptr = zombie_indicator }

unfoldable pub is_zombie : Ptr → Bool
is_zombie p = p.ptr == zombie_indicator

unfoldable pub set_data : Ptr → ℕ → Outcome Ptr
unfolding throw_zombie_access
set_data p data_ =
    if not (p.ptr == zombie_indicator)
    then ok (record { ptr = bit_or (bit_and p.ptr (complement data_mask)) (shl data_ 48) })
    else throw_zombie_access

unfoldable pub get_data : Ptr → Outcome ℕ
unfolding throw_zombie_access
get_data p = if not (p.ptr == zombie_indicator) then ok (shr p.ptr 48) else throw_zombie_access

unfoldable pub get_dereferencable_ptr : Ptr → Outcome ℕ
unfolding throw_nullptr_or_zombie_access
get_dereferencable_ptr p =
    if ltb zombie_indicator p.ptr
    then ok (bit_and p.ptr allocptr_mask)
    else throw_nullptr_or_zombie_access p

unfoldable pub get_ptr : Ptr → Outcome ℕ
unfolding throw_zombie_access
get_ptr p =
    if not (p.ptr == zombie_indicator)
    then ok (bit_and p.ptr allocptr_mask)
    else throw_zombie_access
