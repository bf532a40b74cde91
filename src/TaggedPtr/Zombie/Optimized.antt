-- ===== src/TaggedPtr/Zombie/Optimized.antt =====
-- `optimized_ptr_with_zombie_property_`: a zombie is a pointer with a value of its own.
use nodecpp_foundation.Base.{ℕ, Bool, not, ◌&&◌, ltb, ◌==◌, if◌then◌else◌}
use nodecpp_foundation.Base.Words.{shl}
use nodecpp_foundation.Base.Store.{Store, update}
use nodecpp_foundation.TaggedPtr.Layout.{unused_lower_bit_count_minimum}
use nodecpp_foundation.Base.Outcome.{Outcome, ok, throws, zombie_access, zero_access}
use nodecpp_foundation.TaggedPtr.Zombie.{Pointers}

pub record Ptr : Type 0 where
  pub ptr : ℕ

abbrev pub zombie_indicator : ℕ
zombie_indicator = shl 1 unused_lower_bit_count_minimum

unfoldable pub throw_nullptr_or_zombie_access : Ptr → Outcome ℕ
throw_nullptr_or_zombie_access p =
    if p.ptr == zombie_indicator then throws zombie_access else throws zero_access

unfoldable pub throw_zombie_access : {A : Type 0} → Outcome A
throw_zombie_access = throws zombie_access

unfoldable pub copy_from : Store Ptr → ℕ → ℕ → Outcome (Store Ptr)
unfolding throw_zombie_access
copy_from s this other =
    if not ((s this).ptr == zombie_indicator) && not ((s other).ptr == zombie_indicator)
    then ok (update s this (record { ptr = (s other).ptr }))
    else throw_zombie_access

unfoldable pub move_from : Store Ptr → ℕ → ℕ → Outcome (Store Ptr)
unfolding throw_zombie_access
move_from s this other =
    if not (other == this)
    then (if not ((s this).ptr == zombie_indicator) && not ((s other).ptr == zombie_indicator)
        then ok (
            let s' = update s this (record { ptr = (s other).ptr }) in
            update s' other (record { ptr = 0 }))
        else throw_zombie_access)
    else ok s

unfoldable pub swap : Store Ptr → ℕ → ℕ → Outcome (Store Ptr)
unfolding throw_zombie_access
swap s this other =
    if not ((s this).ptr == zombie_indicator) && not ((s other).ptr == zombie_indicator)
    then ok (
        let tmp = (s this).ptr in
        let s' = update s this (record { ptr = (s other).ptr }) in
        update s' other (record { ptr = tmp }))
    else throw_zombie_access

unfoldable pub init : Ptr → ℕ → Ptr
init p ptr_ = record { ptr = ptr_ }

unfoldable pub reset : Ptr → Ptr
reset p = record { ptr = 0 }

unfoldable pub set_zombie : Ptr → Ptr
set_zombie p = record { ptr = zombie_indicator }

unfoldable pub is_zombie : Ptr → Bool
is_zombie p = p.ptr == zombie_indicator

unfoldable pub get_dereferencable_ptr : Ptr → Outcome ℕ
unfolding throw_nullptr_or_zombie_access
get_dereferencable_ptr p =
    if ltb zombie_indicator p.ptr then ok p.ptr else throw_nullptr_or_zombie_access p

unfoldable pub get_ptr : Ptr → Outcome ℕ
unfolding throw_zombie_access
get_ptr p = if not (p.ptr == zombie_indicator) then ok p.ptr else throw_zombie_access

abbrev pub pointers : Pointers Ptr
pointers = record {
  init = init;
  reset = reset;
  set_zombie = set_zombie;
  is_zombie = is_zombie;
  get_dereferencable_ptr = get_dereferencable_ptr;
  get_ptr = get_ptr;
  copy_from = copy_from;
  move_from = move_from;
  swap = swap;
}
