-- ===== src/TaggedPtr/Zombie/Generic.antt =====
-- `generic_ptr_with_zombie_property_`: the mark is a member of its own.
use nodecpp_foundation.Base.{ℕ, Bool, true, false, not, ◌&&◌, ◌||◌, ◌==◌, if◌then◌else◌}
use nodecpp_foundation.Base.Store.{Store, update}
use nodecpp_foundation.Base.Outcome.{Outcome, ok, throws, zombie_access, zero_access, asserting}
use nodecpp_foundation.TaggedPtr.Zombie.{Pointers}

pub record Ptr : Type 0 where
  pub ptr : ℕ
  pub zombie : Bool

unfoldable pub throw_nullptr_or_zombie_access : Ptr → Outcome ℕ
throw_nullptr_or_zombie_access p =
    if p.zombie then throws zombie_access else asserting (p.ptr == 0) (throws zero_access)

-- It asserts that the object that it is called on is the zombie.
unfoldable pub throw_zombie_access : {A : Type 0} → Ptr → Outcome A
throw_zombie_access p = asserting p.zombie (throws zombie_access)

unfoldable pub copy_from : Store Ptr → ℕ → ℕ → Outcome (Store Ptr)
unfolding throw_zombie_access
copy_from s this other =
    if not (s this).zombie && not (s other).zombie
    then ok (update s this (record (s this) { ptr = (s other).ptr }))
    else throw_zombie_access (s this)

unfoldable pub move_from : Store Ptr → ℕ → ℕ → Outcome (Store Ptr)
unfolding throw_zombie_access
move_from s this other =
    if not (s this).zombie && not (s other).zombie
    then ok (
        let s' = update s this (record (s this) { ptr = (s other).ptr }) in
        update s' other (record (s' other) { ptr = 0 }))
    else throw_zombie_access (s this)

unfoldable pub swap : Store Ptr → ℕ → ℕ → Outcome (Store Ptr)
unfolding throw_zombie_access
swap s this other =
    if not (s this).zombie && not (s other).zombie
    then ok (
        let tmp = (s this).ptr in
        let s' = update s this (record (s this) { ptr = (s other).ptr }) in
        update s' other (record (s' other) { ptr = tmp }))
    else throw_zombie_access (s this)

unfoldable pub init : Ptr → ℕ → Ptr
init p ptr_ = record { ptr = ptr_; zombie = false }

unfoldable pub reset : Ptr → Ptr
reset p = record { ptr = 0; zombie = false }

unfoldable pub set_zombie : Ptr → Ptr
set_zombie p = record p { zombie = true }

unfoldable pub is_zombie : Ptr → Bool
is_zombie p = p.zombie

unfoldable pub get_dereferencable_ptr : Ptr → Outcome ℕ
unfolding throw_nullptr_or_zombie_access
get_dereferencable_ptr p =
    if not (p.zombie || p.ptr == 0) then ok p.ptr else throw_nullptr_or_zombie_access p

unfoldable pub get_ptr : Ptr → Outcome ℕ
unfolding throw_zombie_access
get_ptr p = if not p.zombie then ok p.ptr else throw_zombie_access p

abbrev pub pointers : Pointers Ptr
pointers = record {
  init = init;
  reset = reset;
  set_zombie = set_zombie;
  is_zombie = is_zombie;
  get_dereferencable_ptr = get_dereferencable_ptr;
  get_ptr = get_ptr;
  copy_from = copy_from;
  move_from = move_from;
  swap = swap;
}
