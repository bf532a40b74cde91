-- ===== src/TaggedPtr/ZombieData/Generic.antt =====
-- `generic_allocptr_with_zombie_property_and_data_`: a member for each field. `data` is a `uint16_t`,
-- and what is passed for it is below `2 ^ 16`.
use nodecpp_foundation.Base.{ℕ, ◌-◌, leb, Bool, true, false, not, ◌&&◌, ◌||◌, ◌==◌, if◌then◌else◌}
use nodecpp_foundation.Base.Words.{shl}
use nodecpp_foundation.Base.Store.{Store, update}
use nodecpp_foundation.Base.Outcome.{Outcome, ok, throws, zombie_access, zero_access, asserting}

pub record Ptr : Type 0 where
  pub ptr : ℕ
  pub payload : ℕ
  pub zombie : Bool

abbrev pub data_bit_size : ℕ
data_bit_size = 16

abbrev pub max_data : ℕ
max_data = shl 1 data_bit_size - 1

unfoldable pub throw_nullptr_or_zombie_access : Ptr → Outcome ℕ
throw_nullptr_or_zombie_access p =
    if p.zombie then throws zombie_access else asserting (p.ptr == 0) (throws zero_access)

-- It asserts that the object that it is called on is the zombie.
unfoldable pub throw_zombie_access : {A : Type 0} → Ptr → Outcome A
throw_zombie_access p = asserting p.zombie (throws zombie_access)

unfoldable pub copy_from : Store Ptr → ℕ → ℕ → Outcome (Store Ptr)
unfolding throw_zombie_access
copy_from s this other =
    if not (s this).zombie && not (s other).zombie
    then ok (update s this (record (s this) { ptr = (s other).ptr; payload = (s other).payload }))
    else throw_zombie_access (s this)

unfoldable pub move_from : Store Ptr → ℕ → ℕ → Outcome (Store Ptr)
unfolding throw_zombie_access
move_from s this other =
    if not (s this).zombie && not (s other).zombie
    then ok (
        let s₁ = update s this (record (s this) { ptr = (s other).ptr }) in
        let s₂ = update s₁ other (record (s₁ other) { ptr = 0 }) in
        let s₃ = update s₂ this (record (s₂ this) { payload = (s₂ other).payload }) in
        update s₃ other (record (s₃ other) { payload = 0 }))
    else throw_zombie_access (s this)

-- The body of `swap` after its test.
unfoldable pub swap_members : Store Ptr → ℕ → ℕ → Store Ptr
swap_members s this other =
    let tmp = (s this).ptr in
    let s₁ = update s this (record (s this) { ptr = (s other).ptr }) in
    let s₂ = update s₁ other (record (s₁ other) { ptr = tmp }) in
    let od = (s₂ this).payload in
    let s₃ = update s₂ this (record (s₂ this) { payload = (s₂ other).payload }) in
    update s₃ other (record (s₃ other) { payload = od })

unfoldable pub swap : Store Ptr → ℕ → ℕ → Outcome (Store Ptr)
unfolding throw_zombie_access
swap s this other =
    if not (s this).zombie && not (s other).zombie
    then ok (swap_members s this other)
    else throw_zombie_access (s this)

-- Its assertion reads the member `data`, not the argument.
unfoldable pub init : Ptr → ℕ → ℕ → Outcome Ptr
init p ptr_ data_ =
    asserting (leb p.payload max_data) (ok (record { ptr = ptr_; payload = data_; zombie = false }))

unfoldable pub reset : Ptr → Ptr
reset p = record { ptr = 0; payload = 0; zombie = false }

unfoldable pub set_zombie : Ptr → Ptr
set_zombie p = record p { zombie = true }

unfoldable pub is_zombie : Ptr → Bool
is_zombie p = p.zombie

-- Its assertion reads the member `data`, not the argument.
unfoldable pub set_data : Ptr → ℕ → Outcome Ptr
unfolding throw_zombie_access
set_data p data_ =
    if not p.zombie
    then asserting (leb p.payload max_data) (ok (record p { payload = data_ }))
    else throw_zombie_access p

unfoldable pub get_data : Ptr → Outcome ℕ
unfolding throw_zombie_access
get_data p = if not p.zombie then ok p.payload else throw_zombie_access p

unfoldable pub get_dereferencable_ptr : Ptr → Outcome ℕ
unfolding throw_nullptr_or_zombie_access
get_dereferencable_ptr p =
    if not (p.zombie || p.ptr == 0) then ok p.ptr else throw_nullptr_or_zombie_access p

unfoldable pub get_ptr : Ptr → Outcome ℕ
unfolding throw_zombie_access
get_ptr p = if not p.zombie then ok p.ptr else throw_zombie_access p
