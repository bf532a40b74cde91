-- ===== src/TaggedPtr/PtrPtr/Generic.antt =====
-- `generic_allocated_ptr_and_ptr_and_data_and_flags_`: a member for each field.
use nodecpp_foundation.Base.{ℕ, ◌-◌, ◌%◌, ◌^◌, bit_and, bit_or, Bool, true, false, not, ◌&&◌, ◌||◌}
use nodecpp_foundation.Base.{ltb, leb, ◌==◌, if◌then◌else◌}
use nodecpp_foundation.Base.Words.{shl, complement}
use nodecpp_foundation.Base.Store.{Store, update}
use nodecpp_foundation.Base.Outcome.{Outcome, ok, throws, zombie_access, zero_access, asserting}
use nodecpp_foundation.TaggedPtr.PtrPtr.Optimized.{Config}

pub record Tagged : Type 0 where
  pub ptr : ℕ
  pub allocptr : ℕ
  pub payload : ℕ
  pub flags : ℕ
  pub zombie : Bool

module _ (c : Config) where
  open c use {lower, dataminsize, nflags}

  unfoldable pub max_data : ℕ
  max_data = if ltb dataminsize 32 then shl 1 dataminsize - 1 else 0xffffffff

  -- `throwNullptrOrZombieAccess`
  unfoldable pub throw_nullptr_or_zombie_access : Tagged → Outcome ℕ
  throw_nullptr_or_zombie_access g = if g.zombie then throws zombie_access else throws zero_access

  -- `throwZombieAccess` of this struct calls `throwZeroPointerAccess`.
  unfoldable pub throw_zombie_access {ℓ} : {A : Type ℓ} → Outcome A
  throw_zombie_access = throws zero_access

  -- `init()`
  unfoldable pub init_empty : Tagged
  init_empty = record { ptr = 0; allocptr = 0; payload = 0; flags = 0; zombie = false }

  unfoldable pub copy_from : Store Tagged → ℕ → ℕ → Outcome (Store Tagged)
  unfolding throw_zombie_access
  copy_from s this other =
      if not (s this).zombie && not (s other).zombie
      then ok (
          update s this (record (s this) {
            ptr = (s other).ptr;
            allocptr = (s other).allocptr;
            payload = (s other).payload;
            flags = (s other).flags;
          }))
      else throw_zombie_access

  unfoldable pub move_from : Store Tagged → ℕ → ℕ → Outcome (Store Tagged)
  unfolding throw_zombie_access init_empty
  move_from s this other =
      if not (s this).zombie && not (s other).zombie
      then ok (
          let s' = update s this (record (s this) {
            ptr = (s other).ptr;
            allocptr = (s other).allocptr;
            payload = (s other).payload;
            flags = (s other).flags;
          }) in
          update s' other init_empty)
      else throw_zombie_access

  -- The body of `swap` after its test.
  unfoldable pub swap_members : Store Tagged → ℕ → ℕ → Store Tagged
  swap_members s this other =
      let tmp = (s this).ptr in
      let s₁ = update s this (record (s this) { ptr = (s other).ptr }) in
      let s₂ = update s₁ other (record (s₁ other) { ptr = tmp }) in
      let tmp' = (s₂ this).allocptr in
      let s₃ = update s₂ this (record (s₂ this) { allocptr = (s₂ other).allocptr }) in
      let s₄ = update s₃ other (record (s₃ other) { allocptr = tmp' }) in
      let tmp_data = (s₄ this).payload in
      let s₅ = update s₄ this (record (s₄ this) { payload = (s₄ other).payload }) in
      let s₆ = update s₅ other (record (s₅ other) { payload = tmp_data }) in
      let tmp_flags = (s₆ this).flags in
      let s₇ = update s₆ this (record (s₆ this) { flags = (s₆ other).flags }) in
      update s₇ other (record (s₇ other) { flags = tmp_flags })

  unfoldable pub swap : Store Tagged → ℕ → ℕ → Outcome (Store Tagged)
  unfolding throw_zombie_access
  swap s this other =
      if not (s this).zombie && not (s other).zombie
      then ok (swap_members s this other)
      else throw_zombie_access

  -- `init( data )`
  unfoldable pub init_data : ℕ → Tagged
  unfolding init_empty
  init_data d = record init_empty { payload = d; zombie = false }

  unfoldable pub init : ℕ → ℕ → ℕ → Outcome Tagged
  init ptr_ allocptr_ d = asserting (bit_and allocptr_ (shl 1 lower - 1) == 0) (
      asserting (leb d max_data)
        (ok (record { ptr = ptr_; allocptr = allocptr_; payload = d; flags = 0; zombie = false })))

  unfoldable pub set_ptr : Tagged → ℕ → Tagged
  set_ptr g ptr_ = record g { ptr = ptr_ }

  unfoldable pub get_ptr : Tagged → Outcome ℕ
  unfolding throw_zombie_access
  get_ptr g = if not g.zombie then ok g.ptr else throw_zombie_access

  unfoldable pub get_dereferencable_ptr : Tagged → Outcome ℕ
  unfolding throw_nullptr_or_zombie_access
  get_dereferencable_ptr g =
      if not (g.zombie || g.ptr == 0) then ok g.ptr else throw_nullptr_or_zombie_access g

  unfoldable pub set_allocated_ptr : Tagged → ℕ → Outcome Tagged
  set_allocated_ptr g allocptr_ =
      asserting (bit_and allocptr_ (shl 1 lower - 1) == 0) (ok (record g { allocptr = allocptr_ }))

  unfoldable pub get_allocated_ptr : Tagged → Outcome ℕ
  unfolding throw_zombie_access
  get_allocated_ptr g = if not g.zombie then ok g.allocptr else throw_zombie_access

  unfoldable pub get_dereferencable_allocated_ptr : Tagged → Outcome ℕ
  unfolding throw_nullptr_or_zombie_access
  get_dereferencable_allocated_ptr g =
      if not (g.zombie || g.allocptr == 0) then ok g.allocptr else throw_nullptr_or_zombie_access g

  unfoldable pub set_zombie : Tagged → Tagged
  set_zombie g = record g { zombie = true }

  unfoldable pub is_zombie : Tagged → Bool
  is_zombie g = g.zombie

  -- `flags` is a `uint16_t`.
  unfoldable pub set_flag : ℕ → Tagged → Tagged
  set_flag pos g = record g { flags = bit_or g.flags (shl 1 pos) % 2 ^ 16 }

  unfoldable pub unset_flag : ℕ → Tagged → Tagged
  unset_flag pos g = record g { flags = bit_and g.flags (complement (shl 1 pos)) % 2 ^ 16 }

  unfoldable pub has_flag : ℕ → Tagged → Bool
  has_flag pos g = not (bit_and g.flags (shl 1 pos) == 0)

  unfoldable pub get_data : Tagged → ℕ
  get_data g = g.payload

  unfoldable pub set_data : Tagged → ℕ → Outcome Tagged
  set_data g d = asserting (leb d max_data) (ok (record g { payload = d }))
