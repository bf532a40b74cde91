-- ===== src/TaggedPtr/Zombie.antt =====
-- `ptr_with_zombie_property`: the operations that its two structs share, and a client that calls
-- them on objects at given addresses, one object being another's source or its own.
pub mod Generic
pub mod Optimized
pub mod Refine
use nodecpp_foundation.Base.{ℕ, Bool, List, [], ◌∷◌, ◌≡◌}
use nodecpp_foundation.Base.Store.{Store, update}
use nodecpp_foundation.Base.Outcome.{Outcome, ok, throws, Failure}

-- What a struct of type `P` implements.
pub record Pointers (P : Type 0) : Type 0 where
  pub init : P → ℕ → P
  pub reset : P → P
  pub set_zombie : P → P
  pub is_zombie : P → Bool
  pub get_dereferencable_ptr : P → Outcome ℕ
  pub get_ptr : P → Outcome ℕ
  pub copy_from : Store P → ℕ → ℕ → Outcome (Store P)
  pub move_from : Store P → ℕ → ℕ → Outcome (Store P)
  pub swap : Store P → ℕ → ℕ → Outcome (Store P)

-- A call on the object at the first number; a second is the source object, or the address given.
pub data Op : Type 0 where
  init : ℕ → ℕ → Op
  reset : ℕ → Op
  set_zombie : ℕ → Op
  is_zombie : ℕ → Op
  get_dereferencable_ptr : ℕ → Op
  get_ptr : ℕ → Op
  copy_from : ℕ → ℕ → Op
  move_from : ℕ → ℕ → Op
  swap : ℕ → ℕ → Op

pub data Reply : Type 0 where
  done : Reply
  mark : Bool → Reply
  address : Outcome ℕ → Reply
  failed : Failure → Reply

-- An operation that throws leaves the objects as they were; the client sees what it throws.
abbrev pub settle : {P : Type 0} → Store P → Outcome (Store P) → Reply × Store P
settle s (ok s') = (done, s')
settle s (throws e) = (failed e, s)

module _ {P : Type 0} (m : Pointers P) where
  unfoldable pub step : Op → Store P → Reply × Store P
  step (Op.init d a) s = (done, update s d (m.init (s d) a))
  step (Op.reset d) s = (done, update s d (m.reset (s d)))
  step (Op.set_zombie d) s = (done, update s d (m.set_zombie (s d)))
  step (Op.is_zombie d) s = (mark (m.is_zombie (s d)), s)
  step (Op.get_dereferencable_ptr d) s = (address (m.get_dereferencable_ptr (s d)), s)
  step (Op.get_ptr d) s = (address (m.get_ptr (s d)), s)
  step (Op.copy_from d e) s = settle s (m.copy_from s d e)
  step (Op.move_from d e) s = settle s (m.move_from s d e)
  step (Op.swap d e) s = settle s (m.swap s d e)

  -- A client's calls in order, with what each replies.
  unfoldable pub run : List Op → Store P → List Reply
  run [] s = []
  run (op ∷ ops) s = (step op s).0 ∷ run ops (step op s).1
