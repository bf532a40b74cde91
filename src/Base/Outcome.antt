-- ===== src/Base/Outcome.antt =====
-- How a call ends: with a value, or with one of the exceptions that the code throws (src/tagged_ptr_impl.cpp,
-- src/nodecpp_assert.cpp, the allocators), or outside what the language defines.
use nodecpp_foundation.Base.{Bool, true, false, ◌≡◌, refl}

pub data Failure : Type 0 where
  -- `throw lately_detected_zombie_pointer_access`
  zombie_access : Failure
  -- `throw zero_pointer_access`
  zero_access : Failure
  -- `throw std::exception()` from `onAssertionFailed`
  assertion_failed : Failure
  -- A page is freed that is not allocated.
  invalid_free : Failure
  -- `throw std::bad_alloc()`
  bad_alloc : Failure
  -- A null pointer is used.
  null_dereference : Failure
  -- A string is read that is freed.
  dangling_read : Failure
  -- An array is written past its end.
  buffer_overflow : Failure
  -- An `int` is shifted further than the language defines.
  undefined_shift : Failure
  -- The model's own: a loop is given too little fuel.
  out_of_fuel : Failure

pub data Outcome {ℓ} (A : Type ℓ) : Type ℓ where
  ok : A → Outcome A
  throws : Failure → Outcome A

-- `NODECPP_ASSERT`: the default `ShouldAssert` throws at every level.
abbrev pub asserting {ℓ} : {A : Type ℓ} → Bool → Outcome A → Outcome A
asserting true rest = rest
asserting false rest = throws assertion_failed

infixl 5 ◌>>=◌
abbrev pub ◌>>=◌ {ℓ κ} : {A : Type ℓ} {B : Type κ} → Outcome A → (A → Outcome B) → Outcome B
ok a >>= f = f a
throws e >>= f = throws e

-- What a call that succeeds has gone through.
pub >>=-ok {ℓ κ} :
    {A : Type ℓ} {B : Type κ} (m : Outcome A) (f : A → Outcome B) {b : B}
    → (m >>= f) ≡ ok b
    → (a : A) × (m ≡ ok a) × (f a ≡ ok b)
>>=-ok (ok a) f h = (a, refl, h)
>>=-ok (throws e) f h = cc

pub asserting-ok {ℓ} :
    {A : Type ℓ} (test : Bool) (rest : Outcome A) {a : A}
    → asserting test rest ≡ ok a
    → (test ≡ true) × (rest ≡ ok a)
asserting-ok true rest h = (refl, h)
asserting-ok false rest h = cc

abbrev pub is_ok {ℓ} : {A : Type ℓ} → Outcome A → Bool
is_ok (ok a) = true
is_ok (throws e) = false

pub is_ok-ok {ℓ} : {A : Type ℓ} (r : Outcome A) → is_ok r ≡ true → (a : A) × (r ≡ ok a)
is_ok-ok (ok a) h = (a, refl)
is_ok-ok (throws e) h = cc
