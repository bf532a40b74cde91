-- ===== src/Error/Codes/Equality.antt =====
-- What it is for errors to be equal.
use nodecpp_foundation.Base.{
  ℕ, ◌<◌, ◌≡◌, refl, ap, arith, ◌==◌, ◌&&◌, Bool, true, false, if◌then◌else◌,
}
use nodecpp_foundation.Base.Outcome.{ok}
use nodecpp_foundation.Error.Messages.{
  Errno, IsErrno, Errc, success, unknown, bad_address, file_exists, no_such_file_or_directory,
  not_enough_memory, permission_denied, Merrc, memory_success, memory_unknown, zero_pointer_access,
  memory_access_violation, out_of_range, lately_detected_zombie_pointer_access,
  early_detected_zombie_pointer_access, errc_code, merrc_code, sign_extend,
}
use nodecpp_foundation.Error.Class.{plain_domain, is_equal, is_equivalent_as}
use nodecpp_foundation.Error.Codes.{
  Particular, system, memory, construct, domain_type, ops, is_equivalent, is_same_error_code,
  create_value, is_bad_access,
}

-- The errors of memory that are a use of a bad address
abbrev pub means_bad_address : Merrc → Bool
means_bad_address memory_success = false
means_bad_address memory_unknown = false
means_bad_address zero_pointer_access = true
means_bad_address memory_access_violation = true
means_bad_address out_of_range = false
means_bad_address lately_detected_zombie_pointer_access = true
means_bad_address early_detected_zombie_pointer_access = true

-- Two errors are the same: by their codes, or as a bad address.
abbrev pub agree : Errno → Particular → Particular → Bool
agree e (system c) (system c') = errc_code e c == errc_code e c'
agree e (memory c) (memory c') = merrc_code c == merrc_code c'
agree e (memory c) (system c') = means_bad_address c && errc_code e c' == e.efault
agree e (system c) (memory c') = means_bad_address c' && errc_code e c == e.efault

sign_extend_injective :
    (m n : ℕ) → m < 0x100000000 → n < 0x100000000 → (sign_extend m == sign_extend n) ≡ (m == n)
sign_extend_injective m n lm ln = ground (arith, lm, ln)

errc_code_small : (e : Errno) → IsErrno e → (c : Errc) → errc_code e c < 0x100000000
errc_code_small e is success = omega arith
errc_code_small e is unknown = omega arith
errc_code_small e is bad_address = omega (arith, is.efault_range.1)
errc_code_small e is file_exists = omega (arith, is.eexist_range.1)
errc_code_small e is no_such_file_or_directory = omega (arith, is.enoent_range.1)
errc_code_small e is not_enough_memory = omega (arith, is.enomem_range.1)
errc_code_small e is permission_denied = omega (arith, is.eacces_range.1)

merrc_code_small : (c : Merrc) → merrc_code c < 0x100000000
merrc_code_small memory_success = omega arith
merrc_code_small memory_unknown = omega arith
merrc_code_small zero_pointer_access = omega arith
merrc_code_small memory_access_violation = omega arith
merrc_code_small out_of_range = omega arith
merrc_code_small lately_detected_zombie_pointer_access = omega arith
merrc_code_small early_detected_zombie_pointer_access = omega arith

as_true : (b : Bool) → (if b then ok true else ok false) ≡ ok b
as_true true = refl
as_true false = refl

-- The `switch` reads the codes that mean it.
is_bad_access_lem : (c : Merrc) → is_bad_access (create_value (merrc_code c)) ≡ means_bad_address c
is_bad_access_lem memory_success = refl
is_bad_access_lem memory_unknown = refl
is_bad_access_lem zero_pointer_access = refl
is_bad_access_lem memory_access_violation = refl
is_bad_access_lem out_of_range = refl
is_bad_access_lem lately_detected_zombie_pointer_access = refl
is_bad_access_lem early_detected_zombie_pointer_access = refl

errc_access :
    (e : Errno)
    → IsErrno e
    → (c : Errc) → (create_value (errc_code e c) == e.efault) ≡ (errc_code e c == e.efault)
errc_access e is c =
    let small = errc_code_small e is c in let low = is.efault_range.1 in ground (arith, small, low)

-- Two errors compare equal, each as the class that it is made as, where their codes are equal or one is the system's
-- bad address and the other an access to a zero, zombie or protected address; the order does not matter.
pub is_equal-agree :
    {W : Type 0} (e : Errno)
    → IsErrno e
    → (w : W) (a b : Particular)
    → is_equal (ops e) (domain_type b) w (construct e a) (construct e b) ≡ ok (agree e a b)
unfolding is_equal is_equivalent_as ops construct is_equivalent is_same_error_code
is_equal-agree e is w (system c) (system c') = ap ok (
    sign_extend_injective (errc_code e c) (errc_code e c') (errc_code_small e is c)
      (errc_code_small e is c'))
is_equal-agree e is w (memory c) (memory c') = ap ok (
    sign_extend_injective (merrc_code c) (merrc_code c') (merrc_code_small c) (merrc_code_small c'))
is_equal-agree e is w (memory c) (system c') =
    rw (is_bad_access_lem c, errc_access e is c') (as_true (agree e (memory c) (system c')))
is_equal-agree e is w (system c) (memory c') = rw (is_bad_access_lem c', errc_access e is c) refl

-- Compared as an `error`, the right operand is not asked: an error of the system is never equal to one of memory
-- that is so held, whatever their codes, although the same two the other way round are compared by their codes.
pub is_equal-as_error :
    {W : Type 0} (e : Errno)
    → IsErrno e
    → (w : W) (c : Errc) (c' : Merrc)
    → (is_equal (ops e) plain_domain w (construct e (system c)) (construct e (memory c'))
        ≡ ok false)
      × (is_equal (ops e) plain_domain w (construct e (memory c')) (construct e (system c))
          ≡ ok (agree e (memory c') (system c)))
unfolding is_equal is_equivalent_as ops construct is_equivalent is_same_error_code
is_equal-as_error e is w c c' =
    (refl, rw (is_bad_access_lem c', errc_access e is c) (as_true (agree e (memory c') (system c))))
