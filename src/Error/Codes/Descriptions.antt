-- ===== src/Error/Codes/Descriptions.antt =====
-- Every code has its own text.
use nodecpp_foundation.Base.{
  ℕ, ◌<◌, ◌≡◌, ◌≢◌, refl, arith, List, Option, some, true, false, leb, ◌||◌, ◌==◌,
}
use nodecpp_foundation.Error.Messages.{
  success_text, bad_address_text, file_exists_text, no_such_file_text, not_enough_memory_text,
  permission_denied_text,
}
use nodecpp_foundation.Base.Outcome.{ok}
use nodecpp_foundation.Error.Messages.{
  Errno, IsErrno, Errc, success, unknown, bad_address, file_exists, no_such_file_or_directory,
  not_enough_memory, permission_denied, Merrc, memory_success, memory_unknown, zero_pointer_access,
  memory_access_violation, out_of_range, lately_detected_zombie_pointer_access,
  early_detected_zombie_pointer_access, errc_text, merrc_text, generic_code_messages,
  memory_code_messages, message, to_int, sign_extend, errc_code, merrc_code,
}
use nodecpp_foundation.Error.Class.{description}
use nodecpp_foundation.Error.Codes.{Particular, system, memory, construct, ops, value_to_message}

-- The text of the code that an error is made with
abbrev pub particular_text : Particular → List ℕ
particular_text (system c) = errc_text c
particular_text (memory c) = merrc_text c

small_int : (i : ℕ) → i < 256 → to_int (sign_extend i) ≡ i
small_int i lt = ground (arith, lt)

message-small :
    (msgs : ℕ → Option (List ℕ)) (i : ℕ) (text : List ℕ)
    → i < 256
    → msgs i ≡ some text
    → message msgs (to_int (sign_extend i)) ≡ text
unfolding message
message-small msgs i text lt there =
    let low : (leb 0x80000000 i || leb 256 i) ≡ false = ground (arith, lt) in
    rw (small_int i lt) (rw (message, low) (rw there refl))

apart : {m n : ℕ} → m ≢ n → (m == n) ≡ false
apart ne = ground (arith, ne)

positive : {n : ℕ} → 0 < n → (n == 0) ≡ false
positive lt = ground (arith, lt)

positive_sym : {n : ℕ} → 0 < n → (0 == n) ≡ false
positive_sym lt = ground (arith, lt)

same : (n : ℕ) → (n == n) ≡ true
same n = ground arith

errc_message :
    (e : Errno)
    → IsErrno e
    → (c : Errc)
    → message (generic_code_messages e) (to_int (sign_extend (errc_code e c))) ≡ errc_text c
unfolding generic_code_messages message
errc_message e is success = message-small (generic_code_messages e) 0 success_text (omega arith) (
    rw
      (
        positive_sym is.eacces_range.0,
        positive_sym is.enomem_range.0,
        positive_sym is.enoent_range.0,
        positive_sym is.eexist_range.0,
        positive_sym is.efault_range.0,
      )
      refl)
errc_message e is unknown = refl
errc_message e is bad_address =
    message-small (generic_code_messages e) e.efault bad_address_text is.efault_range.1 (
      rw
        (
          apart is.efault_other.3,
          apart is.efault_other.2,
          apart is.efault_other.1,
          apart is.efault_other.0,
          same e.efault,
        )
        refl)
errc_message e is file_exists =
    message-small (generic_code_messages e) e.eexist file_exists_text is.eexist_range.1 (
      rw (apart is.eexist_other.2, apart is.eexist_other.1, apart is.eexist_other.0, same e.eexist)
        refl)
errc_message e is no_such_file_or_directory =
    message-small (generic_code_messages e) e.enoent no_such_file_text is.enoent_range.1
      (rw (apart is.enoent_other.1, apart is.enoent_other.0, same e.enoent) refl)
errc_message e is not_enough_memory =
    message-small (generic_code_messages e) e.enomem not_enough_memory_text is.enomem_range.1
      (rw (apart is.enomem_other, same e.enomem) refl)
errc_message e is permission_denied =
    message-small (generic_code_messages e) e.eacces permission_denied_text is.eacces_range.1
      (rw (same e.eacces) refl)

merrc_message :
    (c : Merrc) → message memory_code_messages (to_int (sign_extend (merrc_code c))) ≡ merrc_text c
unfolding message memory_code_messages
merrc_message memory_success = refl
merrc_message memory_unknown = refl
merrc_message zero_pointer_access = refl
merrc_message memory_access_violation = refl
merrc_message out_of_range = refl
merrc_message lately_detected_zombie_pointer_access = refl
merrc_message early_detected_zombie_pointer_access = refl

-- An error made with any code is described by the text of that code, where the constants of <cerrno> are positive,
-- below 256 and distinct.
pub description-construct :
    {W : Type 0} (e : Errno)
    → IsErrno e
    → (w : W) (p : Particular) → description (ops e) w (construct e p) ≡ ok (particular_text p)
unfolding description ops construct value_to_message
description-construct e is w (system c) = rw (errc_message e is c) refl
description-construct e is w (memory c) = rw (merrc_message c) refl
