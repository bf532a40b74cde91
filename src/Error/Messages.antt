-- ===== src/Error/Messages.antt =====
-- The codes of include/std_error.h and include/safe_memory_error.h and what is said of each.
use nodecpp_foundation.Base.{ℕ, ◌+◌, ◌%◌, List, [], ◌∷◌, Option, none, some, ◌≢◌, ◌<◌}
use nodecpp_foundation.Base.{ltb, leb, ◌||◌, if◌then◌else◌}
use nodecpp_foundation.Base.Lists.{put}

-- The constants of <cerrno> that the code names
pub record Errno : Type 0 where
  pub efault : ℕ
  pub eexist : ℕ
  pub enoent : ℕ
  pub enomem : ℕ
  pub eacces : ℕ

-- What the C library documents: positive and distinct, and small enough for the table
pub record IsErrno (e : Errno) : Type 0 where
  pub efault_range : (0 < e.efault) × (e.efault < 256)
  pub eexist_range : (0 < e.eexist) × (e.eexist < 256)
  pub enoent_range : (0 < e.enoent) × (e.enoent < 256)
  pub enomem_range : (0 < e.enomem) × (e.enomem < 256)
  pub eacces_range : (0 < e.eacces) × (e.eacces < 256)
  pub efault_other :
      (e.efault ≢ e.eexist) × (e.efault ≢ e.enoent) × (e.efault ≢ e.enomem) × (e.efault ≢ e.eacces)
  pub eexist_other : (e.eexist ≢ e.enoent) × (e.eexist ≢ e.enomem) × (e.eexist ≢ e.eacces)
  pub enoent_other : (e.enoent ≢ e.enomem) × (e.enoent ≢ e.eacces)
  pub enomem_other : e.enomem ≢ e.eacces

-- `errc`, whose other names stand for constants of <cerrno>; an `int` is its 32 bits.
pub data Errc : Type 0 where
  success : Errc
  unknown : Errc
  bad_address : Errc
  file_exists : Errc
  no_such_file_or_directory : Errc
  not_enough_memory : Errc
  permission_denied : Errc

abbrev pub errc_code : Errno → Errc → ℕ
errc_code e success = 0
errc_code e unknown = 0xFFFFFFFF
errc_code e bad_address = e.efault
errc_code e file_exists = e.eexist
errc_code e no_such_file_or_directory = e.enoent
errc_code e not_enough_memory = e.enomem
errc_code e permission_denied = e.eacces

-- `merrc`
pub data Merrc : Type 0 where
  memory_success : Merrc
  memory_unknown : Merrc
  zero_pointer_access : Merrc
  memory_access_violation : Merrc
  out_of_range : Merrc
  lately_detected_zombie_pointer_access : Merrc
  early_detected_zombie_pointer_access : Merrc

abbrev pub merrc_code : Merrc → ℕ
merrc_code memory_success = 0
merrc_code memory_unknown = 0xFFFFFFFF
merrc_code zero_pointer_access = 1
merrc_code memory_access_violation = 2
merrc_code out_of_range = 3
merrc_code lately_detected_zombie_pointer_access = 4
merrc_code early_detected_zombie_pointer_access = 5

abbrev pub unknown_text : List ℕ
unknown_text = b'u' ∷ b'n' ∷ b'k' ∷ b'n' ∷ b'o' ∷ b'w' ∷ b'n' ∷ []

abbrev pub success_text : List ℕ
success_text = b'S' ∷ b'u' ∷ b'c' ∷ b'c' ∷ b'e' ∷ b's' ∷ b's' ∷ []

abbrev pub bad_address_text : List ℕ
bad_address_text = b'B' ∷ b'a' ∷ b'd' ∷ b' ' ∷ b'a' ∷ b'd' ∷ b'd' ∷ b'r' ∷ b'e' ∷ b's' ∷ b's' ∷ []

abbrev pub file_exists_text : List ℕ
file_exists_text = b'F' ∷ b'i' ∷ b'l' ∷ b'e' ∷ b' ' ∷ b'e' ∷ b'x' ∷ b'i' ∷ b's' ∷ b't' ∷ b's' ∷ []

abbrev pub no_such_file_text : List ℕ
no_such_file_text =
    b'N' ∷ b'o' ∷ b' ' ∷ b's' ∷ b'u' ∷ b'c' ∷ b'h' ∷ b' ' ∷ b'f' ∷ b'i' ∷ b'l' ∷ b'e' ∷ b' ' ∷ b'o'
    ∷ b'r' ∷ b' ' ∷ b'd' ∷ b'i' ∷ b'r' ∷ b'e' ∷ b'c' ∷ b't' ∷ b'o' ∷ b'r' ∷ b'y' ∷ []

abbrev pub not_enough_memory_text : List ℕ
not_enough_memory_text =
    b'C' ∷ b'a' ∷ b'n' ∷ b'n' ∷ b'o' ∷ b't' ∷ b' ' ∷ b'a' ∷ b'l' ∷ b'l' ∷ b'o' ∷ b'c' ∷ b'a' ∷ b't'
    ∷ b'e' ∷ b' ' ∷ b'm' ∷ b'e' ∷ b'm' ∷ b'o' ∷ b'r' ∷ b'y' ∷ []

abbrev pub permission_denied_text : List ℕ
permission_denied_text =
    b'P' ∷ b'e' ∷ b'r' ∷ b'm' ∷ b'i' ∷ b's' ∷ b's' ∷ b'i' ∷ b'o' ∷ b'n' ∷ b' ' ∷ b'd' ∷ b'e' ∷ b'n'
    ∷ b'i' ∷ b'e' ∷ b'd' ∷ []

abbrev pub zero_pointer_text : List ℕ
zero_pointer_text =
    b'Z' ∷ b'e' ∷ b'r' ∷ b'o' ∷ b' ' ∷ b'p' ∷ b'o' ∷ b'i' ∷ b'n' ∷ b't' ∷ b'e' ∷ b'r' ∷ b' ' ∷ b'a'
    ∷ b'c' ∷ b'c' ∷ b'e' ∷ b's' ∷ b's' ∷ []

abbrev pub access_violation_text : List ℕ
access_violation_text =
    b'M' ∷ b'e' ∷ b'm' ∷ b'o' ∷ b'r' ∷ b'y' ∷ b' ' ∷ b'a' ∷ b'c' ∷ b'c' ∷ b'e' ∷ b's' ∷ b's' ∷ b' '
    ∷ b'v' ∷ b'i' ∷ b'o' ∷ b'l' ∷ b'a' ∷ b't' ∷ b'i' ∷ b'o' ∷ b'n' ∷ []

abbrev pub out_of_range_text : List ℕ
out_of_range_text =
    b'O' ∷ b'u' ∷ b't' ∷ b' ' ∷ b'o' ∷ b'f' ∷ b' ' ∷ b'r' ∷ b'a' ∷ b'n' ∷ b'g' ∷ b'e' ∷ []

abbrev pub lately_detected_text : List ℕ
lately_detected_text =
    b'L' ∷ b'a' ∷ b't' ∷ b'e' ∷ b'l' ∷ b'y' ∷ b' ' ∷ b'd' ∷ b'e' ∷ b't' ∷ b'e' ∷ b'c' ∷ b't' ∷ b'e'
    ∷ b'd' ∷ b' ' ∷ b'z' ∷ b'o' ∷ b'm' ∷ b'b' ∷ b'i' ∷ b'e' ∷ b' ' ∷ b'p' ∷ b'o' ∷ b'i' ∷ b'n'
    ∷ b't' ∷ b'e' ∷ b'r' ∷ b' ' ∷ b'a' ∷ b'c' ∷ b'c' ∷ b'e' ∷ b's' ∷ b's' ∷ []

abbrev pub early_detected_text : List ℕ
early_detected_text =
    b'E' ∷ b'a' ∷ b'r' ∷ b'l' ∷ b'y' ∷ b' ' ∷ b'd' ∷ b'e' ∷ b't' ∷ b'e' ∷ b'c' ∷ b't' ∷ b'e' ∷ b'd'
    ∷ b' ' ∷ b'z' ∷ b'o' ∷ b'm' ∷ b'b' ∷ b'i' ∷ b'e' ∷ b' ' ∷ b'p' ∷ b'o' ∷ b'i' ∷ b'n' ∷ b't'
    ∷ b'e' ∷ b'r' ∷ b' ' ∷ b'a' ∷ b'c' ∷ b'c' ∷ b'e' ∷ b's' ∷ b's' ∷ []

abbrev pub unknown_domain_text : List ℕ
unknown_domain_text =
    b'u' ∷ b'n' ∷ b'k' ∷ b'n' ∷ b'o' ∷ b'w' ∷ b'n' ∷ b' ' ∷ b'd' ∷ b'o' ∷ b'm' ∷ b'a' ∷ b'i' ∷ b'n'
    ∷ []

abbrev pub std_domain_text : List ℕ
std_domain_text =
    b's' ∷ b'y' ∷ b't' ∷ b'e' ∷ b'm' ∷ b' ' ∷ b'd' ∷ b'o' ∷ b'm' ∷ b'a' ∷ b'i' ∷ b'n' ∷ []

abbrev pub memory_domain_text : List ℕ
memory_domain_text =
    b'm' ∷ b'e' ∷ b'm' ∷ b'o' ∷ b'r' ∷ b'y' ∷ b' ' ∷ b'd' ∷ b'o' ∷ b'm' ∷ b'a' ∷ b'i' ∷ b'n' ∷ []

abbrev pub error_text : List ℕ
error_text = b'E' ∷ b'r' ∷ b'r' ∷ b'o' ∷ b'r' ∷ []

abbrev pub happened_text : List ℕ
happened_text =
    b'A' ∷ b'n' ∷ b' ' ∷ b'e' ∷ b'r' ∷ b'r' ∷ b'o' ∷ b'r' ∷ b' ' ∷ b'h' ∷ b'a' ∷ b'p' ∷ b'p' ∷ b'e'
    ∷ b'n' ∷ b'e' ∷ b'd' ∷ b'.' ∷ b' ' ∷ b'S' ∷ b't' ∷ b'a' ∷ b'c' ∷ b'k' ∷ b' ' ∷ b'i' ∷ b'n'
    ∷ b'f' ∷ b'o' ∷ b':' ∷ []

abbrev pub happened_at_text : List ℕ
happened_at_text =
    b' ' ∷ b'h' ∷ b'a' ∷ b'p' ∷ b'p' ∷ b'e' ∷ b'n' ∷ b'e' ∷ b'd' ∷ b' ' ∷ b'a' ∷ b't' ∷ []

-- `msgs` before it is filled
abbrev pub no_messages : ℕ → Option (List ℕ)
no_messages i = none

-- `generic_code_messages`
unfoldable pub generic_code_messages : Errno → ℕ → Option (List ℕ)
generic_code_messages e =
    put
      (put
        (put
          (put (put (put no_messages 0 (some success_text)) e.efault (some bad_address_text))
            e.eexist (some file_exists_text))
          e.enoent (some no_such_file_text))
        e.enomem (some not_enough_memory_text))
      e.eacces (some permission_denied_text)

-- `memory_code_messages`
unfoldable pub memory_code_messages : ℕ → Option (List ℕ)
memory_code_messages =
    put
      (put
        (put
          (put (put (put no_messages 0 (some success_text)) 1 (some zero_pointer_text)) 2
            (some access_violation_text))
          3 (some out_of_range_text))
        4 (some lately_detected_text))
      5 (some early_detected_text)

-- `operator []` of the tables, with an `int`
unfoldable pub message : (ℕ → Option (List ℕ)) → ℕ → List ℕ
message msgs i =
    if leb 0x80000000 i || leb 256 i
    then unknown_text
    else elim (msgs i) [ none ↦ unknown_text | some text ↦ text ]

-- An `int` as a pointer, and a pointer as an `int`
abbrev pub sign_extend : ℕ → ℕ
sign_extend i = if ltb i 0x80000000 then i else i + 0xFFFFFFFF00000000

abbrev pub to_int : ℕ → ℕ
to_int w = w % 0x100000000

-- What the code means by each code
abbrev pub errc_text : Errc → List ℕ
errc_text success = success_text
errc_text unknown = unknown_text
errc_text bad_address = bad_address_text
errc_text file_exists = file_exists_text
errc_text no_such_file_or_directory = no_such_file_text
errc_text not_enough_memory = not_enough_memory_text
errc_text permission_denied = permission_denied_text

abbrev pub merrc_text : Merrc → List ℕ
merrc_text memory_success = success_text
merrc_text memory_unknown = unknown_text
merrc_text zero_pointer_access = zero_pointer_text
merrc_text memory_access_violation = access_violation_text
merrc_text out_of_range = out_of_range_text
merrc_text lately_detected_zombie_pointer_access = lately_detected_text
merrc_text early_detected_zombie_pointer_access = early_detected_text
