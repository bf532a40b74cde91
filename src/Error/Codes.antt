-- ===== src/Error/Codes.antt =====
-- The domains where `NODECPP_NO_STACK_INFO_IN_EXCEPTIONS` is defined: the pointer of an error is its code.
pub mod Descriptions
pub mod Equality
use nodecpp_foundation.Base.{ℕ, List, [], Option, none, some}
use nodecpp_foundation.Base.{Bool, true, false, ◌&&◌, ◌||◌, ◌==◌, if◌then◌else◌}
use nodecpp_foundation.Base.Outcome.{Outcome, ok}
use nodecpp_foundation.Error.Messages.{
  Errno, Errc, errc_code, bad_address, Merrc, merrc_code, generic_code_messages,
  memory_code_messages, message, sign_extend, to_int,
}
use nodecpp_foundation.Error.Class.{
  Domain, plain_domain, std_domain, memory_domain, Error, DomainOps, is_of,
}

-- `create_value`
abbrev pub create_value : ℕ → ℕ
create_value code = sign_extend code

-- The cases of the `switch` in `memory_error_domain::is_equivalent`
abbrev pub is_bad_access : ℕ → Bool
is_bad_access v = v == 1 || (v == 2 || (v == 4 || v == 5))

-- The errors that the program makes: `system_error( code )` and `memory_error( code )`
pub data Particular : Type 0 where
  system : Errc → Particular
  memory : Merrc → Particular

-- `DomainTypeT`
abbrev pub domain_type : Particular → Domain
domain_type (system c) = std_domain
domain_type (memory c) = memory_domain

module _ (e : Errno) where
  abbrev pub code : Particular → ℕ
  code (system c) = errc_code e c
  code (memory c) = merrc_code c

  -- The constructors
  unfoldable pub construct : Particular → Error
  construct p = record { domain = some (domain_type p); value = create_value (code p) }

  -- `value_to_message`
  unfoldable pub value_to_message : Domain → ℕ → List ℕ
  value_to_message plain_domain v = []
  value_to_message std_domain v = message (generic_code_messages e) (to_int v)
  value_to_message memory_domain v = message memory_code_messages (to_int v)

  -- `is_same_error_code`
  unfoldable pub is_same_error_code : Domain → ℕ → ℕ → Bool
  is_same_error_code plain_domain v1 v2 = false
  is_same_error_code std_domain v1 v2 = v1 == v2
  is_same_error_code memory_domain v1 v2 = v1 == v2

  -- `is_equivalent`; `_nodecpp_get_error_code` of the domain std is the value.
  unfoldable pub is_equivalent : Domain → Error → ℕ → Bool
  is_equivalent plain_domain src my_value = false
  is_equivalent std_domain src my_value =
      if is_of std_domain src then is_same_error_code std_domain my_value src.value else false
  is_equivalent memory_domain src my_value =
      if is_of memory_domain src
      then is_same_error_code memory_domain my_value src.value
      else (if is_of std_domain src
          then is_bad_access my_value && src.value == errc_code e bad_address
          else false)

  -- The domains of this build; `clone_value` gives the same value and `destroy_value` does nothing.
  unfoldable pub ops : {W : Type 0} → DomainOps W
  ops = record {
    value_to_message = λ w d v. ok (value_to_message d v);
    clone_value = λ w d v. ok (w, v);
    destroy_value = λ w d v. ok w;
    is_same_error_code = λ w d v1 v2. ok (is_same_error_code d v1 v2);
    is_equivalent = λ w d src v. ok (is_equivalent d src v);
  }
