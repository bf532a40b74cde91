-- ===== src/Tests/Errors.antt =====
-- The theorems on errors at concrete inputs.
use nodecpp_foundation.Base.{ℕ, ◌+◌, ◌==◌, if◌then◌else◌, ◌≡◌, refl, arith}
use nodecpp_foundation.Base.{[], ◌∷◌, none, some, false}
use nodecpp_foundation.Base.Lists.{length, take}
use nodecpp_foundation.Base.Bytes.{write_from}
use nodecpp_foundation.Base.Outcome.{ok, is_ok-ok}
use nodecpp_foundation.Log.Format.{Formatter, IsFormatter}
use nodecpp_foundation.Log.Format.Strings.{IsString}
use nodecpp_foundation.Assert.{log_buf_sz, log_buf}
use nodecpp_foundation.Assert.Texts.{points, log_buf_lem}
use nodecpp_foundation.Base.{zero, suc, leb, ◌++◌}
use nodecpp_foundation.Log.Front.{Log, new_log}
use nodecpp_foundation.Stack.Cache.{StackPointerInfoCache, new_cache}
use nodecpp_foundation.Stack.Info.{
  new_stack_info, log_to, where_taken_stack_info, is_data_stack_info,
}
use nodecpp_foundation.Error.Messages.{
  Errno, IsErrno, bad_address, file_exists, zero_pointer_access,
}
use nodecpp_foundation.Error.Class.{std_domain, memory_domain, Error, description, is_equal}
use nodecpp_foundation.Error.Codes
use nodecpp_foundation.Error.Codes.{system, memory, construct, domain_type}
use nodecpp_foundation.Error.Codes.Descriptions.{particular_text, description-construct}
use nodecpp_foundation.Error.Codes.Equality.{agree, is_equal-agree}
use nodecpp_foundation.Error.Traced
use nodecpp_foundation.Error.Traced.{
  World, ErrorValue, create_value, read_value, destroy_value, value_to_message,
}
use nodecpp_foundation.Error.Traced.Equality.{is_equal-never}
use nodecpp_foundation.Error.Traced.Values.{create_value-destroy_value}
use nodecpp_foundation.Error.Logging.{
  Call, Sent, given, log_traced, log_value, log_with_stack, log_stack, log_info,
}
use nodecpp_foundation.Error.Logging.Kept.{Same, log_traced-Same}
use nodecpp_foundation.Tests.Allocator.{counting_malloc, counting_malloc-IsMalloc}
use nodecpp_foundation.Tests.Stacks
use nodecpp_foundation.Tests.Stacks.{malloc, malloc-IsFresh, malloc-gives, thread, no_heap}

-- The constants of Linux
abbrev errno : Errno
errno = record { efault = 14; eexist = 17; enoent = 2; enomem = 12; eacces = 13 }

errno-IsErrno : IsErrno errno
errno-IsErrno = record {
  efault_range = (omega arith, omega arith);
  eexist_range = (omega arith, omega arith);
  enoent_range = (omega arith, omega arith);
  enomem_range = (omega arith, omega arith);
  eacces_range = (omega arith, omega arith);
  efault_other = (omega arith, omega arith, omega arith, omega arith);
  eexist_other = (omega arith, omega arith, omega arith);
  enoent_other = (omega arith, omega arith);
  enomem_other = omega arith;
}

abbrev value : ℕ → ErrorValue
value code = record {
  stack_info = record new_stack_info { time_stamp = 1; where_taken = b'x' ∷ [] };
  error_code = code;
}

-- A zero pointer access and a bad address, at two addresses
abbrev world : World
world = record {
  live = 0x2000 ∷ 0x3000 ∷ [];
  value_at = λ p. if p == 0x2000 then value 1 else value 14;
  heap = no_heap;
  thread = thread;
}

abbrev zero_pointer : Error
zero_pointer = record { domain = some memory_domain; value = 0x2000 }

abbrev bad : Error
bad = record { domain = some std_domain; value = 0x3000 }

description-construct_example :
    description (Codes.ops errno) world (construct errno (system file_exists))
    ≡ ok (particular_text (system file_exists))
description-construct_example = description-construct errno errno-IsErrno world (system file_exists)

is_equal-agree_example :
    is_equal
      (Codes.ops errno)
      (domain_type (memory zero_pointer_access))
      world
      (construct errno (system bad_address))
      (construct errno (memory zero_pointer_access))
    ≡ ok (agree errno (system bad_address) (memory zero_pointer_access))
is_equal-agree_example =
    is_equal-agree errno errno-IsErrno world (system bad_address) (memory zero_pointer_access)

is_equal-never_example :
    (is_equal (Traced.ops counting_malloc malloc errno) std_domain world zero_pointer bad
      ≡ ok false)
    × (is_equal (Traced.ops counting_malloc malloc errno) memory_domain world bad zero_pointer
        ≡ ok false)
is_equal-never_example =
    is_equal-never counting_malloc malloc errno world zero_pointer bad
      (record { domain = refl; value = refl; high = omega arith })
      (record { domain = refl; value = refl; high = omega arith })

create_value-destroy_value_example :
    (s : World × ℕ) × (v : ErrorValue) × (w' : World) × (create_value counting_malloc malloc world
        17
        (0x1234 ∷ 0x1235 ∷ [])
        5
      ≡ ok s)
    × (read_value (s.0) (s.1) ≡ ok v)
    × (v.error_code ≡ 17)
    × (destroy_value (s.0) std_domain (s.1) ≡ ok w')
    × (w'.live ≡ world.live)
    × (w'.heap.live ≡ world.heap.live)
create_value-destroy_value_example =
    create_value-destroy_value counting_malloc malloc world std_domain 17 (0x1234 ∷ 0x1235 ∷ []) 5
      counting_malloc-IsMalloc malloc-IsFresh malloc-gives (λ e. cc) (omega arith)

-- A formatter that writes what it is given
abbrev formatter : Formatter
formatter = record {
  decimal = λ n. [];
  stamp = λ n. b'0' ∷ [];
  format_to_n = λ b p n text. (write_from b p (take n text), length text);
}

abbrev call : Call
call = record { buffer = λ i. 0; clock = λ i t. i + t; current = none; level = 0 }

-- A log with one transport
abbrev one_transport : Log
one_transport = record new_log { transports = 0x7000 ∷ [] }

-- What logging the zero pointer access leaves
logged :
    (r : World × StackPointerInfoCache × Sent) × (log_traced formatter call Stacks.system
        Stacks.to_info errno
        (given one_transport)
        world
        new_cache
        zero_pointer
      ≡ ok r)
unfolding log_traced log_value log_with_stack log_stack log_info log_to where_taken_stack_info
    is_data_stack_info read_value value_to_message
logged =
    is_ok-ok
      (log_traced formatter call Stacks.system Stacks.to_info errno (given one_transport) world
        new_cache zero_pointer)
      refl

log_traced-Same_example : Same world (logged.0.0)
log_traced-Same_example =
    log_traced-Same formatter call Stacks.system Stacks.to_info errno (given one_transport) world
      new_cache zero_pointer (logged.0) (logged.1)

formatter-IsFormatter : IsFormatter formatter
formatter-IsFormatter = record {
  size = λ b p n text. refl;
  bytes = λ b p n text q. refl;
  few_digits = λ t lt. omega arith;
}

letters-IsString : IsString (65 ∷ 66 ∷ [])
letters-IsString zero lt = omega arith
letters-IsString (suc zero) lt = omega arith
letters-IsString (suc (suc i)) lt = absurd (omega (arith, lt))

log_buf_lem_example : log_buf formatter (λ i. 7) (65 ∷ 66 ∷ []) ≡ (
    if leb log_buf_sz (length (65 ∷ 66 ∷ []))
    then take 1020 (65 ∷ 66 ∷ []) ++ points
    else 65 ∷ 66 ∷ [])
log_buf_lem_example =
    log_buf_lem formatter formatter-IsFormatter (λ i. 7) (65 ∷ 66 ∷ []) letters-IsString
