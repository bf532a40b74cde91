-- ===== src/Error/Traced.antt =====
-- The domains where `NODECPP_NO_STACK_INFO_IN_EXCEPTIONS` is not defined: an error points to a value that has its
-- code and the stack at which it was made.
pub mod Values
pub mod Equality
use nodecpp_foundation.Base.{ℕ, List, [], ◌∷◌, ◌++◌, Option, none, some}
use nodecpp_foundation.Base.{Bool, true, false, ◌&&◌, ◌==◌, if◌then◌else◌}
use nodecpp_foundation.Base.Lists.{elem, erase, put}
use nodecpp_foundation.Base.Outcome.{Outcome, ok, throws, ◌>>=◌, null_dereference, dangling_read}
use nodecpp_foundation.Log.Format.{Formatter, ThreadData}
use nodecpp_foundation.Log.Front.{Log, default_log, log}
use nodecpp_foundation.Stack.Resolve.{System, StackFrameInfo}
use nodecpp_foundation.Stack.Cache.{StackPointerInfoCache}
use nodecpp_foundation.Stack.Pointers.{Heap, copy_construct, destroy}
use nodecpp_foundation.Stack.Info.{
  StackInfo, new_stack_info, take_stack, is_data_stack_info, log_to, log_by_default,
}
use nodecpp_foundation.Error.Messages.{
  Errno, generic_code_messages, memory_code_messages, message, sign_extend, error_text,
  happened_text, happened_at_text,
}
use nodecpp_foundation.Error.Class.{
  Domain, plain_domain, std_domain, memory_domain, Error, DomainOps, is_of,
}
use nodecpp_foundation.Error.Codes.{is_bad_access}

-- `std_error_value` and `memory_error_value`
pub record ErrorValue : Type 0 where
  pub stack_info : StackInfo
  pub error_code : ℕ

-- The values in use, the value at an address, the arrays of addresses, and the data of the thread
pub record World : Type 0 where
  pub live : List ℕ
  pub value_at : ℕ → ErrorValue
  pub heap : Heap
  pub thread : ThreadData

-- What a pointer to a value points to
unfoldable pub read_value : World → ℕ → Outcome ErrorValue
read_value w p =
    if p == 0
    then throws null_dereference
    else (if elem p w.live then ok (w.value_at p) else throws dangling_read)

-- `delete`
unfoldable pub destroy_value : World → Domain → ℕ → Outcome World
destroy_value w plain_domain p = ok w
destroy_value w d p =
    if p == 0
    then ok w
    else (read_value w p >>= λ v. destroy w.heap v.stack_info.stack_pointers >>= λ h.
        ok (record w { live = erase p w.live; heap = h }))

-- `is_same_error_code`
unfoldable pub is_same_error_code : World → Domain → ℕ → ℕ → Outcome Bool
is_same_error_code w plain_domain p1 p2 = ok false
is_same_error_code w d p1 p2 =
    read_value w p1 >>= λ v1. read_value w p2 >>= λ v2. ok (v1.error_code == v2.error_code)

module _ (e : Errno) where
  -- `value_to_message`
  unfoldable pub value_to_message : World → Domain → ℕ → Outcome (List ℕ)
  value_to_message w plain_domain p = ok []
  value_to_message w std_domain p =
      read_value w p >>= λ v. ok (message (generic_code_messages e) v.error_code)
  value_to_message w memory_domain p =
      read_value w p >>= λ v. ok (message memory_code_messages v.error_code)

  -- `is_equivalent`; the `switch` of `memory_error_domain` is on the pointer.
  unfoldable pub is_equivalent : World → Domain → Error → ℕ → Outcome Bool
  is_equivalent w plain_domain src my_value = ok false
  is_equivalent w std_domain src my_value =
      if is_of std_domain src then is_same_error_code w std_domain my_value src.value else ok false
  is_equivalent w memory_domain src my_value =
      if is_of memory_domain src
      then is_same_error_code w memory_domain my_value src.value
      else (if is_of std_domain src && is_bad_access my_value
          then (read_value w src.value >>= λ v. ok (sign_extend v.error_code == e.efault))
          else ok false)

-- `new_block` is what `new` gives, given the values in use, and `malloc` the same for arrays.
module _ (new_block : List ℕ → ℕ) (malloc : List ℕ → ℕ → ℕ) where
  -- `new std_error_value( v )`: `v` copied to a new block
  unfoldable pub new_value : World → ErrorValue → Outcome (World × ℕ)
  new_value w v = copy_construct malloc w.heap v.stack_info.stack_pointers >>= λ r.
      let p = new_block w.live in
      let copy : ErrorValue = record v {
        stack_info = record v.stack_info { stack_pointers = r.1 };
      } in
      ok (record w { live = p ∷ w.live; value_at = put w.value_at p copy; heap = r.0 }, p)

  -- `clone_value`
  unfoldable pub clone_value : World → Domain → ℕ → Outcome (World × ℕ)
  clone_value w plain_domain p = ok (w, p)
  clone_value w d p = read_value w p >>= λ v. new_value w v

  -- `create_value( code )`: the value that `code` makes takes the stack, is copied to a new block, and is
  -- destroyed. `stack` is what `backtrace` gives, and the clock reads `ms`.
  unfoldable pub create_value : World → ℕ → List ℕ → ℕ → Outcome (World × ℕ)
  create_value w code stack ms =
      take_stack malloc w.heap w.thread new_stack_info [] stack ms >>= λ s.
      new_value (record w { heap = s.0; thread = s.1 })
        (record { stack_info = s.2; error_code = code })
      >>= λ r. destroy (r.0).heap (s.2).stack_pointers >>= λ h. ok (record (r.0) { heap = h }, r.1)

  -- The domains of this build
  unfoldable pub ops : Errno → DomainOps World
  ops e = record {
    value_to_message = value_to_message e;
    clone_value = clone_value;
    destroy_value = destroy_value;
    is_same_error_code = is_same_error_code;
    is_equivalent = is_equivalent e;
  }
