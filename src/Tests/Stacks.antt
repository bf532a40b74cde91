-- ===== src/Tests/Stacks.antt =====
-- The theorems on stacks at concrete inputs: a module and what addr2line prints about an address in it.
use nodecpp_foundation.Base.{ℕ, ◌%◌, ◌==◌, if◌then◌else◌, ◌≡◌, ◌≢◌, refl, arith, inl, inr}
use nodecpp_foundation.Base.{List, [], ◌∷◌, ◌++◌, some, true, Bool}
use nodecpp_foundation.Base.Outcome.{Outcome, ok}
use nodecpp_foundation.Base.Store.{Store}
use nodecpp_foundation.Log.State.{word_sub}
use nodecpp_foundation.Log.Format.{ThreadData}
use nodecpp_foundation.Stack.Text.{digits_value}
use nodecpp_foundation.Stack.Resolve.{
  System, StackFrameInfo, new_info, cleared_unknown, sh, parse_addr2line_output,
  stack_pointer_to_info, use_addr2line, call_addr2line, sh_loop, parse_source,
}
use nodecpp_foundation.Stack.Resolve.Pipe.{sh_lem}
use nodecpp_foundation.Stack.Resolve.Parse.{parse_addr2line_output_lem}
use nodecpp_foundation.Stack.Cache.{
  StackPointerInfoCache, new_cache, get_resolved, add_resolved, resolve_data,
}
use nodecpp_foundation.Stack.Cache.Entries.{plain}
use nodecpp_foundation.Stack.Cache.Reached.{
  Reached, made, resolved, resolve_data-plain, resolve_data-again,
}
use nodecpp_foundation.Stack.Pointers.{StackPointers, no_pointers, Heap, copy_assign}
use nodecpp_foundation.Stack.Pointers.Laws.{IsFresh, Owns, Copied, copy_assign-Copied}
use nodecpp_foundation.Stack.Info.{
  StackInfo, new_stack_info, take_stack, frames, where_taken_stack_info,
}
use nodecpp_foundation.Stack.Info.Frames.{Frames}
use nodecpp_foundation.Stack.Info.Taken.{kept, take_stack-where_taken_stack_info, take_stack-stale}
use nodecpp_foundation.Tests.Allocator.{counting_malloc, counting_malloc-IsMalloc}

-- "f\na:7\n"
abbrev printed : List ℕ
printed = b'f' ∷ b'\n' ∷ b'a' ∷ b':' ∷ b'7' ∷ b'\n' ∷ []

abbrev pub system : System
system = record {
  dladdr = λ ptr. some (b'm' ∷ [], 0x1000);
  run = λ cmd. some printed;
  hex = λ n. b'f' ∷ [];
  int_text = λ n. b'7' ∷ [];
}

sh_lem_example : sh system [] ≡ ok printed
sh_lem_example = sh_lem system [] printed refl refl

parse_addr2line_output_lem_example :
    parse_addr2line_output
      ((b'f' ∷ []) ++ (b'\n' ∷ ((b'a' ∷ []) ++ (b':' ∷ ((b'7' ∷ []) ++ (b'\n' ∷ []))))))
      new_info
    ≡ record new_info {
      function_name = cleared_unknown (b'f' ∷ []);
      src_path = cleared_unknown (b'a' ∷ []);
      line = digits_value 0 (b'7' ∷ []) % 0x100000000;
    }
parse_addr2line_output_lem_example =
    parse_addr2line_output_lem (b'f' ∷ []) (b'a' ∷ []) b'7' [] (b'\n' ∷ []) new_info refl refl
      (refl, tt) refl

abbrev pub to_info : ℕ → StackFrameInfo → Outcome (StackFrameInfo × Bool)
to_info = stack_pointer_to_info system

-- What is found out about an address
abbrev found : ℕ → StackFrameInfo
found offset = record {
  module_path = b'm' ∷ [];
  function_name = b'f' ∷ [];
  src_path = b'a' ∷ [];
  line = 7;
  column = 0;
  offset = offset;
  offset2 = 0;
}

answers : (ptr : ℕ) → (r : StackFrameInfo × Bool) × (to_info ptr new_info ≡ ok r)
unfolding stack_pointer_to_info use_addr2line call_addr2line sh sh_loop parse_addr2line_output
    parse_source
answers ptr = ((found (word_sub ptr 0x1000), true), refl)

to_info-found : to_info 0x1234 new_info ≡ ok (found 0x234, true)
unfolding stack_pointer_to_info use_addr2line call_addr2line sh sh_loop parse_addr2line_output
    parse_source
to_info-found = refl

abbrev once : StackPointerInfoCache × StackFrameInfo
once = (add_resolved new_cache 0x1234 (found 0x234), found 0x234)

resolved_once : resolve_data to_info new_cache 0x1234 new_info ≡ ok once
unfolding resolve_data get_resolved stack_pointer_to_info use_addr2line call_addr2line sh sh_loop
    parse_addr2line_output parse_source
resolved_once = refl

once-Reached : Reached to_info (once.0)
once-Reached = resolved 0x1234 made resolved_once

resolve_data-plain_example :
    (s : StackPointerInfoCache × StackFrameInfo) × (resolve_data to_info (once.0) 0x1234 new_info
      ≡ ok s)
    × (plain (s.1) ≡ plain (found 0x234))
resolve_data-plain_example =
    resolve_data-plain to_info (once.0) 0x1234 (found 0x234, true) once-Reached to_info-found

resolve_data-again_example :
    resolve_data to_info (once.0) 0x1234 new_info ≡ ok (once.0, plain (found 0x234))
resolve_data-again_example = resolve_data-again to_info new_cache 0x1234 once made resolved_once

abbrev pub malloc : List ℕ → ℕ → ℕ
malloc live n = counting_malloc live

pub malloc-IsFresh : IsFresh malloc
malloc-IsFresh live n = counting_malloc-IsMalloc.fresh live

pub malloc-gives : (live : List ℕ) (n : ℕ) → malloc live n ≢ 0
malloc-gives live n = counting_malloc-IsMalloc.not_null live

-- Two objects, with two addresses and one
abbrev heap : Heap
heap = record {
  live = 2 ∷ 1 ∷ [];
  words = λ p. if p == 1 then 0x1111 ∷ [] else 0x2222 ∷ 0x3333 ∷ [];
}

abbrev objects : Store StackPointers
objects p =
    if p == 1
    then record { ptrs = 1; cnt = 1 }
    else (if p == 2 then record { ptrs = 2; cnt = 2 } else no_pointers)

first-Owns : Owns heap (objects 1)
first-Owns = record {
  held = inr refl;
  counted = λ e. refl;
  none = λ e. omega (arith, e);
  some = λ e. omega arith;
}

second-Owns : Owns heap (objects 2)
second-Owns = record {
  held = inr refl;
  counted = λ e. refl;
  none = λ e. omega (arith, e);
  some = λ e. omega arith;
}

copy_assign-Copied_example :
    (h : Heap) × (t : Store StackPointers) × (copy_assign malloc heap objects 1 2 ≡ ok (h, t))
    × (t 2 ≡ objects 2)
    × Copied heap (objects 2) h (t 1) (t 2)
copy_assign-Copied_example =
    copy_assign-Copied malloc heap objects 1 2 malloc-IsFresh malloc-gives first-Owns second-Owns
      (omega arith) (omega arith)

abbrev pub thread : ThreadData
thread = record { instance_id = 0; last_time_reported = 0; ordinal_since_last_reported_time = 0 }

abbrev pub no_heap : Heap
no_heap = record { live = []; words = λ p. [] }

new-Owns : Owns no_heap no_pointers
new-Owns = record {
  held = inl refl;
  counted = λ e. absurd (e refl);
  none = λ e. refl;
  some = λ e. absurd (e refl);
}

take_stack-where_taken_stack_info_example :
    (s : Heap × ThreadData × StackInfo) × (t : StackPointerInfoCache × StackInfo) × (text : List ℕ)
    × (take_stack malloc no_heap thread new_stack_info (b'm' ∷ []) (0x1234 ∷ 0x1235 ∷ []) 5 ≡ ok s)
    × (where_taken_stack_info system to_info (s.0) (once.0) (s.2) ≡ ok t)
    × (t.1.where_taken ≡ kept text (b'm' ∷ []))
    × Frames system to_info (0x1234 ∷ 0x1235 ∷ []) text
take_stack-where_taken_stack_info_example =
    take_stack-where_taken_stack_info system to_info malloc no_heap thread new_stack_info
      (b'm' ∷ []) (0x1234 ∷ 0x1235 ∷ []) 5 (once.0) new-Owns malloc-gives (omega arith) refl
      once-Reached answers

abbrev written : StackInfo
written = record new_stack_info { where_taken = b'x' ∷ [] }

take_stack-stale_example :
    (s : Heap × ThreadData × StackInfo) × (take_stack malloc no_heap thread written []
        (0x1234 ∷ [])
        5
      ≡ ok s)
    × (frames (s.0) (s.2) ≡ ok (0x1234 ∷ []))
    × (where_taken_stack_info system to_info (s.0) (once.0) (s.2) ≡ ok (once.0, s.2))
    × (s.2.where_taken ≡ b'x' ∷ [])
take_stack-stale_example =
    take_stack-stale system to_info malloc no_heap thread written [] (0x1234 ∷ []) 5 (once.0)
      new-Owns malloc-gives (omega arith) refl
