-- ===== src/Stack/Info.antt =====
-- `StackInfo` of include/stack_info.h and src/stack_info.cpp: a stack that is taken at once and written out when
-- its text is first asked for. A `string_ref` is its characters here.
pub mod Frames
pub mod Taken
use nodecpp_foundation.Base.{ℕ, suc, ◌+◌, List, [], ◌∷◌, ◌++◌, Option, none, some}
use nodecpp_foundation.Base.{Bool, true, false, not, ◌&&◌, ◌==◌, if◌then◌else◌}
use nodecpp_foundation.Base.Lists.{length, drop}
use nodecpp_foundation.Base.Outcome.{Outcome, ok, ◌>>=◌}
use nodecpp_foundation.Log.Format.{Formatter, ThreadData, get_current_time_stamp}
use nodecpp_foundation.Log.Front.{Log, default_log, log}
use nodecpp_foundation.Stack.Text.{until_zero, find_text}
use nodecpp_foundation.Stack.Resolve.{System, StackFrameInfo, new_info}
use nodecpp_foundation.Stack.Cache.{StackPointerInfoCache, resolve_data}
use nodecpp_foundation.Stack.Pointers.{
  StackPointers, no_pointers, Heap, on_stack, in_heap, read, init,
}

pub record StackInfo : Type 0 where
  pub stack_pointers : StackPointers
  pub strip_point : List ℕ
  pub time_stamp : ℕ
  pub where_taken : List ℕ

-- `StackInfo()`; a time stamp begins as 0.
abbrev pub new_stack_info : StackInfo
new_stack_info = record {
  stack_pointers = no_pointers;
  strip_point = [];
  time_stamp = 0;
  where_taken = [];
}

abbrev pub is_empty : List ℕ → Bool
is_empty [] = true
is_empty (c ∷ cs) = false

-- "\tat" and " [+0x"
abbrev at_text : List ℕ
at_text = b'\t' ∷ b'a' ∷ b't' ∷ []

abbrev plus_text : List ℕ
plus_text = b' ' ∷ b'[' ∷ b'+' ∷ b'0' ∷ b'x' ∷ []

-- " in " and ", line "
abbrev in_text : List ℕ
in_text = b' ' ∷ b'i' ∷ b'n' ∷ b' ' ∷ []

abbrev line_text : List ℕ
line_text = b',' ∷ b' ' ∷ b'l' ∷ b'i' ∷ b'n' ∷ b'e' ∷ b' ' ∷ []

-- " <...>\n"
abbrev nothing_text : List ℕ
nothing_text = b' ' ∷ b'<' ∷ b'.' ∷ b'.' ∷ b'.' ∷ b'>' ∷ b'\n' ∷ []

-- `stackPointerToInfoToString`: what it adds to `out`
unfoldable pub stack_pointer_to_info_to_string : System → StackFrameInfo → List ℕ
stack_pointer_to_info_to_string sys info =
    let place =
      if not (is_empty info.module_path)
      then at_text
        ++ (b' ' ∷ (info.module_path ++ (plus_text ++ (sys.hex info.offset ++ (b']' ∷ [])))))
      else at_text in
    let where_text = info.src_path ++ (line_text ++ (sys.int_text info.line ++ (b'\n' ∷ []))) in
    let what =
      if not (is_empty info.function_name) && not (is_empty info.src_path)
      then b',' ∷ b' ' ∷ (info.function_name ++ (in_text ++ where_text))
      else (if not (is_empty info.src_path)
          then b',' ∷ b' ' ∷ b' ' ∷ where_text
          else (if not (is_empty info.function_name)
              then b',' ∷ b' ' ∷ (info.function_name ++ (b'\n' ∷ []))
              else nothing_text)) in
    place ++ what

-- `strip`: without all up to the line in which the strip point first stands
unfoldable pub strip : List ℕ → List ℕ → List ℕ
strip s strip_point = elim (find_text strip_point s) [
  | none ↦ s
  | some pos ↦ elim (find_text (b'\n' ∷ []) (drop pos s)) [
    | none ↦ s
    | some more ↦ drop (pos + more + 1) s
  ]
]

-- `preinit` on Linux: `stack` is what `backtrace` gives, and the clock reads `ms`.
unfoldable pub preinit :
    (List ℕ → ℕ → ℕ)
    → Heap
    → ThreadData
    → StackInfo
    → List ℕ
    → ℕ
    → Outcome (Heap × ThreadData × StackInfo)
preinit malloc heap th info stack ms =
    init malloc heap info.stack_pointers (on_stack stack) (length stack) >>= λ r.
    let stamp = get_current_time_stamp th ms in
    ok (r.0, stamp.0, record info { stack_pointers = r.1; time_stamp = stamp.1 })

-- `init( stripPoint_ )`, and `init()` with the empty one
unfoldable pub take_stack :
    (List ℕ → ℕ → ℕ)
    → Heap
    → ThreadData
    → StackInfo
    → List ℕ
    → List ℕ
    → ℕ
    → Outcome (Heap × ThreadData × StackInfo)
take_stack malloc heap th info strip_point stack ms =
    preinit malloc heap th (record info { strip_point = strip_point }) stack ms

-- `clear`
unfoldable pub clear : StackInfo → StackInfo
clear info = record info { strip_point = []; where_taken = [] }

-- `isDataStackInfo`
unfoldable pub is_data_stack_info : StackInfo → Bool
is_data_stack_info info =
    not (is_empty info.where_taken && (info.time_stamp == 0 && info.stack_pointers.cnt == 0))

-- What `stackPointers` holds
unfoldable pub frames : Heap → StackInfo → Outcome (List ℕ)
frames heap info =
    if info.stack_pointers.cnt == 0
    then ok []
    else read heap (in_heap info.stack_pointers.ptrs) info.stack_pointers.cnt

module _ (sys : System) (to_info : ℕ → StackFrameInfo → Outcome (StackFrameInfo × Bool)) where
  -- The loop of `postinit`
  unfoldable pub write_frames :
      StackPointerInfoCache → List ℕ → List ℕ → Outcome (StackPointerInfoCache × List ℕ)
  write_frames c [] out = ok (c, out)
  write_frames c (ptr ∷ stack) out = resolve_data to_info c ptr new_info >>= λ r.
      write_frames (r.0) stack (out ++ stack_pointer_to_info_to_string sys (r.1))

  -- `postinit`
  unfoldable pub postinit :
      Heap → StackPointerInfoCache → StackInfo → Outcome (StackPointerInfoCache × StackInfo)
  postinit heap c info = frames heap info >>= λ stack. write_frames c stack [] >>= λ r.
      let out = if not (is_empty info.strip_point) then strip (r.1) info.strip_point else r.1 in
      ok (r.0, record info { where_taken = until_zero out })

  -- `whereTakenStackInfo`: the information with its text
  unfoldable pub where_taken_stack_info :
      Heap → StackPointerInfoCache → StackInfo → Outcome (StackPointerInfoCache × StackInfo)
  where_taken_stack_info heap c info =
      if is_empty info.where_taken then postinit heap c info else ok (c, info)

  module _ (f : Formatter) where
    -- "time {}\n{}"
    abbrev pub stack_text : StackInfo → List ℕ
    stack_text info =
        b't' ∷ b'i' ∷ b'm' ∷ b'e' ∷ b' ' ∷ (f.stamp info.time_stamp ++ (b'\n' ∷ info.where_taken))

    -- `log( targetLog, l )`: the information with its text, and the calls of `addMsg`
    unfoldable pub log_to :
        (ℕ → ℕ)
        → (ℕ → ℕ)
        → ThreadData
        → Log
        → ℕ
        → Heap
        → StackPointerInfoCache
        → StackInfo
        → Outcome (StackPointerInfoCache × StackInfo × ThreadData × List (ℕ × List ℕ))
    log_to buffer clock th g l heap c info = where_taken_stack_info heap c info >>= λ r.
        let sent = log f buffer clock th g none l (stack_text (r.1)) in
        ok (r.0, r.1, sent.0, sent.1)

    -- `log( l )`
    unfoldable pub log_by_default :
        (ℕ → ℕ)
        → (ℕ → ℕ)
        → ThreadData
        → Option Log
        → ℕ
        → Heap
        → StackPointerInfoCache
        → StackInfo
        → Outcome (StackPointerInfoCache × StackInfo × ThreadData × List (ℕ × List ℕ))
    log_by_default buffer clock th g l heap c info = where_taken_stack_info heap c info >>= λ r.
        let sent = default_log f buffer clock th g none l (stack_text (r.1)) in
        ok (r.0, r.1, sent.0, sent.1)
