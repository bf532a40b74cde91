-- ===== src/Stack/Info/Taken.antt =====
-- What is written of a stack that is taken, and of one that is taken again.
use nodecpp_foundation.Base.{ℕ, ◌*◌, ◌≡◌, ◌≢◌, refl, ap, ◌∙◌, arith, List, []}
use nodecpp_foundation.Base.Lists.{length, elem}
use nodecpp_foundation.Base.Outcome.{Outcome, ok}
use nodecpp_foundation.Base.{Bool, true, false, not, ◌==◌, leb, if◌then◌else◌}
use nodecpp_foundation.Log.Format.{ThreadData, get_current_time_stamp}
use nodecpp_foundation.Stack.Text.{until_zero}
use nodecpp_foundation.Stack.Resolve.{System, StackFrameInfo, new_info}
use nodecpp_foundation.Stack.Cache.{StackPointerInfoCache}
use nodecpp_foundation.Stack.Cache.Reached.{Reached}
use nodecpp_foundation.Stack.Pointers.{StackPointers, Heap, on_stack, read, init, release}
use nodecpp_foundation.Stack.Pointers.Laws.{Owns, added, after, release-Owns, take-length, eq_refl}
use nodecpp_foundation.Stack.Info.{
  StackInfo, is_empty, strip, preinit, take_stack, frames, postinit, where_taken_stack_info,
}
use nodecpp_foundation.Stack.Info.Frames.{Frames, write_frames-Frames}

-- `init` with the array of a function
pub init-on_stack :
    (malloc : List ℕ → ℕ → ℕ) (heap h : Heap) (sp : StackPointers) (stack : List ℕ)
    → release heap sp ≡ ok h
    → malloc h.live (8 * length stack) ≢ 0
    → length stack ≢ 0
    → init malloc heap sp (on_stack stack) (length stack)
      ≡ ok (
        added h (malloc h.live (8 * length stack)) stack,
        record { ptrs = malloc h.live (8 * length stack); cnt = length stack },
      )
unfolding init read added
init-on_stack malloc heap h sp stack is given nonempty =
    let nonzero : (length stack == 0) ≡ false = ground (arith, nonempty) in
    let room : (malloc h.live (8 * length stack) == 0) ≡ false = ground (arith, given) in
    let whole : leb (length stack) (length stack) ≡ true = ground arith in
    rw (init, is) (rw (nonzero, room) (rw (read, whole) (rw (take-length stack) refl)))

-- A stack that is taken, with the information that then has it
pub record Takes (malloc : List ℕ → ℕ → ℕ) (heap : Heap) (th : ThreadData) (info : StackInfo)
    (strip_point stack : List ℕ) (ms : ℕ) : Type 0 where
  pub heap_after : Heap
  pub thread_after : ThreadData
  pub taken : StackInfo
  pub is :
      take_stack malloc heap th info strip_point stack ms ≡ ok (heap_after, thread_after, taken)
  pub holds : frames heap_after taken ≡ ok stack
  pub strips : taken.strip_point ≡ strip_point
  pub written : taken.where_taken ≡ info.where_taken

take_stack-Takes :
    (malloc : List ℕ → ℕ → ℕ) (heap : Heap) (th : ThreadData) (info : StackInfo)
    (strip_point stack : List ℕ) (ms : ℕ)
    → Owns heap info.stack_pointers
    → ((live : List ℕ) (n : ℕ) → malloc live n ≢ 0)
    → length stack ≢ 0
    → Takes malloc heap th info strip_point stack ms
unfolding take_stack preinit frames added read
take_stack-Takes malloc heap th info strip_point stack ms owns gives nonempty =
    let h = after heap info.stack_pointers in
    let q = malloc h.live (8 * length stack) in
    let done =
      init-on_stack malloc heap h info.stack_pointers stack
        (release-Owns heap info.stack_pointers owns) (gives h.live (8 * length stack)) nonempty in
    let stamp = get_current_time_stamp th ms in
    let nonzero : (length stack == 0) ≡ false = ground (arith, nonempty) in
    let at_end : elem q (added h q stack).live ≡ true = ground arith in
    let whole : leb (length stack) (length stack) ≡ true = ground arith in
    record {
      heap_after = added h q stack;
      thread_after = stamp.0;
      taken = record {
        stack_pointers = record { ptrs = q; cnt = length stack };
        strip_point = strip_point;
        time_stamp = stamp.1;
        where_taken = info.where_taken;
      };
      is = rw (take_stack, preinit, done) refl;
      holds =
          rw (frames, nonzero) (rw (read, at_end, eq_refl q) (rw (whole, take-length stack) refl));
      strips = refl;
      written = refl;
    }

-- A text as `postinit` keeps it
abbrev pub kept : List ℕ → List ℕ → List ℕ
kept text strip_point =
    until_zero (if not (is_empty strip_point) then strip text strip_point else text)

module _ (sys : System) (to_info : ℕ → StackFrameInfo → Outcome (StackFrameInfo × Bool)) where
  -- A stack of at least one address, taken by an object with no text, where `malloc` gives blocks and the search
  -- has an answer for every address: its text can be written, in any cache that a run reaches, and is that of all
  -- its frames in order, each that of the search except for the offset, without what the strip point cuts and what
  -- follows a zero.
  pub take_stack-where_taken_stack_info :
      (malloc : List ℕ → ℕ → ℕ) (heap : Heap) (th : ThreadData) (info : StackInfo)
      (strip_point stack : List ℕ) (ms : ℕ) (c : StackPointerInfoCache)
      → Owns heap info.stack_pointers
      → ((live : List ℕ) (n : ℕ) → malloc live n ≢ 0)
      → length stack ≢ 0
      → info.where_taken ≡ []
      → Reached to_info c
      → ((ptr : ℕ) → (r : StackFrameInfo × Bool) × (to_info ptr new_info ≡ ok r))
      → (s : Heap × ThreadData × StackInfo) × (t : StackPointerInfoCache × StackInfo) × (text : List
          ℕ)
        × (take_stack malloc heap th info strip_point stack ms ≡ ok s)
        × (where_taken_stack_info sys to_info (s.0) c (s.2) ≡ ok t)
        × (t.1.where_taken ≡ kept text strip_point)
        × Frames sys to_info stack text
  unfolding where_taken_stack_info postinit
  take_stack-where_taken_stack_info malloc heap th info strip_point stack ms c owns gives nonempty
        bare before answers =
      let took = take_stack-Takes malloc heap th info strip_point stack ms owns gives nonempty in
      let wrote = write_frames-Frames sys to_info c stack [] before answers in
      let empty : is_empty took.taken.where_taken ≡ true = ap is_empty (took.written ∙ bare) in
      (
        (took.heap_after, took.thread_after, took.taken),
        (wrote.0, record took.taken { where_taken = kept (wrote.1) took.taken.strip_point }),
        wrote.1,
        took.is,
        rw (where_taken_stack_info, empty) (rw (postinit, took.holds) (rw wrote.2 refl)),
        ap (kept (wrote.1)) took.strips,
        wrote.4,
      )

  -- An object that has its text and takes another stack keeps the old text: what is written of the new stack
  -- is what was written of the old one.
  pub take_stack-stale :
      (malloc : List ℕ → ℕ → ℕ) (heap : Heap) (th : ThreadData) (info : StackInfo)
      (strip_point stack : List ℕ) (ms : ℕ) (c : StackPointerInfoCache)
      → Owns heap info.stack_pointers
      → ((live : List ℕ) (n : ℕ) → malloc live n ≢ 0)
      → length stack ≢ 0
      → is_empty info.where_taken ≡ false
      → (s : Heap × ThreadData × StackInfo) × (take_stack malloc heap th info strip_point stack ms
          ≡ ok s)
        × (frames (s.0) (s.2) ≡ ok stack)
        × (where_taken_stack_info sys to_info (s.0) c (s.2) ≡ ok (c, s.2))
        × (s.2.where_taken ≡ info.where_taken)
  unfolding where_taken_stack_info
  take_stack-stale malloc heap th info strip_point stack ms c owns gives nonempty full =
      let took = take_stack-Takes malloc heap th info strip_point stack ms owns gives nonempty in
      let still : is_empty took.taken.where_taken ≡ false = ap is_empty took.written ∙ full in
      (
        (took.heap_after, took.thread_after, took.taken),
        took.is,
        took.holds,
        rw (where_taken_stack_info, still) refl,
        took.written,
      )
