-- ===== src/Stack/Info/Frames.antt =====
-- The text of a stack is the texts of its frames.
use nodecpp_foundation.Base.{ℕ, ◌≡◌, ap, sym, ◌∙◌, List, [], ◌∷◌, ◌++◌}
use nodecpp_foundation.Base.Lists.{append_assoc, append-nil}
use nodecpp_foundation.Base.Outcome.{Outcome, ok}
use nodecpp_foundation.Base.{Bool}
use nodecpp_foundation.Stack.Resolve.{System, StackFrameInfo, new_info}
use nodecpp_foundation.Stack.Cache.{StackPointerInfoCache}
use nodecpp_foundation.Stack.Cache.Entries.{plain}
use nodecpp_foundation.Stack.Cache.Reached.{Reached, resolved, resolve_data-plain}
use nodecpp_foundation.Stack.Info.{stack_pointer_to_info_to_string, write_frames}

module _ (sys : System) (to_info : ℕ → StackFrameInfo → Outcome (StackFrameInfo × Bool)) where
  -- One answer for every address of a stack, that of the search except for the offset, and their texts in order
  pub data Frames : List ℕ → List ℕ → Type 0 where
    bottom : Frames [] []
    frame :
        {stack out : List ℕ} (ptr : ℕ) (r : StackFrameInfo × Bool) (shown : StackFrameInfo)
        → to_info ptr new_info ≡ ok r
        → plain shown ≡ plain (r.0)
        → Frames stack out
        → Frames (ptr ∷ stack) (stack_pointer_to_info_to_string sys shown ++ out)

  -- Where the search has an answer for every address, the loop of `postinit` ends in a cache that a run reaches,
  -- with one text for every frame, in the order of the stack, each that of the search except for the offset.
  pub write_frames-Frames :
      (c : StackPointerInfoCache) (stack out : List ℕ)
      → Reached to_info c
      → ((ptr : ℕ) → (r : StackFrameInfo × Bool) × (to_info ptr new_info ≡ ok r))
      → (c' : StackPointerInfoCache) × (text : List ℕ) × (write_frames sys to_info c stack out
          ≡ ok (c', out ++ text))
        × Reached to_info c'
        × Frames stack text
  unfolding write_frames
  write_frames-Frames c [] out before answers =
      (c, [], ap (λ t. ok (c, t)) (sym (append-nil out)), before, bottom)
  write_frames-Frames c (ptr ∷ stack) out before answers =
      let a = answers ptr in
      let s = resolve_data-plain to_info c ptr (a.0) before a.1 in
      let text = stack_pointer_to_info_to_string sys (s.0.1) in
      let rest =
        write_frames-Frames (s.0.0) stack (out ++ text) (resolved ptr before (s.1)) answers in
      (
        rest.0,
        text ++ rest.1,
        rw (write_frames, s.1) (rest.2 ∙ ap (λ t. ok (rest.0, t)) (append_assoc out text (rest.1))),
        rest.3,
        frame ptr (a.0) (s.0.1) a.1 s.2 rest.4,
      )
