-- ===== src/Assert.antt =====
-- The assertions of include/nodecpp_assert.h and src/nodecpp_assert.cpp.
pub mod Texts
use nodecpp_foundation.Base.{ℕ, ◌-◌, List, [], ◌∷◌, ◌++◌, Option, none, some}
use nodecpp_foundation.Base.{Bool, true, false, leb, if◌then◌else◌}
use nodecpp_foundation.Base.Lists.{put}
use nodecpp_foundation.Log.Format.{Formatter, ThreadData, c_string}
use nodecpp_foundation.Log.Front.{Log}
use nodecpp_foundation.Log.Forwards.{default_error}

pub data ActionType : Type 0 where
  ignoring : ActionType
  throwing : ActionType
  terminating : ActionType

-- How an assertion ends: the program goes on, `std::exception` is thrown, or `std::abort` is called.
pub data Ending : Type 0 where
  goes_on : Ending
  throws_exception : Ending
  aborts : Ending

-- Where an assertion stands: the file, the line as text, and the condition
pub record Place : Type 0 where
  pub file : List ℕ
  pub line : List ℕ
  pub cond_string : List ℕ

-- The call: the bytes in the buffers before it, what the clock reads, the data of the thread and its log
pub record Call : Type 0 where
  pub buffer : ℕ → ℕ
  pub clock : ℕ → ℕ
  pub thread : ThreadData
  pub current : Option Log

-- `logBufSz`
abbrev pub log_buf_sz : ℕ
log_buf_sz = 1024

-- The three points and the zero at the end of a buffer that is too short
abbrev pub marked : (ℕ → ℕ) → ℕ → ℕ
marked b =
    put (put (put (put b (log_buf_sz - 4) b'.') (log_buf_sz - 3) b'.') (log_buf_sz - 2) b'.')
      (log_buf_sz - 1) 0

-- 'File "', '", line ', ": assertion '", "' failed" and ', message: "'
abbrev file_text : List ℕ
file_text = b'F' ∷ b'i' ∷ b'l' ∷ b'e' ∷ b' ' ∷ 34 ∷ []

abbrev line_text : List ℕ
line_text = 34 ∷ b',' ∷ b' ' ∷ b'l' ∷ b'i' ∷ b'n' ∷ b'e' ∷ b' ' ∷ []

abbrev assertion_text : List ℕ
assertion_text =
    b':' ∷ b' ' ∷ b'a' ∷ b's' ∷ b's' ∷ b'e' ∷ b'r' ∷ b't' ∷ b'i' ∷ b'o' ∷ b'n' ∷ b' ' ∷ 39 ∷ []

abbrev failed_text : List ℕ
failed_text = 39 ∷ b' ' ∷ b'f' ∷ b'a' ∷ b'i' ∷ b'l' ∷ b'e' ∷ b'd' ∷ []

abbrev message_text : List ℕ
message_text = b',' ∷ b' ' ∷ b'm' ∷ b'e' ∷ b's' ∷ b's' ∷ b'a' ∷ b'g' ∷ b'e' ∷ b':' ∷ b' ' ∷ 34 ∷ []

-- The line that is logged, with the message if there is one
abbrev pub failure_line : Place → Option (List ℕ) → List ℕ
failure_line at_place why =
    file_text
    ++ (at_place.file
        ++ (line_text
            ++ (at_place.line
                ++ (assertion_text
                    ++ (at_place.cond_string
                        ++ (failed_text ++ (elim why [
                          | none ↦ []
                          | some w ↦ message_text ++ (w ++ (34 ∷ []))
                        ])))))))

module _ (f : Formatter) where
  -- The message as it stands in `logBuf`, from the whole text that `formatStr` and its arguments make
  unfoldable pub log_buf : (ℕ → ℕ) → List ℕ → List ℕ
  log_buf buffer text =
      let res = f.format_to_n buffer 0 (log_buf_sz - 1) text in
      if leb log_buf_sz (res.1)
      then c_string log_buf_sz (marked (res.0)) 0
      else c_string log_buf_sz (put (res.0) (res.1) 0) 0

  -- `onAssertionFailed`: the calls of `addMsg`, at the level `err`, and the ending
  unfoldable pub on_assertion_failed :
      Call → Place → Option (List ℕ) → Bool → (ThreadData × List (ℕ × List ℕ)) × Ending
  on_assertion_failed call at_place why should_throw = (
    default_error f call.buffer call.clock call.thread call.current none
        (failure_line at_place why),
    if should_throw then throws_exception else aborts,
  )

  -- `nodecpp_assert` with a message, and without one, where `ShouldAssert` has the value `action`
  unfoldable pub nodecpp_assert :
      ActionType → Call → Place → Bool → Option (List ℕ) → (ThreadData × List (ℕ × List ℕ)) × Ending
  nodecpp_assert action call at_place true text = ((call.thread, []), goes_on)
  nodecpp_assert ignoring call at_place false text = ((call.thread, []), goes_on)
  nodecpp_assert throwing call at_place false none = on_assertion_failed call at_place none true
  nodecpp_assert throwing call at_place false (some text) =
      on_assertion_failed call at_place (some (log_buf call.buffer text)) true
  nodecpp_assert terminating call at_place false none = on_assertion_failed call at_place none false
  nodecpp_assert terminating call at_place false (some text) =
      on_assertion_failed call at_place (some (log_buf call.buffer text)) false
