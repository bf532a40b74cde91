-- ===== src/Log/Machine.antt =====
-- Threads that log and the writer, interleaved in any order: a step is what is done under one lock, of the buffer or of
-- a call that waits, or the write outside them (src/log.cpp). A call that throws is no step.
pub mod Stream
pub mod Loggers
pub mod Writing
pub mod Runs
use nodecpp_foundation.Base.{
  ℕ, ◌+◌, ◌<◌, ◌≡◌, List, [], ◌∷◌, ◌++◌, true, false, none, some, Option, Bool,
}
use nodecpp_foundation.Base.Lists.{put}
use nodecpp_foundation.Base.Outcome.{ok}
use nodecpp_foundation.Log.State.{
  LogBufferBaseData, terminate_if_alone, set_enter_terminating_phase, set_termination_allowed,
}
use nodecpp_foundation.Log.Transport.{
  LogState, CountersRef, of_log, of_waiting, counters, with_log, Progress, returned,
  waits_for_write, waits_for_room, add_msg_begin, add_msg_retry, woken, written_back,
}
use nodecpp_foundation.Log.Transport.Growth.{IsReport}
use nodecpp_foundation.Log.Writer.{Work, waits, take_work, perform, commit, release_waiting}

-- Where the writer is in a cycle of `runLoop_`
pub data WriterAt : Type 0 where
  at_top : WriterAt
  has_work : Work → WriterAt
  has_written : Work → WriterAt
  -- About to let go the transport, if there is one left, and then the call that waits for room
  releases : Option ℕ → Option ℕ → WriterAt
  -- The transport is let go, and `gww->next` is not read yet.
  has_released : ℕ → Option ℕ → WriterAt

-- What a round of the loop over the transports does under the lock of one
abbrev pub release_one : LogState → ℕ → LogState
release_one s t = record s { gww = put s.gww t (record (s.gww t) { can_run = true }) }

pub record Machine : Type 0 where
  pub state : LogState
  pub writer : WriterAt

module _ (fmt_decimal : ℕ → List ℕ) where
  -- The bytes that a call with progress `p` logs: the report on skipped messages and its message,
  -- or nothing
  abbrev pub Logs : LogState → CountersRef → List ℕ → Progress → List ℕ → Type 0
  Logs s ref msg (returned true) out =
      (report : List ℕ) × IsReport fmt_decimal (counters s ref) report × (out ≡ report ++ msg)
  Logs s ref msg waits_for_write out =
      (report : List ℕ) × IsReport fmt_decimal (counters s ref) report × (out ≡ report ++ msg)
  Logs s ref msg (returned false) out = out ≡ []
  Logs s ref msg waits_for_room out = out ≡ []

  -- `Step m out m'`: a step from `m` to `m'` logs the bytes `out`. The writer takes work when it
  -- does not wait and there are bytes to write, and the positions stay in a word.
  pub data Step (m : Machine) : List ℕ → Machine → Type 0 where
    begin :
        (t d : ℕ) (msg : List ℕ) (l : ℕ) (s' : LogState) (p : Progress) (out : List ℕ)
        → add_msg_begin fmt_decimal m.state t d msg l ≡ ok (s', p)
        → Logs m.state of_log msg p out
        → Step m out (record { state = s'; writer = m.writer })
    retry :
        (t d : ℕ) (msg : List ℕ) (l : ℕ) (s' : LogState) (p : Progress) (out : List ℕ)
        → (m.state.waiting d).can_run ≡ true
        → add_msg_retry fmt_decimal m.state t d msg l ≡ ok (s', p)
        → Logs (woken m.state d) (of_waiting d) msg p out
        → Step m out (record { state = s'; writer = m.writer })
    back :
        (t : ℕ)
        → (m.state.gww t).can_run ≡ true
        → Step m [] (record { state = (written_back m.state t).0; writer = m.writer })
    enter_termination : Step m [] (record {
      state = with_log m.state (set_enter_terminating_phase m.state.log);
      writer = m.writer;
    })
    allow_termination : Step m [] (record {
      state = with_log m.state (set_termination_allowed m.state.log);
      writer = m.writer;
    })
    take :
        (d' : LogBufferBaseData) (w : Work)
        → m.writer ≡ at_top
        → waits m.state.log ≡ false
        → m.state.log.start < m.state.log.end
        → take_work m.state.log ≡ ok (d', w)
        → Step m [] (record { state = with_log m.state d'; writer = has_work w })
    write :
        (d' : LogBufferBaseData) (w : Work)
        → m.writer ≡ has_work w
        → perform m.state.log w ≡ ok d'
        → Step m [] (record { state = with_log m.state d'; writer = has_written w })
    committed :
        (w : Work)
        → m.writer ≡ has_written w
        → w.end + m.state.log.buff_size < 0x10000000000000000
        → Step m [] (record {
          state = with_log m.state (commit m.state.log w);
          writer = releases w.gww w.p;
        })
    let_go :
        (t : ℕ) (p : Option ℕ)
        → m.writer ≡ releases (some t) p
        → (m.state.gww t).can_run ≡ false
        → Step m [] (record { state = release_one m.state t; writer = has_released t p })
    follow :
        (t : ℕ) (p : Option ℕ)
        → m.writer ≡ has_released t p
        → Step m [] (record { state = m.state; writer = releases (m.state.gww t).next p })
    let_insert :
        (d : ℕ) (s' : LogState)
        → m.writer ≡ releases none (some d)
        → release_waiting m.state (some d) ≡ ok s'
        → Step m [] (record { state = s'; writer = at_top })
    go_on :
        (d' : LogBufferBaseData)
        → m.writer ≡ releases none none
        → terminate_if_alone m.state.log ≡ (d', false)
        → Step m [] (record { state = with_log m.state d'; writer = at_top })

  -- A run logs the bytes of its steps in their order.
  pub data Run (m : Machine) : List ℕ → Machine → Type 0 where
    here : Run m [] m
    next :
        {m1 m2 : Machine} {out1 out2 : List ℕ}
        → Run m out1 m1
        → Step m1 out2 m2
        → Run m (out1 ++ out2) m2
