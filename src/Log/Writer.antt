-- ===== src/Log/Writer.antt =====
-- `LogWriter` of src/log.cpp, the thread that writes the buffer to the file. A cycle of `runLoop_`
-- has parts under the lock of the buffer and parts outside it; each is a function here.
pub mod Release
pub mod Cycles
pub mod Drain
use nodecpp_foundation.Base.{ℕ, zero, suc, ◌+◌, List, [], ◌∷◌, Option, none, some}
use nodecpp_foundation.Base.{Bool, true, false, not, ◌&&◌, ◌||◌, leb, ltb, ◌==◌, if◌then◌else◌}
use nodecpp_foundation.Base.Lists.{put}
use nodecpp_foundation.Base.Outcome.{Outcome, ok, throws, asserting, ◌>>=◌, out_of_fuel}
use nodecpp_foundation.Log.State.{
  LogBufferBaseData, is_none, is_proceed, max_message_size, available_size, terminate_if_alone,
}
use nodecpp_foundation.Log.Ring.{just_write}
use nodecpp_foundation.Log.Transport.{LogState, with_log}

-- The condition of the inner `while`: the writer goes on waiting.
abbrev pub waits : LogBufferBaseData → Bool
waits d =
    (is_proceed d.action
      && (d.end == d.start)
      && leb d.must_be_written_immediately d.start
      && is_none d.first_to_release
      && is_none d.first_to_release_guaranteed)
    || (not (is_proceed d.action)
        && (d.end == d.start)
        && is_none d.first_to_release
        && is_none d.first_to_release_guaranteed)

-- The local variables of a cycle
pub record Work : Type 0 where
  pub start : ℕ
  pub end : ℕ
  pub p : Option ℕ
  pub gww : Option ℕ
  pub must_be_written_immediately : ℕ

-- The first part under the lock
unfoldable pub take_work : LogBufferBaseData → Outcome (LogBufferBaseData × Work)
take_work d =
    let releases = not (is_none d.first_to_release) && leb max_message_size (available_size d) in
    let work : Work = record {
      start = d.start;
      end = d.end;
      p = if releases then d.first_to_release else none;
      gww = d.first_to_release_guaranteed;
      must_be_written_immediately = d.must_be_written_immediately;
    } in
    asserting (is_none d.first_to_release_guaranteed || ltb d.start d.must_be_written_immediately) (
      ok (
        record d {
          first_to_release_guaranteed = none;
          next_to_add_guaranteed =
              if is_none d.first_to_release_guaranteed then d.next_to_add_guaranteed else none;
          first_to_release = if releases then none else d.first_to_release;
        },
        work,
      ))

-- The write outside the lock
unfoldable pub perform : LogBufferBaseData → Work → Outcome LogBufferBaseData
perform d w =
    if is_none w.gww
    then just_write d w.start w.end
    else asserting (is_none w.p) (
        asserting (ltb w.start w.must_be_written_immediately)
          (asserting (leb w.must_be_written_immediately w.end) (just_write d w.start w.end)))

-- The second part under the lock
abbrev pub commit : LogBufferBaseData → Work → LogBufferBaseData
commit d w = record d { start = w.end }

-- The loop that lets go the threads that wait for a guaranteed write, with none of them coming between its rounds
-- (Log/Machine takes the rounds one by one)
unfoldable pub release_guaranteed : ℕ → LogState → Option ℕ → Outcome LogState
release_guaranteed fuel s none = ok s
release_guaranteed zero s (some t) = throws out_of_fuel
release_guaranteed (suc fuel) s (some t) =
    let s' = record s { gww = put s.gww t (record (s.gww t) { can_run = true }) } in
    asserting (not (s.gww t).can_run) (release_guaranteed fuel s' (s.gww t).next)

-- The release of a thread that waits for room
unfoldable pub release_waiting : LogState → Option ℕ → Outcome LogState
release_waiting s none = ok s
release_waiting s (some d) =
    asserting (not (s.waiting d).can_run)
      (ok (record s { waiting = put s.waiting d (record (s.waiting d) { can_run = true }) }))

-- The end of a cycle: with a thread released the loop goes on, since `start` is `end` by then;
-- without one the writer may be done.
unfoldable pub end_cycle : LogState → Work → Outcome (LogState × Bool)
end_cycle s w = release_waiting s w.p >>= λ s'.
    if is_none w.p
    then (let r = terminate_if_alone s'.log in ok (with_log s' (r.0), r.1))
    else ok (s', false)

-- A cycle that no other thread comes between, for as many transports as `fuel`
unfoldable pub cycle : ℕ → LogState → Outcome (LogState × Bool)
cycle fuel s = take_work s.log >>= λ r.
    let w = r.1 in
    perform (r.0) w >>= λ d.
    release_guaranteed fuel (with_log s (commit d w)) w.gww >>= λ s'. end_cycle s' w
