-- ===== src/Log/Transport.antt =====
-- `LogTransport` of src/log.cpp: what a thread that logs does under the lock of the buffer. A call
-- of `addMsg` is known by a number, that of its `ChainedWaitingData`, and a transport by the number
-- of its `ChainedWaitingForGuaranteedWrite`. Notifications leave no state.
pub mod Growth
pub mod Success
pub mod Faults
use nodecpp_foundation.Base.{ℕ, ◌+◌, List, [], ◌∷◌, Option, none, some}
use nodecpp_foundation.Base.{Bool, true, false, not, ◌||◌, leb, ◌==◌, if◌then◌else◌}
use nodecpp_foundation.Base.Lists.{length, put}
use nodecpp_foundation.Base.Outcome.{Outcome, ok, asserting, ◌>>=◌}
use nodecpp_foundation.Log.Counters.{
  SkippedMsgCounters, cleared, full_count, increment, report_max_size, to_str,
}
use nodecpp_foundation.Log.State.{
  LogBufferBaseData, ChainedWaitingData, ChainedWaitingForGuaranteedWrite, new_waiting, is_none,
  is_proceed_to_termination, skipped_cnt_msg_sz, word_add,
}
use nodecpp_foundation.Log.Ring.{insert_single_msg}

pub record LogState : Type 0 where
  pub log : LogBufferBaseData
  pub waiting : ℕ → ChainedWaitingData
  pub gww : ℕ → ChainedWaitingForGuaranteedWrite

-- The counters that `insertMessage` is given by reference
pub data CountersRef : Type 0 where
  of_log : CountersRef
  of_waiting : ℕ → CountersRef

abbrev pub counters : LogState → CountersRef → SkippedMsgCounters
counters s of_log = s.log.skipped_ctrs
counters s (of_waiting d) = (s.waiting d).skipped_ctrs

abbrev pub set_counters : LogState → CountersRef → SkippedMsgCounters → LogState
set_counters s of_log c = record s { log = record s.log { skipped_ctrs = c } }
set_counters s (of_waiting d) c = record s {
  waiting = put s.waiting d (record (s.waiting d) { skipped_ctrs = c });
}

abbrev pub with_log : LogState → LogBufferBaseData → LogState
with_log s d = record s { log = d }

-- `insertMessage`: the transport waits for the guaranteed write.
unfoldable pub enqueue_guaranteed : LogState → ℕ → Outcome LogState
enqueue_guaranteed s t =
    let d = record s.log { must_be_written_immediately = s.log.end } in
    let gww' = put s.gww t (record (s.gww t) { next = none }) in
    let d' = record d { next_to_add_guaranteed = some t } in
    asserting (not (s.gww t).can_run) (elim d.next_to_add_guaranteed [
      | none ↦
          asserting (is_none d.first_to_release_guaranteed)
            (ok (record s { log = record d' { first_to_release_guaranteed = some t }; gww = gww' }))
      | some last ↦
          asserting (not (is_none d.first_to_release_guaranteed))
            (ok (record s { log = d'; gww = put gww' last (record (gww' last) { next = some t }) }))
    ])

-- What a call of `addMsg` comes to when it leaves the lock
pub data Progress : Type 0 where
  returned : Bool → Progress
  waits_for_write : Progress
  waits_for_room : Progress

-- `logData->nextToAdd == &d`
abbrev pub is_last : Option ℕ → ℕ → Bool
is_last none d = false
is_last (some last) d = last == d

-- `fullSzRequired`
abbrev pub full_sz_required : LogState → ℕ → ℕ
full_sz_required s sz =
    if full_count s.log.skipped_ctrs == 0 then sz else word_add sz skipped_cnt_msg_sz

-- `logData->end + fullSzRequired <= logData->start + logData->buffSize`
abbrev pub has_room : LogState → ℕ → Bool
has_room s sz =
    leb (word_add s.log.end (full_sz_required s sz)) (word_add s.log.start s.log.buff_size)

-- The end of `addMsg`: the next call that waits may run.
unfoldable pub let_next_run : LogState → ℕ → Outcome LogState
let_next_run s d = elim (s.waiting d).next [
  | none ↦ ok s
  | some n ↦
      asserting (not (s.waiting n).can_run)
        (ok (record s { waiting = put s.waiting n (record (s.waiting n) { can_run = true }) }))
]

-- `addMsg`: a call that waited for room leaves the list of those that wait.
unfoldable pub leave_queue : LogState → ℕ → Outcome LogState
leave_queue s d =
    if is_last s.log.next_to_add d
    then asserting (is_none (s.waiting d).next)
        (ok (record s { log = record s.log { next_to_add = none } }))
    else asserting (not (is_none (s.waiting d).next)) (ok s)

-- A call that waits for room takes note that it may run.
abbrev pub woken : LogState → ℕ → LogState
woken s d = record s { waiting = put s.waiting d (record (s.waiting d) { can_run = false }) }

module _ (fmt_decimal : ℕ → List ℕ) where
  -- `insertMessage`: the report on skipped messages
  unfoldable pub insert_report : LogState → CountersRef → Outcome LogState
  insert_report s ref =
      if not (full_count (counters s ref) == 0)
      then (to_str fmt_decimal (counters s ref) report_max_size >>= λ b.
          insert_single_msg s.log b >>= λ d. ok (set_counters (with_log s d) ref cleared))
      else ok s

  unfoldable pub insert_message : LogState → ℕ → List ℕ → CountersRef → Bool → Outcome LogState
  insert_message s t msg ref is_critical = insert_report s ref >>= λ s1.
      insert_single_msg s1.log msg >>= λ d.
      if is_critical || is_proceed_to_termination d.action
      then enqueue_guaranteed (with_log s1 d) t
      else ok (with_log s1 d)

  -- `addMsg` up to its first wait or its return
  unfoldable pub add_msg_begin : LogState → ℕ → ℕ → List ℕ → ℕ → Outcome (LogState × Progress)
  add_msg_begin s t d msg l =
      let is_critical = leb l s.log.level_guaranteed_write in
      let could_be_skipped = leb s.log.level_could_be_skipped l in
      elim s.log.next_to_add [
        | some last ↦ asserting (not (is_none s.log.first_to_release)) (
            if could_be_skipped
            then ok (
              record s {
                waiting = put s.waiting last (record (s.waiting last) {
                  skipped_ctrs = increment (s.waiting last).skipped_ctrs l;
                });
              },
              returned false,
            )
            else ok (
              let waiting' = put s.waiting d new_waiting in
                  record s {
                    log = record s.log { next_to_add = some d };
                    waiting = put waiting' last (record (waiting' last) { next = some d });
                  },
              waits_for_room,
            ))
        | none ↦
            if has_room s (length msg)
            then (insert_message s t msg of_log is_critical >>= λ s'.
                ok (s', if is_critical then waits_for_write else returned true))
            else (if could_be_skipped
                then ok (set_counters s of_log (increment s.log.skipped_ctrs l), returned false)
                else asserting (is_none s.log.first_to_release) (
                    ok (
                      record s {
                        log = record s.log { first_to_release = some d; next_to_add = some d };
                        waiting = put s.waiting d new_waiting;
                      },
                      waits_for_room,
                    )))
      ]

  -- `addMsg`: one round of the loop of a call that waits for room and may run
  unfoldable pub add_msg_retry : LogState → ℕ → ℕ → List ℕ → ℕ → Outcome (LogState × Progress)
  add_msg_retry s t d msg l =
      let s0 = woken s d in
      if not (has_room s0 (length msg))
      then asserting (is_none s0.log.first_to_release) (
          asserting (not (is_none s0.log.next_to_add))
            (ok (record s0 { log = record s0.log { first_to_release = some d } }, waits_for_room)))
      else insert_message s0 t msg (of_waiting d) (leb l s0.log.level_guaranteed_write) >>= λ s1.
          leave_queue s1 d >>= λ s2. let_next_run s2 d >>= λ s3. ok (s3, returned true)

-- `addMsg`: the end of a wait for the guaranteed write
unfoldable pub written_back : LogState → ℕ → LogState × Progress
written_back s t =
    (record s { gww = put s.gww t (record (s.gww t) { can_run = false }) }, returned true)
