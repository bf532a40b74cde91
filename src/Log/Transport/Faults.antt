-- ===== src/Log/Transport/Faults.antt =====
-- Calls of threads that log that end in a failed assertion.
use nodecpp_foundation.Base.{ℕ, suc, ◌+◌, ◌≤◌, ◌<◌, ◌≡◌, ◌≢◌, refl, ap, arith}
use nodecpp_foundation.Base.{List, none, some, Bool, true, leb, lt_or_ge, inl, inr}
use nodecpp_foundation.Base.Lists.{length}
use nodecpp_foundation.Base.Outcome.{ok, throws, assertion_failed}
use nodecpp_foundation.Log.Counters.{full_count, to_str, report_max_size, cleared}
use nodecpp_foundation.Log.State.{LogBufferBaseData, available_size}
use nodecpp_foundation.Log.Ring.{insert_single_msg}
use nodecpp_foundation.Log.Ring.Contents.{IsRing, available_size_lem}
use nodecpp_foundation.Log.Ring.Growth.{insert_single_msg-grows}
use nodecpp_foundation.Log.Transport.{
  LogState, CountersRef, of_waiting, counters, with_log, set_counters, enqueue_guaranteed,
  insert_report, insert_message, has_room, add_msg_begin, add_msg_retry, woken,
}
use nodecpp_foundation.Log.Writer.{Work, take_work, release_guaranteed}

-- While the writer lets go a call that waited for room, and until that call has its turn, the list
-- of calls that wait has an end but no start: every `addMsg` that begins in between fails an
-- assertion.
pub add_msg_begin-after_release :
    (fmt_decimal : ℕ → List ℕ) (s : LogState) (d' : LogBufferBaseData) (w : Work) (last t d : ℕ)
    (msg : List ℕ) (l : ℕ)
    → s.log.next_to_add ≡ some last
    → take_work s.log ≡ ok (d', w)
    → w.p ≢ none
    → add_msg_begin fmt_decimal (with_log s d') t d msg l ≡ throws assertion_failed
unfolding take_work add_msg_begin
add_msg_begin-after_release fmt_decimal s d' w last t d msg l queued takes released =
    ground (arith, first_gone, still_queued)
  where
    first_gone : d'.first_to_release ≡ none
    first_gone = ground (arith, takes, released)

    still_queued : d'.next_to_add ≡ some last
    still_queued = ground (arith, takes, queued)

-- A transport joins the list of those that wait for the guaranteed write with each message that is to
-- be written at once: one of a critical level, or any while the log terminates. A second one before
-- the writer takes the list, by another thread or by one that does not wait, closes the list to a
-- circle, and a writer that goes along it, with no thread coming between its rounds, fails an assertion.
pub release_guaranteed-circle :
    (s s1 s2 : LogState) (t fuel : ℕ)
    → enqueue_guaranteed s t ≡ ok s1
    → enqueue_guaranteed s1 t ≡ ok s2
    → ((s2.gww t).next ≡ some t)
      × (release_guaranteed (suc (suc fuel)) s2 (some t) ≡ throws assertion_failed)
unfolding enqueue_guaranteed release_guaranteed
release_guaranteed-circle s s1 s2 t fuel h1 h2 = (circle, ground (arith, circle))
  where
    last : s1.log.next_to_add_guaranteed ≡ some t
    last = ground (arith, h1)

    circle : (s2.gww t).next ≡ some t
    circle = ground (arith, h2, last)

insert_single_msg-throws :
    (d : LogBufferBaseData) (bytes : ℕ → ℕ) (msg : List ℕ)
    → IsRing d bytes
    → d.start + d.buff_size < d.end + length msg
    → insert_single_msg d msg ≡ throws assertion_failed
unfolding insert_single_msg
insert_single_msg-throws d bytes msg w over =
    let small : available_size d < length msg =
      omega (arith, available_size_lem d bytes w, over, w.ordered, w.bounded) in
    ground (arith, small)

report_throws :
    (fmt_decimal : ℕ → List ℕ) (s : LogState) (ref : CountersRef) (report : List ℕ)
    → full_count (counters s ref) ≢ 0
    → to_str fmt_decimal (counters s ref) report_max_size ≡ ok report
    → insert_single_msg s.log report ≡ throws assertion_failed
    → insert_report fmt_decimal s ref ≡ throws assertion_failed
unfolding insert_report
report_throws fmt_decimal s ref report some_skipped made h = ground (arith, some_skipped, made, h)

report_made :
    (fmt_decimal : ℕ → List ℕ) (s : LogState) (ref : CountersRef) (report : List ℕ)
    (d : LogBufferBaseData)
    → full_count (counters s ref) ≢ 0
    → to_str fmt_decimal (counters s ref) report_max_size ≡ ok report
    → insert_single_msg s.log report ≡ ok d
    → insert_report fmt_decimal s ref ≡ ok (set_counters (with_log s d) ref cleared)
unfolding insert_report
report_made fmt_decimal s ref report d some_skipped made h = ground (arith, some_skipped, made, h)

-- A report and a message that do not both fit
insert_message-throws :
    (fmt_decimal : ℕ → List ℕ) (s : LogState) (t d : ℕ) (msg : List ℕ) (is_critical : Bool)
    (bytes : ℕ → ℕ) (report : List ℕ)
    → IsRing s.log bytes
    → full_count (s.waiting d).skipped_ctrs ≢ 0
    → to_str fmt_decimal (s.waiting d).skipped_ctrs report_max_size ≡ ok report
    → s.log.start + s.log.buff_size < s.log.end + length report + length msg
    → insert_message fmt_decimal s t msg (of_waiting d) is_critical ≡ throws assertion_failed
unfolding insert_message
insert_message-throws fmt_decimal s t d msg is_critical bytes report w some_skipped made over =
    elim (lt_or_ge (s.log.start + s.log.buff_size) (s.log.end + length report)) [
      | inl too_long ↦
          rw
            (report_throws fmt_decimal s (of_waiting d) report some_skipped made
              (insert_single_msg-throws s.log bytes report w too_long))
            refl
      | inr fits ↦
          let (bytes', d', e, form, g) = insert_single_msg-grows s.log bytes report w fits in
          let ends : d'.end ≡ s.log.end + length report =
            ap (λ (r : LogBufferBaseData). r.end) form in
          let size : d'.buff_size ≡ s.log.buff_size =
            ap (λ (r : LogBufferBaseData). r.buff_size) form in
          rw
            (
              report_made fmt_decimal s (of_waiting d) report d' some_skipped made e,
              insert_single_msg-throws d' bytes' msg g.ring
                  (omega (arith, over, ends, size, g.same_start)),
            )
            refl
    ]

-- A call that waited for room looks at the messages that the log has skipped, but reports those that
-- were skipped while it waited: when there are such and the buffer has just the room for its message,
-- the report or the message after it fails an assertion.
pub add_msg_retry-report :
    (fmt_decimal : ℕ → List ℕ) (s : LogState) (t d : ℕ) (msg : List ℕ) (l : ℕ) (bytes : ℕ → ℕ)
    (report : List ℕ)
    → IsRing s.log bytes
    → full_count s.log.skipped_ctrs ≡ 0
    → full_count (s.waiting d).skipped_ctrs ≢ 0
    → to_str fmt_decimal (s.waiting d).skipped_ctrs report_max_size ≡ ok report
    → s.log.end + length msg ≤ s.log.start + s.log.buff_size
    → s.log.start + s.log.buff_size < s.log.end + length report + length msg
    → (has_room (woken s d) (length msg) ≡ true)
      × (add_msg_retry fmt_decimal s t d msg l ≡ throws assertion_failed)
unfolding add_msg_retry
add_msg_retry-report fmt_decimal s t d msg l bytes report w none_of_log some_of_call made fits
      over =
    (room, ground (arith, room, fails))
  where
    room : has_room (woken s d) (length msg) ≡ true
    room = ground (arith, none_of_log, fits, w.in_word)

    same : ((woken s d).waiting d).skipped_ctrs ≡ (s.waiting d).skipped_ctrs
    same = ground arith

    fails :
        insert_message fmt_decimal
          (woken s d)
          t
          msg
          (of_waiting d)
          (leb l s.log.level_guaranteed_write)
        ≡ throws assertion_failed
    fails =
        insert_message-throws fmt_decimal (woken s d) t d msg (leb l s.log.level_guaranteed_write)
          bytes report w (rw (same) some_of_call) (rw (same) made) over
