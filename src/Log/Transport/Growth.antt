-- ===== src/Log/Transport/Growth.antt =====
-- What the calls of a thread that logs add to the buffer.
use nodecpp_foundation.Base.{ℕ, ◌≡◌, ◌≢◌, ◌⊎◌, inl, inr, refl, ap, sym, ◌∙◌, arith}
use nodecpp_foundation.Base.{
  List, [], ◌++◌, Option, Bool, true, false, ◌||◌, ◌==◌, leb, if◌then◌else◌, Bool-cases,
}
use nodecpp_foundation.Base.Lists.{length, append-nil}
use nodecpp_foundation.Base.Outcome.{ok, >>=-ok, ◌>>=◌}
use nodecpp_foundation.Log.Counters.{
  SkippedMsgCounters, full_count, to_str, report_max_size, cleared,
}
use nodecpp_foundation.Log.State.{LogBufferBaseData, is_proceed_to_termination}
use nodecpp_foundation.Log.Ring.{insert_single_msg}
use nodecpp_foundation.Log.Ring.Contents.{IsRing}
use nodecpp_foundation.Log.Ring.Growth.{
  SameRing, GrownBy, GrownBy-same, GrownBy-trans, insert_single_msg-ok,
}
use nodecpp_foundation.Log.Transport.{
  LogState, CountersRef, of_log, of_waiting, counters, set_counters, with_log, enqueue_guaranteed,
  Progress, returned, waits_for_write, waits_for_room, insert_report, insert_message, has_room,
  add_msg_begin, add_msg_retry, let_next_run, woken, leave_queue,
}

abbrev pub ring_of : LogBufferBaseData → Option (ℕ → ℕ) × ℕ × ℕ × ℕ × Option (List ℕ)
ring_of d = (d.buff, d.buff_size, d.start, d.end, d.target)

pub SameRing-of : {d d' : LogBufferBaseData} → ring_of d' ≡ ring_of d → SameRing d d'
SameRing-of h = record {
  same_buff = ap (λ r. r.0) h;
  same_size = ap (λ r. r.1) h;
  same_start = ap (λ r. r.2) h;
  same_end = ap (λ r. r.3) h;
  same_target = ap (λ r. r.4) h;
}

pub SameRing-refl : (d : LogBufferBaseData) → SameRing d d
SameRing-refl d = record {
  same_buff = refl;
  same_size = refl;
  same_start = refl;
  same_end = refl;
  same_target = refl;
}

pub SameRing-trans : {d d1 d2 : LogBufferBaseData} → SameRing d d1 → SameRing d1 d2 → SameRing d d2
SameRing-trans a b = record {
  same_buff = b.same_buff ∙ a.same_buff;
  same_size = b.same_size ∙ a.same_size;
  same_start = b.same_start ∙ a.same_start;
  same_end = b.same_end ∙ a.same_end;
  same_target = b.same_target ∙ a.same_target;
}

SameRing-set_counters :
    (s : LogState) (ref : CountersRef) (c : SkippedMsgCounters)
    → SameRing s.log (set_counters s ref c).log
SameRing-set_counters s of_log c = record {
  same_buff = refl;
  same_size = refl;
  same_start = refl;
  same_end = refl;
  same_target = refl;
}
SameRing-set_counters s (of_waiting d) c = SameRing-refl s.log

enqueue_guaranteed-SameRing :
    (s : LogState) (t : ℕ) (s' : LogState) → enqueue_guaranteed s t ≡ ok s' → SameRing s.log s'.log
unfolding enqueue_guaranteed
enqueue_guaranteed-SameRing s t s' h = SameRing-of (ground (arith, h))

let_next_run-SameRing :
    (s : LogState) (d : ℕ) (s' : LogState) → let_next_run s d ≡ ok s' → SameRing s.log s'.log
unfolding let_next_run
let_next_run-SameRing s d s' h = SameRing-of (ground (arith, h))

leave_queue-SameRing :
    (s : LogState) (d : ℕ) (s' : LogState) → leave_queue s d ≡ ok s' → SameRing s.log s'.log
unfolding leave_queue
leave_queue-SameRing s d s' h = SameRing-of (ground (arith, h))

module _ (fmt_decimal : ℕ → List ℕ) where
  -- The report that a call makes of the counters: none if nothing was skipped.
  abbrev pub IsReport : SkippedMsgCounters → List ℕ → Type 0
  IsReport c report =
      ((full_count c ≡ 0) × (report ≡ []))
      ⊎ ((full_count c ≢ 0) × (to_str fmt_decimal c report_max_size ≡ ok report))

  pub IsReport-unique :
      (c : SkippedMsgCounters) (r1 r2 : List ℕ) → IsReport c r1 → IsReport c r2 → r1 ≡ r2
  IsReport-unique c r1 r2 (inl a) (inl b) = a.1 ∙ sym (b.1)
  IsReport-unique c r1 r2 (inl a) (inr b) = absurd (b.0 (a.0))
  IsReport-unique c r1 r2 (inr a) (inl b) = absurd (a.0 (b.0))
  IsReport-unique c r1 r2 (inr a) (inr b) = let x = a.1 in let y = b.1 in cc

  insert_report-ok :
      (s : LogState) (ref : CountersRef) (s' : LogState) (bytes : ℕ → ℕ)
      → IsRing s.log bytes
      → insert_report fmt_decimal s ref ≡ ok s'
      → (report : List ℕ) × (bytes' : ℕ → ℕ) × IsReport (counters s ref) report
        × GrownBy s.log bytes s'.log bytes' report
  unfolding insert_report
  insert_report-ok s ref s' bytes w h = elim (Bool-cases (full_count (counters s ref) == 0)) [
    | inr some_skipped ↦
        let (report, made, h1) =
          >>=-ok (to_str fmt_decimal (counters s ref) report_max_size) _ (unskipped some_skipped) in
        let (d, inserts, h2) = >>=-ok (insert_single_msg s.log report) _ h1 in
        let (bytes', g) = insert_single_msg-ok s.log bytes report d w inserts in
        let same : set_counters (with_log s d) ref cleared ≡ s' = cc in
        (
          report,
          bytes',
          inr (ground arith, made),
          rw (← same) (
              rw (← append-nil report) (
                GrownBy-trans g (
                  GrownBy-same d (set_counters (with_log s d) ref cleared).log bytes' g.ring
                    (SameRing-set_counters (with_log s d) ref cleared)))),
        )
    | inl none_skipped ↦
        let same : s ≡ s' = ground (arith, h, none_skipped) in
        (
          [],
          bytes,
          inl (ground arith, refl),
          rw (← same) (GrownBy-same s.log s.log bytes w (SameRing-refl s.log)),
        )
  ]
    where
      unskipped :
          (full_count (counters s ref) == 0) ≡ false
          → (to_str fmt_decimal (counters s ref) report_max_size >>= λ b.
              insert_single_msg s.log b >>= λ d. ok (set_counters (with_log s d) ref cleared))
            ≡ ok s'
      unskipped e = rw e at h

  -- What a call that inserts `msg` adds: the report of the counters and the message.
  abbrev pub Inserts : LogState → CountersRef → List ℕ → LogState → (ℕ → ℕ) → Type 0
  Inserts s ref msg s' bytes =
      (report : List ℕ) × (bytes' : ℕ → ℕ) × IsReport (counters s ref) report
      × GrownBy s.log bytes s'.log bytes' (report ++ msg)

  queued_or_not-SameRing :
      (s : LogState) (t : ℕ) (queued : Bool) (s' : LogState)
      → (if queued then enqueue_guaranteed s t else ok s) ≡ ok s'
      → SameRing s.log s'.log
  queued_or_not-SameRing s t true s' h = enqueue_guaranteed-SameRing s t s' h
  queued_or_not-SameRing s t false s' h =
      let same : s ≡ s' = cc in rw (← same) (SameRing-refl s.log)

  GrownBy-then_same :
      {d : LogBufferBaseData} {bytes : ℕ → ℕ} {d1 : LogBufferBaseData} {bytes1 : ℕ → ℕ}
      {d2 : LogBufferBaseData} {out : List ℕ}
      → GrownBy d bytes d1 bytes1 out
      → SameRing d1 d2
      → GrownBy d bytes d2 bytes1 out
  GrownBy-then_same {d} {bytes} {d1} {bytes1} {d2} {out} g s =
      rw (← append-nil out) (GrownBy-trans g (GrownBy-same d1 d2 bytes1 g.ring s))

  pub insert_message-ok :
      (s : LogState) (t : ℕ) (msg : List ℕ) (ref : CountersRef) (is_critical : Bool) (s' : LogState)
      (bytes : ℕ → ℕ)
      → IsRing s.log bytes
      → insert_message fmt_decimal s t msg ref is_critical ≡ ok s'
      → Inserts s ref msg s' bytes
  unfolding insert_message
  insert_message-ok s t msg ref is_critical s' bytes w h =
      let (s1, reports, h1) = >>=-ok (insert_report fmt_decimal s ref) _ h in
      let (d, inserts, h2) = >>=-ok (insert_single_msg s1.log msg) _ h1 in
      let (report, bytes1, is_report, g1) = insert_report-ok s ref s1 bytes w reports in
      let (bytes2, g2) = insert_single_msg-ok s1.log bytes1 msg d g1.ring inserts in
      (
        report,
        bytes2,
        is_report,
        GrownBy-then_same (GrownBy-trans g1 g2) (
            queued_or_not-SameRing (with_log s1 d) t
              (is_critical || is_proceed_to_termination d.action) s' h2),
      )

  -- What a call with progress `p` adds to the buffer
  abbrev pub Adds : LogState → CountersRef → List ℕ → Progress → LogState → (ℕ → ℕ) → Type 0
  Adds s ref msg (returned true) s' bytes = Inserts s ref msg s' bytes
  Adds s ref msg waits_for_write s' bytes = Inserts s ref msg s' bytes
  Adds s ref msg (returned false) s' bytes = SameRing s.log s'.log
  Adds s ref msg waits_for_room s' bytes = SameRing s.log s'.log

  -- The first part of `addMsg` on a buffer in order, when no assertion fails: where the call returns
  -- true or waits for the guaranteed write, the report on skipped messages and the message follow
  -- the bytes in the buffer, which stay; where it returns false or waits for room, nothing of the
  -- buffer changes.
  pub add_msg_begin-Adds :
      (s : LogState) (t d : ℕ) (msg : List ℕ) (l : ℕ) (s' : LogState) (p : Progress) (bytes : ℕ → ℕ)
      → IsRing s.log bytes
      → add_msg_begin fmt_decimal s t d msg l ≡ ok (s', p)
      → Adds s of_log msg p s' bytes
  unfolding add_msg_begin
  add_msg_begin-Adds s t d msg l s' (returned true) bytes w h =
      insert_message-ok s t msg of_log (leb l s.log.level_guaranteed_write) s' bytes w
        (ground (arith, h))
  add_msg_begin-Adds s t d msg l s' waits_for_write bytes w h =
      insert_message-ok s t msg of_log (leb l s.log.level_guaranteed_write) s' bytes w
        (ground (arith, h))
  add_msg_begin-Adds s t d msg l s' (returned false) bytes w h = SameRing-of (ground (arith, h))
  add_msg_begin-Adds s t d msg l s' waits_for_room bytes w h = SameRing-of (ground (arith, h))

  -- A round of a call that waits for room, when no assertion fails: where it returns, the report on
  -- the messages skipped while it waited and its message follow the bytes in the buffer, which stay;
  -- where it waits again, nothing of the buffer changes.
  pub add_msg_retry-Adds :
      (s : LogState) (t d : ℕ) (msg : List ℕ) (l : ℕ) (s' : LogState) (p : Progress) (bytes : ℕ → ℕ)
      → IsRing s.log bytes
      → add_msg_retry fmt_decimal s t d msg l ≡ ok (s', p)
      → Adds (woken s d) (of_waiting d) msg p s' bytes
  unfolding add_msg_retry
  add_msg_retry-Adds s t d msg l s' p bytes w h =
      elim (Bool-cases (has_room (woken s d) (length msg))) [
        | inl room ↦
            let (s1, inserts, h1) =
              >>=-ok
                (insert_message fmt_decimal (woken s d) t msg (of_waiting d)
                  (leb l s.log.level_guaranteed_write))
                _ (rw room at h) in
            let (s2, dequeues, h2) = >>=-ok (leave_queue s1 d) _ h1 in
            let (s3, lets_run, h3) = >>=-ok (let_next_run s2 d) _ h2 in
            let e3 : s3 ≡ s' = ground (arith, h3) in
            let ep : p ≡ returned true = ground (arith, h3) in
            let (report, bytes', is_report, g) =
              insert_message-ok (woken s d) t msg (of_waiting d)
                (leb l s.log.level_guaranteed_write) s1 bytes w inserts in
            let after : SameRing s1.log s'.log = rw (← e3) (
              SameRing-trans (leave_queue-SameRing s1 d s2 dequeues)
                (let_next_run-SameRing s2 d s3 lets_run)) in
            rw (ep) (report, bytes', is_report, GrownBy-then_same g after)
        | inr full ↦
            let e : p ≡ waits_for_room = ground (arith, h, full) in
            rw (e) (SameRing-of (ground (arith, h, full)))
      ]
