-- ===== src/Tests/Logs.antt =====
-- The theorems on the log at concrete inputs: a buffer of 16384 bytes, and messages of a few bytes.
use nodecpp_foundation.Base.{ℕ, ◌+◌, ◌%◌, ◌≡◌, ◌≢◌, inr, refl, arith, ◌≤◌, ◌<◌}
use nodecpp_foundation.Base.{List, [], ◌∷◌, ◌++◌, none, some, true, false}
use nodecpp_foundation.Base.Lists.{length, put}
use nodecpp_foundation.Base.Outcome.{ok, throws, assertion_failed}
use nodecpp_foundation.Log.Counters.{
  SkippedMsgCounters, cleared, increment, full_count, to_str, to_str_loop, add_part,
  report_max_size,
}
use nodecpp_foundation.Log.Counters.Report.{
  IsDecimal, cleared-AreCounters, increment-AreCounters, to_str_lem,
}
use nodecpp_foundation.Log.State.{
  LogBufferBaseData, new_log_data, new_waiting, set_termination_allowed, terminate_if_alone,
}
use nodecpp_foundation.Log.Ring.Contents.{IsRing, pending}
use nodecpp_foundation.Log.Transport.{LogState, enqueue_guaranteed}
use nodecpp_foundation.Log.Transport.Faults.{release_guaranteed-circle}
use nodecpp_foundation.Log.Writer.{Work, waits, take_work, release_guaranteed, cycle}
use nodecpp_foundation.Log.Writer.Release.{AreReleased}
use nodecpp_foundation.Log.Writer.Drain.{cycle-drains, cycle-again, waits-terminate}

-- The last digit is enough for the counters here.
abbrev pub last_digit : ℕ → List ℕ
last_digit n = (b'0' + n % 10) ∷ []

last_digit-IsDecimal : IsDecimal last_digit
last_digit-IsDecimal = record { few_digits = λ n lt. omega arith }

abbrev pub no_bytes : ℕ → ℕ
no_bytes i = 0

abbrev pub open_log : LogBufferBaseData
open_log = record new_log_data {
  page_size = 0x1000;
  buff = some no_bytes;
  buff_size = 0x4000;
  ref_counter = 1;
  target = some [];
}

abbrev pub idle : LogState
idle = record {
  log = open_log;
  waiting = λ d. new_waiting;
  gww = λ t. record { can_run = false; next = none };
}

abbrev pub filled : ℕ → LogBufferBaseData
filled n = record open_log { end = n }

pub filled-IsRing : (n : ℕ) → n ≤ 0x4000 → IsRing (filled n) no_bytes
filled-IsRing n le = record {
  held = refl;
  power = (14, refl);
  ordered = omega arith;
  bounded = omega (arith, le);
  in_word = omega arith;
}

abbrev pub hello : List ℕ
hello = b'h' ∷ b'i' ∷ b'\n' ∷ []

abbrev one_skipped : SkippedMsgCounters
one_skipped = increment cleared 3

to_str_lem_example :
    (text : List ℕ) × (to_str last_digit one_skipped report_max_size ≡ ok text)
    × (length text ≤ 109)
    × (0 < length text)
unfolding increment
to_str_lem_example =
    to_str_lem last_digit last_digit-IsDecimal one_skipped
      (increment-AreCounters cleared 3 cleared-AreCounters (omega arith)) (omega arith)

-- Transport 0 waits for the guaranteed write of two bytes.
abbrev critical : LogState
critical = record idle {
  log = record (filled 2) {
    must_be_written_immediately = 2;
    first_to_release_guaranteed = some 0;
    next_to_add_guaranteed = some 0;
  };
}

critical-IsRing : IsRing critical.log no_bytes
critical-IsRing = record {
  held = refl;
  power = (14, refl);
  ordered = omega arith;
  bounded = omega arith;
  in_word = omega arith;
}

cycle-drains_example :
    (s' : LogState) × (cycle 1 critical ≡ ok (s', false))
    × (s'.log.target ≡ some ([] ++ pending critical.log no_bytes))
    × (s'.log.start ≡ s'.log.end)
    × (s'.log.first_to_release_guaranteed ≡ none)
    × AreReleased s'.gww (0 ∷ [])
cycle-drains_example =
    cycle-drains (0 ∷ []) 1 critical no_bytes [] (omega arith) critical-IsRing refl (omega arith)
      refl refl (inr (refl, omega arith, omega arith)) (refl, refl, tt, refl)

-- Call 0 waits for room in a buffer with 256 bytes left.
abbrev crowded : LogState
crowded = record idle {
  log = record (filled 0x3F00) { first_to_release = some 0; next_to_add = some 0 };
}

crowded-IsRing : IsRing crowded.log no_bytes
crowded-IsRing = record {
  held = refl;
  power = (14, refl);
  ordered = omega arith;
  bounded = omega arith;
  in_word = omega arith;
}

cycle-again_example :
    (s1 s2 : LogState) × (stale : List ℕ) × (cycle 0 crowded ≡ ok (s1, false))
    × (s1.log.target ≡ some ([] ++ pending crowded.log no_bytes))
    × (s1.log.start ≡ s1.log.end)
    × (waits s1.log ≡ false)
    × (cycle 0 s1 ≡ ok (s2, false))
    × (s2.log.target ≡ some (([] ++ pending crowded.log no_bytes) ++ stale))
    × (length stale ≡ 0x4000)
    × (s2.log.end ≡ 0x3F00)
cycle-again_example =
    cycle-again 0 crowded no_bytes [] 0 crowded-IsRing refl (omega arith) (omega arith) refl refl
      refl refl refl

waits-terminate_example :
    (waits (set_termination_allowed open_log) ≡ true)
    × ((terminate_if_alone (set_termination_allowed open_log)).1 ≡ true)
waits-terminate_example = waits-terminate open_log refl refl refl refl

-- Call 0 waits for room, and there is room now.
abbrev roomy : LogState
roomy = record idle { log = record open_log { first_to_release = some 0; next_to_add = some 0 } }

abbrev released_log : LogBufferBaseData
released_log = record roomy.log { first_to_release = none }

abbrev released_work : Work
released_work = record {
  start = 0;
  end = 0;
  p = some 0;
  gww = none;
  must_be_written_immediately = 0;
}

roomy-taken : take_work roomy.log ≡ ok (released_log, released_work)
unfolding take_work
roomy-taken = refl

abbrev queued_once : LogState
queued_once = record idle {
  log = record open_log {
    must_be_written_immediately = 0;
    first_to_release_guaranteed = some 0;
    next_to_add_guaranteed = some 0;
  };
  gww = put idle.gww 0 (record (idle.gww 0) { next = none });
}

abbrev queued_twice : LogState
queued_twice = record queued_once {
  gww =
      put (put queued_once.gww 0 (record (queued_once.gww 0) { next = none })) 0
        (record (queued_once.gww 0) { next = some 0 });
}

queued-once : enqueue_guaranteed idle 0 ≡ ok queued_once
unfolding enqueue_guaranteed
queued-once = refl

queued-twice : enqueue_guaranteed queued_once 0 ≡ ok queued_twice
unfolding enqueue_guaranteed
queued-twice = refl

release_guaranteed-circle_example :
    ((queued_twice.gww 0).next ≡ some 0)
    × (release_guaranteed 2 queued_twice (some 0) ≡ throws assertion_failed)
release_guaranteed-circle_example =
    release_guaranteed-circle idle queued_once queued_twice 0 0 queued-once queued-twice

-- Call 0 waits, a message was skipped meanwhile, and the buffer has three bytes left.
abbrev tight : LogState
tight = record idle {
  log = filled 0x3FFD;
  waiting = λ d. record new_waiting { skipped_ctrs = one_skipped };
}

abbrev report : List ℕ
report =
    b'<' ∷ b's' ∷ b'k' ∷ b'i' ∷ b'p' ∷ b'p' ∷ b'e' ∷ b'd' ∷ b':' ∷ b'i' ∷ b'n' ∷ b'f' ∷ b'o' ∷ b':'
    ∷ b'1' ∷ b'>' ∷ b'\n' ∷ []

report-made : to_str last_digit one_skipped report_max_size ≡ ok report
unfolding increment to_str to_str_loop add_part
report-made = refl

one-skipped : full_count one_skipped ≢ 0
unfolding increment
one-skipped = omega arith
