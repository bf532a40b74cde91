-- ===== src/Tests/Runs.antt =====
-- A run of a thread that logs and of the writer: one message, written to the file.
use nodecpp_foundation.Base.{ℕ, ◌≡◌, inl, refl, arith}
use nodecpp_foundation.Base.{[], ◌++◌, none, some, true, false}
use nodecpp_foundation.Base.Circle.{ring_write}
use nodecpp_foundation.Base.Outcome.{ok}
use nodecpp_foundation.Log.State.{terminate_if_alone}
use nodecpp_foundation.Log.Ring.{insert_single_msg, just_write}
use nodecpp_foundation.Log.Transport.{
  LogState, with_log, returned, add_msg_begin, insert_message, insert_report,
}
use nodecpp_foundation.Log.Writer.{Work, take_work, perform}
use nodecpp_foundation.Log.Machine.{
  Machine, Run, here, next, begin, take, write, committed, go_on, at_top,
}
use nodecpp_foundation.Log.Machine.Stream.{IsMachine, Flows}
use nodecpp_foundation.Log.Machine.Runs.{Run-Flows}
use nodecpp_foundation.Tests.Logs.{last_digit, idle, open_log, no_bytes, hello, filled-IsRing}

abbrev start : Machine
start = record { state = idle; writer = at_top }

start-IsMachine : IsMachine start no_bytes []
start-IsMachine = record { ring = filled-IsRing 0 (omega arith); open_file = refl; work = tt }

abbrev bytes : ℕ → ℕ
bytes = ring_write no_bytes 0x4000 0 hello

abbrev inserted : LogState
inserted = with_log idle (record open_log { buff = some bytes; end = 3 })

abbrev work : Work
work = record { start = 0; end = 3; p = none; gww = none; must_be_written_immediately = 0 }

abbrev written : LogState
written = with_log idle (record inserted.log { target = some hello })

abbrev done : LogState
done = with_log idle (record written.log { start = 3 })

begins : add_msg_begin last_digit idle 0 0 hello 3 ≡ ok (inserted, returned true)
unfolding add_msg_begin insert_message insert_report insert_single_msg
begins = refl

takes : take_work inserted.log ≡ ok (inserted.log, work)
unfolding take_work
takes = refl

writes : perform inserted.log work ≡ ok written.log
unfolding perform just_write
writes = refl

goes_on : terminate_if_alone done.log ≡ (done.log, false)
unfolding terminate_if_alone
goes_on = refl

one_message :
    Run last_digit start
      ((((([] ++ hello) ++ []) ++ []) ++ []) ++ [])
      (record { state = done; writer = at_top })
one_message =
    next
      (next
        (next
          (next
            (next here (
              begin 0 0 hello 3 inserted (returned true) hello begins ([], inl (refl, refl), refl)))
            (take inserted.log work refl refl (omega arith) takes))
          (write written.log work refl writes))
        (committed work refl (omega arith)))
      (go_on done.log refl goes_on)

Run-Flows_example :
    Flows start no_bytes []
      ((((([] ++ hello) ++ []) ++ []) ++ []) ++ [])
      (record { state = done; writer = at_top })
Run-Flows_example = Run-Flows last_digit start no_bytes [] start-IsMachine one_message
