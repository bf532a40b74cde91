-- ===== src/Log/Machine/Loggers.antt =====
-- The steps of threads that log add what they log to the stream.
use nodecpp_foundation.Base.{ℕ, ◌≡◌, ap, sym, ◌∙◌}
use nodecpp_foundation.Base.{List, [], ◌++◌, true, false}
use nodecpp_foundation.Log.Ring.Growth.{GrownBy-same}
use nodecpp_foundation.Log.Transport.{
  LogState, CountersRef, counters, Progress, returned, waits_for_write, waits_for_room,
}
use nodecpp_foundation.Log.Transport.Growth.{Adds, IsReport-unique}
use nodecpp_foundation.Log.Machine.{Machine, Logs}
use nodecpp_foundation.Log.Machine.Stream.{IsMachine, Flows, grown-Flows}

module _ (fmt_decimal : ℕ → List ℕ) where
  inserted-Flows :
      (m : Machine) (bytes : ℕ → ℕ) (file : List ℕ) (s : LogState) (ref : CountersRef)
      (msg : List ℕ) (s' : LogState) (out : List ℕ)
      → s.log ≡ m.state.log
      → IsMachine m bytes file
      → Adds fmt_decimal s ref msg (returned true) s' bytes
      → Logs fmt_decimal s ref msg (returned true) out
      → Flows m bytes file out (record { state = s'; writer = m.writer })
  inserted-Flows m bytes file s ref msg s' out e w (r, bytes', is_r, g) (report, is_report, eo) =
      let same : r ++ msg ≡ out =
        ap (λ t. t ++ msg) (IsReport-unique fmt_decimal (counters s ref) r report is_r is_report)
        ∙ sym eo in
      grown-Flows m bytes file s' bytes' out w (rw (← e, ← same) g)

  pub logged-Flows :
      (m : Machine) (bytes : ℕ → ℕ) (file : List ℕ) (s : LogState) (ref : CountersRef)
      (msg : List ℕ) (p : Progress) (s' : LogState) (out : List ℕ)
      → s.log ≡ m.state.log
      → IsMachine m bytes file
      → Adds fmt_decimal s ref msg p s' bytes
      → Logs fmt_decimal s ref msg p out
      → Flows m bytes file out (record { state = s'; writer = m.writer })
  logged-Flows m bytes file s ref msg (returned true) s' out e w adds logs =
      inserted-Flows m bytes file s ref msg s' out e w adds logs
  logged-Flows m bytes file s ref msg waits_for_write s' out e w adds logs =
      inserted-Flows m bytes file s ref msg s' out e w adds logs
  logged-Flows m bytes file s ref msg (returned false) s' out e w adds eo = rw (eo) (
      grown-Flows m bytes file s' bytes [] w
        (GrownBy-same m.state.log s'.log bytes w.ring (rw (← e) adds)))
  logged-Flows m bytes file s ref msg waits_for_room s' out e w adds eo = rw (eo) (
      grown-Flows m bytes file s' bytes [] w
        (GrownBy-same m.state.log s'.log bytes w.ring (rw (← e) adds)))
