-- ===== src/Log/Transport/Success.antt =====
-- The first part of `addMsg` passes every assertion where no other call waits.
use nodecpp_foundation.Base.{ℕ, ◌≤◌, ◌<◌, ◌≡◌, ◌⊎◌}
use nodecpp_foundation.Base.{List, some, true, false, leb, if◌then◌else◌}
use nodecpp_foundation.Base.Lists.{length, put}
use nodecpp_foundation.Base.Outcome.{Outcome, ok}
use nodecpp_foundation.Log.Counters.{increment}
use nodecpp_foundation.Log.Counters.Report.{IsDecimal}
use nodecpp_foundation.Log.State.{is_none, new_waiting}
use nodecpp_foundation.Log.Ring.Growth.{SameRing}
use nodecpp_foundation.Log.Transport.Growth.{Inserts}
use nodecpp_foundation.Log.Transport.{
  LogState, of_log, set_counters, Progress, returned, waits_for_write, waits_for_room, has_room,
}

-- The list of transports that wait for the guaranteed write has an end when it has a start, and the
-- transport `t` is not let go yet.
abbrev pub CanEnqueue : LogState → ℕ → Type 0
CanEnqueue s t =
    ((s.gww t).can_run ≡ false)
    × (is_none s.log.next_to_add_guaranteed ≡ is_none s.log.first_to_release_guaranteed)

queued_first : LogState → ℕ → LogState
queued_first s d = record s {
  log = record s.log { first_to_release = some d; next_to_add = some d };
  waiting = put s.waiting d new_waiting;
}

module _ (fmt_decimal : ℕ → List ℕ) (fmt : IsDecimal fmt_decimal) where
  -- What the first part of `addMsg` does where no other call waits for room
  abbrev pub Begins :
      LogState → ℕ → ℕ → List ℕ → ℕ → (ℕ → ℕ) → Outcome (LogState × Progress) → Type 0
  Begins s t d msg l bytes result =
      (s' : LogState) × (((has_room s (length msg) ≡ true)
          × Inserts fmt_decimal s of_log msg s' bytes
          × (result
              ≡ ok (
                s',
                if leb l s.log.level_guaranteed_write then waits_for_write else returned true,
              )))
        ⊎ (((has_room s (length msg) ≡ false)
              × (s.log.level_could_be_skipped ≤ l)
              × (result ≡ ok (s', returned false))
              × (s' ≡ set_counters s of_log (increment s.log.skipped_ctrs l)))
            ⊎ ((has_room s (length msg) ≡ false)
                × (l < s.log.level_could_be_skipped)
                × (result ≡ ok (s', waits_for_room))
                × SameRing s.log s'.log
                × (s'.log.first_to_release ≡ some d)
                × (s'.log.next_to_add ≡ some d))))
