-- ===== src/Log/Format/Stamps.antt =====
-- The time stamps of a thread.
use nodecpp_foundation.Base.{ℕ, ◌+◌, ◌*◌, ◌≤◌, ◌<◌, ◌≡◌, arith}
use nodecpp_foundation.Log.Format.{ThreadData, get_current_time_stamp}

-- The last stamp that the thread was given was `t`, and fewer than a thousand in its millisecond.
pub record IsStamped (th : ThreadData) (t : ℕ) : Type 0 where
  pub made : t ≡ th.last_time_reported * 1000 + th.ordinal_since_last_reported_time
  pub few : th.ordinal_since_last_reported_time < 1000

-- While the clock does not go back and a thread asks for fewer than a thousand stamps in a
-- millisecond, each stamp is later than the one before, and the two are in the order of the clock by
-- thousands. The clock is below 2 ^ 50 milliseconds.
pub get_current_time_stamp-increases :
    (th : ThreadData) (t ms : ℕ)
    → IsStamped th t
    → th.last_time_reported ≤ ms
    → ms < 0x4000000000000
    → (ms ≡ th.last_time_reported → th.ordinal_since_last_reported_time + 1 < 1000)
    → (t < (get_current_time_stamp th ms).1)
      × (ms * 1000 ≤ (get_current_time_stamp th ms).1)
      × ((get_current_time_stamp th ms).1 < ms * 1000 + 1000)
      × IsStamped ((get_current_time_stamp th ms).0) ((get_current_time_stamp th ms).1)
unfolding get_current_time_stamp
get_current_time_stamp-increases th t ms w later small few = (
  ground (arith, w.made, w.few, later, small, few),
  ground (arith, w.made, w.few, later, small, few),
  ground (arith, w.made, w.few, later, small, few),
  record {
    made = ground (arith, w.made, w.few, later, small, few);
    few = ground (arith, w.made, w.few, later, small, few);
  },
)
