-- ===== src/Log/Front.antt =====
-- `Log` of include/log.h: the transports of a log, its levels, and what it gives each transport.
pub mod Levels
pub mod Calls
use nodecpp_foundation.Base.{ℕ, zero, suc, ◌+◌, List, [], ◌∷◌, ◌++◌, Option, none, some}
use nodecpp_foundation.Base.{Bool, true, false, leb, ◌==◌, if◌then◌else◌}
use nodecpp_foundation.Base.Outcome.{Outcome, ok, ◌>>=◌}
use nodecpp_foundation.Base.Store.{Store, update}
use nodecpp_foundation.Log.Counters.{fatal, info}
use nodecpp_foundation.Log.State.{
  LogBufferBaseData, new_log_data, init, deinit, add_ref, remove_ref, set_enter_terminating_phase,
  set_termination_allowed,
}
use nodecpp_foundation.Log.Format.{
  Formatter, ThreadData, get_current_time_stamp, formatted, wrote_to_log,
}

-- `Log`; a transport is the address of its `LogBufferBaseData`.
pub record Log : Type 0 where
  pub level_could_be_skipped : ℕ
  pub level : ℕ
  pub transports : List ℕ
  pub silent : Bool
  pub add_time_stamp : Bool

-- `Log()`
abbrev pub new_log : Log
new_log = record {
  level_could_be_skipped = info;
  level = info;
  transports = [];
  silent = false;
  add_time_stamp = true;
}

-- A loop over the transports that changes the data of each
abbrev pub for_each :
    (LogBufferBaseData → LogBufferBaseData)
    → Store LogBufferBaseData
    → List ℕ
    → Store LogBufferBaseData
for_each f s [] = s
for_each f s (t ∷ ts) = for_each f (update s t (f (s t))) ts

-- `setGuaranteedLevel`, a level above the last one among them
unfoldable pub set_guaranteed_level :
    Store LogBufferBaseData → Log → ℕ → Store LogBufferBaseData × Log
set_guaranteed_level s g l = (
  for_each (λ d. record d { level_could_be_skipped = l + 1 }) s g.transports,
  record g { level_could_be_skipped = l + 1 },
)

-- `setCriticalLevel`
unfoldable pub set_critical_level : Store LogBufferBaseData → Log → ℕ → Store LogBufferBaseData
set_critical_level s g l = for_each (λ d. record d { level_guaranteed_write = l }) s g.transports

-- `resetGuaranteedLevel` and `resetCriticalLevel`
unfoldable pub reset_guaranteed_level :
    Store LogBufferBaseData → Log → Store LogBufferBaseData × Log
reset_guaranteed_level s g = set_guaranteed_level s g fatal

unfoldable pub reset_critical_level : Store LogBufferBaseData → Log → Store LogBufferBaseData
reset_critical_level s g = set_critical_level s g fatal

-- `Log::setEnterTerminatingPhase` and `Log::setTerminationAllowed`
unfoldable pub enter_terminating_phase : Store LogBufferBaseData → Log → Store LogBufferBaseData
enter_terminating_phase s g = for_each set_enter_terminating_phase s g.transports

unfoldable pub allow_termination : Store LogBufferBaseData → Log → Store LogBufferBaseData
allow_termination s g = for_each set_termination_allowed s g.transports

-- `~LogTransport`
abbrev pub release : LogBufferBaseData → LogBufferBaseData
release d = let r = remove_ref d in if (r.1) == 0 then deinit (r.0) else r.0

-- `clear`
unfoldable pub clear : Store LogBufferBaseData → Log → Store LogBufferBaseData × Log
clear s g = (for_each release s g.transports, record g { transports = [] })

-- `~Log`: the transports are destroyed after its body.
unfoldable pub destruct : Store LogBufferBaseData → Log → Store LogBufferBaseData
destruct s g = for_each release (enter_terminating_phase s g) g.transports

-- `add( FILE* )`: `address` is what `malloc` gives; the writer thread adds its own reference.
unfoldable pub add :
    Store LogBufferBaseData
    → Log
    → ℕ
    → ℕ
    → (ℕ → ℕ)
    → List ℕ
    → Outcome (Store LogBufferBaseData × Log)
add s g address mem_page_sz memory file = init new_log_data mem_page_sz memory file >>= λ d. ok (
  update s address ((add_ref (record d { level_could_be_skipped = g.level_could_be_skipped })).0),
  record g { transports = g.transports ++ (address ∷ []) },
)

module _ (f : Formatter) where
  -- `writoToLog`: the stamp, if there is to be one, and the message that `addMsg` is given
  unfoldable pub write_to_log :
      (ℕ → ℕ) → ThreadData → ℕ → Bool → Option (List ℕ) → ℕ → List ℕ → ThreadData × List ℕ
  write_to_log buffer th ms true id severity msg =
      let r = get_current_time_stamp th ms in
      (r.0, wrote_to_log f buffer (some (r.1)) id th.instance_id severity msg)
  write_to_log buffer th ms false id severity msg =
      (th, wrote_to_log f buffer none id th.instance_id severity msg)

  -- The loop of `log` over the transports: the calls of `addMsg` in their order, each with its
  -- transport. `clock i` is what the clock reads for the transport `i`.
  unfoldable pub write_to_all :
      (ℕ → ℕ)
      → (ℕ → ℕ)
      → ℕ
      → ThreadData
      → Bool
      → Option (List ℕ)
      → ℕ
      → List ℕ
      → List ℕ
      → ThreadData × List (ℕ × List ℕ)
  write_to_all buffer clock i th stamps id severity msg [] = (th, [])
  write_to_all buffer clock i th stamps id severity msg (t ∷ ts) =
      let r = write_to_log buffer th (clock i) stamps id severity msg in
      let rest = write_to_all buffer clock (suc i) (r.0) stamps id severity msg ts in
      (rest.0, (t, r.1) ∷ rest.1)

  -- `log`, with the text that `format_str` and `obj` make
  unfoldable pub log :
      (ℕ → ℕ)
      → (ℕ → ℕ)
      → ThreadData
      → Log
      → Option (List ℕ)
      → ℕ
      → List ℕ
      → ThreadData × List (ℕ × List ℕ)
  log buffer clock th g id l text =
      if leb l g.level
      then write_to_all buffer clock 0 th g.add_time_stamp id l (formatted f buffer text)
          g.transports
      else (th, [])

  -- `default_log::log`, for the log of the thread if there is one
  unfoldable pub default_log :
      (ℕ → ℕ)
      → (ℕ → ℕ)
      → ThreadData
      → Option Log
      → Option (List ℕ)
      → ℕ
      → List ℕ
      → ThreadData × List (ℕ × List ℕ)
  default_log buffer clock th none id l text = (th, [])
  default_log buffer clock th (some g) id l text = log buffer clock th g id l text
