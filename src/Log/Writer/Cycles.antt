-- ===== src/Log/Writer/Cycles.antt =====
-- A cycle of `LogWriter::runLoop_` of src/log.cpp when no other thread comes between.
use nodecpp_foundation.Base.{ℕ, ◌≤◌, ◌<◌, ◌≡◌, ◌⊎◌, inl, inr, refl, ap, sym, ◌∙◌, arith}
use nodecpp_foundation.Base.{List, ◌++◌, Option, none, some, Bool, true, false, leb}
use nodecpp_foundation.Base.Lists.{length, put}
use nodecpp_foundation.Base.Outcome.{ok, is_ok-ok}
use nodecpp_foundation.Log.State.{
  LogBufferBaseData, is_termination_allowed, max_message_size, available_size, terminate_if_alone,
}
use nodecpp_foundation.Log.Ring.{just_write, written_bytes}
use nodecpp_foundation.Log.Transport.{LogState, with_log}
use nodecpp_foundation.Log.Writer.{
  Work, take_work, perform, commit, release_guaranteed, release_waiting, end_cycle, cycle,
}
use nodecpp_foundation.Log.Writer.Release.{IsChain, AreReleased, release_guaranteed_lem}

-- A cycle that writes: the bytes of its range follow those of the file, the buffer is empty, and who
-- waited for the guaranteed write is let go.
pub record Cycled (s s' : LogState) (file : List ℕ) (bytes : ℕ → ℕ) (ts : List ℕ) : Type 0 where
  pub written : s'.log.target ≡ some (file ++ written_bytes s.log bytes s.log.start s.log.end)
  pub empty : s'.log.start ≡ s'.log.end
  pub same_end : s'.log.end ≡ s.log.end
  pub same_buff : s'.log.buff ≡ s.log.buff
  pub same_size : s'.log.buff_size ≡ s.log.buff_size
  pub same_action : s'.log.action ≡ s.log.action
  pub none_guaranteed : s'.log.first_to_release_guaranteed ≡ none
  pub released : AreReleased s'.gww ts
  pub stays :
      leb max_message_size (available_size s.log) ≡ false
      → (s'.log.first_to_release ≡ s.log.first_to_release) × (s'.waiting ≡ s.waiting)

-- Nobody waits for the guaranteed write, or nobody waits for room and the message that is to be
-- written is in the buffer.
abbrev pub MayWrite : LogBufferBaseData → Type 0
MayWrite d =
    (d.first_to_release_guaranteed ≡ none)
    ⊎ ((d.first_to_release ≡ none)
        × (d.start < d.must_be_written_immediately)
        × (d.must_be_written_immediately ≤ d.end))

-- What the first part of a cycle takes
record Taken (d d' : LogBufferBaseData) (w : Work) (bytes : ℕ → ℕ) (file : List ℕ) : Type 0 where
  from_start : w.start ≡ d.start
  to_end : w.end ≡ d.end
  waiters : w.gww ≡ d.first_to_release_guaranteed
  may_wait : (w.p ≡ none) ⊎ (w.p ≡ d.first_to_release)
  performs :
      perform d' w ≡ ok (record d' { target = some (file ++ written_bytes d bytes d.start d.end) })
  kept_end : d'.end ≡ d.end
  kept_buff : d'.buff ≡ d.buff
  kept_size : d'.buff_size ≡ d.buff_size
  kept_action : d'.action ≡ d.action
  taken : d'.first_to_release_guaranteed ≡ none
  stays :
      leb max_message_size (available_size d) ≡ false
      → (d'.first_to_release ≡ d.first_to_release) × (w.p ≡ none)

take_work_lem :
    (d : LogBufferBaseData) (bytes : ℕ → ℕ) (file : List ℕ)
    → d.buff ≡ some bytes
    → d.target ≡ some file
    → MayWrite d
    → (d' : LogBufferBaseData) × (w : Work) × (take_work d ≡ ok (d', w)) × Taken d d' w bytes file
unfolding take_work perform just_write
take_work_lem d bytes file held open_file may =
    let ((d', w), e) = is_ok-ok (take_work d) (ground (arith, may)) in
    (
      d',
      w,
      e,
      record {
        from_start = ground (arith, e);
        to_end = ground (arith, e);
        waiters = ground (arith, e);
        may_wait = ground (arith, e);
        performs = ground (arith, e, may, held, open_file);
        kept_end = ground (arith, e);
        kept_buff = ground (arith, e);
        kept_size = ground (arith, e);
        kept_action = ground (arith, e);
        taken = ground (arith, e);
        stays = λ full. (ground (arith, e, full), ground (arith, e, full));
      },
    )

Option-cases : (o : Option ℕ) → (o ≡ none) ⊎ ((d : ℕ) × (o ≡ some d))
Option-cases none = inl refl
Option-cases (some d) = inr (d, refl)

-- The end of a cycle, when the writer may not end
end_cycle_lem :
    (s : LogState) (w : Work)
    → is_termination_allowed s.log.action ≡ false
    → ((d : ℕ) → w.p ≡ some d → (s.waiting d).can_run ≡ false)
    → (s' : LogState) × (end_cycle s w ≡ ok (s', false))
      × (s'.log ≡ s.log)
      × (s'.gww ≡ s.gww)
      × (w.p ≡ none → s'.waiting ≡ s.waiting)
unfolding end_cycle release_waiting terminate_if_alone
end_cycle_lem s w goes_on may = elim (Option-cases w.p) [
  | inl nobody ↦ (s, ground (arith, nobody, goes_on), refl, refl, λ n. refl)
  | inr (d, e) ↦ (
    record s { waiting = put s.waiting d (record (s.waiting d) { can_run = true }) },
    ground (arith, e, may d e),
    refl,
    refl,
    λ n. let absurd : some d ≡ none = sym e ∙ n in cc,
  )
]

cycle-composed :
    (fuel : ℕ) (s : LogState) (d' : LogBufferBaseData) (w : Work) (d2 : LogBufferBaseData)
    (s1 s2 : LogState) (done : Bool)
    → take_work s.log ≡ ok (d', w)
    → perform d' w ≡ ok d2
    → release_guaranteed fuel (with_log s (commit d2 w)) w.gww ≡ ok s1
    → end_cycle s1 w ≡ ok (s2, done)
    → cycle fuel s ≡ ok (s2, done)
unfolding cycle
cycle-composed fuel s d' w d2 s1 s2 done h1 h2 h3 h4 = rw (h1, h2, h3, h4) refl

pub cycle_lem :
    (ts : List ℕ) (fuel : ℕ) (s : LogState) (bytes : ℕ → ℕ) (file : List ℕ)
    → length ts ≤ fuel
    → s.log.buff ≡ some bytes
    → s.log.target ≡ some file
    → is_termination_allowed s.log.action ≡ false
    → MayWrite s.log
    → IsChain s.gww ts s.log.first_to_release_guaranteed
    → ((d : ℕ) → s.log.first_to_release ≡ some d → (s.waiting d).can_run ≡ false)
    → (s' : LogState) × (cycle fuel s ≡ ok (s', false)) × Cycled s s' file bytes ts
cycle_lem ts fuel s bytes file le held open_file goes_on may chain runs =
    let (d', w, takes, k) = take_work_lem s.log bytes file held open_file may in
    let d2 : LogBufferBaseData = record d' {
      target = some (file ++ written_bytes s.log bytes s.log.start s.log.end);
    } in
    let (s1, releases, r) =
      release_guaranteed_lem ts fuel (with_log s (commit d2 w)) w.gww le (rw (k.waiters) chain) in
    let (s2, ends, same_log, same_gww, same_waiting) =
      end_cycle_lem s1 w (rw (r.same_log, k.kept_action) goes_on) (λ d e. rw (r.same_waiting) (
        runs d (elim k.may_wait [
          | inl nobody ↦ let absurd : none ≡ some d = sym nobody ∙ e in cc
          | inr first ↦ sym first ∙ e
        ]))) in
    let log : s2.log ≡ commit d2 w = same_log ∙ r.same_log in
    (
      s2,
      cycle-composed fuel s d' w d2 s1 s2 false takes k.performs releases ends,
      record {
        written = ap (λ (x : LogBufferBaseData). x.target) log;
        empty =
            ap (λ (x : LogBufferBaseData). x.start) log
            ∙ k.to_end
            ∙ sym k.kept_end
            ∙ sym (ap (λ (x : LogBufferBaseData). x.end) log);
        same_end = ap (λ (x : LogBufferBaseData). x.end) log ∙ k.kept_end;
        same_buff = ap (λ (x : LogBufferBaseData). x.buff) log ∙ k.kept_buff;
        same_size = ap (λ (x : LogBufferBaseData). x.buff_size) log ∙ k.kept_size;
        same_action = ap (λ (x : LogBufferBaseData). x.action) log ∙ k.kept_action;
        none_guaranteed =
            ap (λ (x : LogBufferBaseData). x.first_to_release_guaranteed) log ∙ k.taken;
        released = rw (same_gww) r.released;
        stays = λ full.
            let (first, nobody) = k.stays full in
            (
              ap (λ (x : LogBufferBaseData). x.first_to_release) log ∙ first,
              same_waiting nobody ∙ r.same_waiting,
            );
      },
    )
