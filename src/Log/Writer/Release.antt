-- ===== src/Log/Writer/Release.antt =====
-- The loop of `LogWriter::runLoop_` of src/log.cpp that lets go who waits for a guaranteed write.
use nodecpp_foundation.Base.{ℕ, zero, suc, ◌≤◌, ◌≡◌, ◌≢◌, refl, ap, ◌∙◌, arith}
use nodecpp_foundation.Base.{List, [], ◌∷◌, Option, none, some, true, false}
use nodecpp_foundation.Base.Lists.{length, put}
use nodecpp_foundation.Base.Outcome.{ok}
use nodecpp_foundation.Log.State.{ChainedWaitingForGuaranteedWrite}
use nodecpp_foundation.Log.Transport.{LogState}
use nodecpp_foundation.Log.Writer.{release_guaranteed}

-- The number is not in the list.
abbrev pub IsOther : ℕ → List ℕ → Type 0
IsOther t [] = Unit
IsOther t (u ∷ us) = (t ≢ u) × IsOther t us

-- The transports that wait for a guaranteed write, from the one the list starts with, are `ts`; none
-- of them is let go yet.
abbrev pub IsChain : (ℕ → ChainedWaitingForGuaranteedWrite) → List ℕ → Option ℕ → Type 0
IsChain g [] start = start ≡ none
IsChain g (t ∷ ts) start =
    (start ≡ some t) × ((g t).can_run ≡ false) × IsOther t ts × IsChain g ts (g t).next

-- All of them are let go.
abbrev pub AreReleased : (ℕ → ChainedWaitingForGuaranteedWrite) → List ℕ → Type 0
AreReleased g [] = Unit
AreReleased g (t ∷ ts) = ((g t).can_run ≡ true) × AreReleased g ts

IsChain-put :
    (g : ℕ → ChainedWaitingForGuaranteedWrite) (u : ℕ) (x : ChainedWaitingForGuaranteedWrite)
    (ts : List ℕ) (start : Option ℕ)
    → IsOther u ts
    → IsChain g ts start
    → IsChain (put g u x) ts start
IsChain-put g u x [] start others c = c
IsChain-put g u x (t ∷ ts) start (differs, others) (e, waiting, other, c) =
    let same : put g u x t ≡ g t = ground (arith, differs) in
    (e, rw (same) waiting, other, rw (same) (IsChain-put g u x ts (g t).next others c))

-- The loop that lets go the transports ends when there is fuel for each, lets go all of them and
-- leaves the others.
pub record ReleasedAll (s s' : LogState) (ts : List ℕ) : Type 0 where
  pub same_log : s'.log ≡ s.log
  pub same_waiting : s'.waiting ≡ s.waiting
  pub released : AreReleased s'.gww ts
  pub others : (u : ℕ) → IsOther u ts → s'.gww u ≡ s.gww u

pub release_guaranteed_lem :
    (ts : List ℕ) (fuel : ℕ) (s : LogState) (start : Option ℕ)
    → length ts ≤ fuel
    → IsChain s.gww ts start
    → (s' : LogState) × (release_guaranteed fuel s start ≡ ok s') × ReleasedAll s s' ts
unfolding release_guaranteed
release_guaranteed_lem [] fuel s start le c = (
  s,
  rw (c) refl,
  record { same_log = refl; same_waiting = refl; released = tt; others = λ u o. refl },
)
release_guaranteed_lem (t ∷ ts) zero s start le c =
    let absurd : ⊥ = omega (arith, le) in elim absurd [ ]
release_guaranteed_lem (t ∷ ts) (suc fuel) s start le (e, waiting, other, c) =
    let x : ChainedWaitingForGuaranteedWrite = record (s.gww t) { can_run = true } in
    let s1 : LogState = record s { gww = put s.gww t x } in
    let (s', runs, r) =
      release_guaranteed_lem ts fuel s1 (s.gww t).next (omega (arith, le))
        (IsChain-put s.gww t x ts (s.gww t).next other c) in
    let here : s1.gww t ≡ x = ground arith in
    (
      s',
      rw (e, waiting) runs,
      record {
        same_log = r.same_log;
        same_waiting = r.same_waiting;
        released = (
          ap (λ (y : ChainedWaitingForGuaranteedWrite). y.can_run) (r.others t other ∙ here),
          r.released,
        );
        others = λ u o. r.others u (o.1) ∙ ground (arith, o);
      },
    )
