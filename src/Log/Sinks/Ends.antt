-- ===== src/Log/Sinks/Ends.antt =====
-- The references to the data of a log, and how the data end.
use nodecpp_foundation.Base.{
  ◌≡◌, refl, ap, sym, ◌∙◌, none, ◌==◌, ◌&&◌, true, false, Bool, Bool-cases, inl, inr,
}
use nodecpp_foundation.Log.State.{
  LogBufferBaseData, terminate_if_alone, is_termination_allowed, deinit, add_ref, remove_ref,
  word_add, word_sub,
}
use nodecpp_foundation.Log.Sinks.{run_loop_ends, construct, destruct}
use nodecpp_foundation.Base.Store.{Store}
use nodecpp_foundation.Base.{ℕ, ◌≢◌, arith, ◌+◌, ◌^◌, ◌<◌}

-- When the thread that writes has ended the log, its last reference is taken once more: the counter wraps around, so
-- that nothing is destroyed twice.
pub run_loop_ends-terminate_if_alone :
    (d d' : LogBufferBaseData)
    → terminate_if_alone d ≡ (d', true)
    → (run_loop_ends d').ref_counter ≡ 0xFFFFFFFFFFFFFFFF × ((run_loop_ends d').buff ≡ none)
unfolding run_loop_ends terminate_if_alone deinit remove_ref
run_loop_ends-terminate_if_alone d d' e =
    elim (Bool-cases
      (is_termination_allowed d.action && (d.ref_counter == 1) && (d.start == d.end))) [
        | inl alone ↦
            let first : terminate_if_alone d ≡ (deinit (record d { ref_counter = 0 }), true) =
              rw (terminate_if_alone, alone) refl in
            let same : deinit (record d { ref_counter = 0 }) ≡ d' =
              ap (λ (r : LogBufferBaseData × Bool). r.0) (sym first ∙ e) in
            rw (sym same) (refl, refl)
        | inr busy ↦
            let first : terminate_if_alone d ≡ (d, false) = rw (terminate_if_alone, busy) refl in
            let no : false ≡ true = ap (λ (r : LogBufferBaseData × Bool). r.1) (sym first ∙ e) in cc
      ]

-- Where the data have a reference, and a counter that one more does not wrap around, a transport that is constructed
-- and destructed leaves them as they were.
pub destruct-construct :
    (s : Store LogBufferBaseData) (address : ℕ)
    → address ≢ 0
    → 0 < (s address).ref_counter
    → (s address).ref_counter + 1 < 2 ^ 64
    → (q : ℕ) → destruct ((construct s address).0) ((construct s address).1) q ≡ s q
unfolding construct destruct add_ref remove_ref
destruct-construct s address nz lo hi q =
    let back : word_sub (word_add (s address).ref_counter 1) 1 ≡ (s address).ref_counter =
      omega (arith, hi) in
    let some_data : (address == 0) ≡ false = ground (arith, nz) in
    let kept : ((s address).ref_counter == 0) ≡ false = ground (arith, lo) in
    ground (arith, back, some_data, kept)
