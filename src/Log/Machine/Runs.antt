-- ===== src/Log/Machine/Runs.antt =====
-- No byte is lost, repeated or reordered on the way to the file.
use nodecpp_foundation.Base.{ℕ, refl, ap, sym, ◌∙◌}
use nodecpp_foundation.Base.{List, [], ◌++◌}
use nodecpp_foundation.Base.Lists.{append-nil, append_assoc}
use nodecpp_foundation.Log.State.{set_enter_terminating_phase, set_termination_allowed}
use nodecpp_foundation.Log.Ring.Growth.{GrownBy-same}
use nodecpp_foundation.Log.Transport.{of_log, of_waiting, woken, written_back, with_log}
use nodecpp_foundation.Log.Transport.Growth.{SameRing-refl, add_msg_begin-Adds, add_msg_retry-Adds}
use nodecpp_foundation.Log.Machine.{
  Machine, Step, begin, retry, back, enter_termination, allow_termination, take, write, committed,
  let_go, follow, let_insert, go_on, release_one, releases, has_released, at_top, Run, here, next,
}
use nodecpp_foundation.Log.Machine.Stream.{IsMachine, stream, Flows, grown-Flows, unwritten_from}
use nodecpp_foundation.Log.Machine.Loggers.{logged-Flows}
use nodecpp_foundation.Log.Machine.Writing.{
  take-Flows, write-Flows, commit-Flows, idle-Flows, release_waiting-SameRing,
  terminate_if_alone-SameRing,
}

module _ (fmt_decimal : ℕ → List ℕ) where
  step-Flows :
      (m : Machine) {m' : Machine} {out : List ℕ} (bytes : ℕ → ℕ) (file : List ℕ)
      → IsMachine m bytes file
      → Step fmt_decimal m out m'
      → Flows m bytes file out m'
  unfolding written_back set_enter_terminating_phase set_termination_allowed
  step-Flows m bytes file im (begin t d msg l s' p out e logs) =
      logged-Flows fmt_decimal m bytes file m.state of_log msg p s' out refl im
        (add_msg_begin-Adds fmt_decimal m.state t d msg l s' p bytes im.ring e) logs
  step-Flows m bytes file im (retry t d msg l s' p out runs e logs) =
      logged-Flows fmt_decimal m bytes file (woken m.state d) (of_waiting d) msg p s' out refl im
        (add_msg_retry-Adds fmt_decimal m.state t d msg l s' p bytes im.ring e) logs
  step-Flows m bytes file im (back t runs) =
      grown-Flows m bytes file ((written_back m.state t).0) bytes [] im (
        GrownBy-same m.state.log ((written_back m.state t).0).log bytes im.ring
          (SameRing-refl m.state.log))
  step-Flows m bytes file im enter_termination =
      let s' = with_log m.state (set_enter_terminating_phase m.state.log) in
      grown-Flows m bytes file s' bytes [] im (
        GrownBy-same m.state.log s'.log bytes im.ring (record {
          same_buff = refl;
          same_size = refl;
          same_start = refl;
          same_end = refl;
          same_target = refl;
        }))
  step-Flows m bytes file im allow_termination =
      let s' = with_log m.state (set_termination_allowed m.state.log) in
      grown-Flows m bytes file s' bytes [] im (
        GrownBy-same m.state.log s'.log bytes im.ring (record {
          same_buff = refl;
          same_size = refl;
          same_start = refl;
          same_end = refl;
          same_target = refl;
        }))
  step-Flows m bytes file im (take d' w top waiting lt e) = take-Flows m bytes file d' w im top lt e
  step-Flows m bytes file im (write d' w at e) = write-Flows m bytes file d' w im at e
  step-Flows m bytes file im (committed w at fits) = commit-Flows m bytes file w im at fits
  step-Flows m bytes file im (let_go t p at stands) =
      idle-Flows m bytes file (release_one m.state t) (has_released t p) im
        (SameRing-refl m.state.log) (ap (unwritten_from m.state.log) at) refl tt
  step-Flows m bytes file im (follow t p at) =
      idle-Flows m bytes file m.state (releases (m.state.gww t).next p) im
        (SameRing-refl m.state.log) (ap (unwritten_from m.state.log) at) refl tt
  step-Flows m bytes file im (let_insert d s' at e) =
      idle-Flows m bytes file s' at_top im (release_waiting-SameRing m.state d s' e)
        (ap (unwritten_from m.state.log) at) refl tt
  step-Flows m bytes file im (go_on d' at e) =
      idle-Flows m bytes file (with_log m.state d') at_top im
        (terminate_if_alone-SameRing m.state.log d' e) (ap (unwritten_from m.state.log) at) refl tt

  -- From a buffer in order, whatever the threads do and in whatever order, the file and the bytes still
  -- to be given to it are those of the start followed by the bytes that the steps have logged, in the
  -- order of the steps: no byte is lost, repeated or overwritten. This holds as long as no assertion
  -- fails, the positions of the buffer fit in a word, the writer takes work only when there are bytes to
  -- write, and it does not end.
  pub Run-Flows :
      (m : Machine) {m' : Machine} {out : List ℕ} (bytes : ℕ → ℕ) (file : List ℕ)
      → IsMachine m bytes file
      → Run fmt_decimal m out m'
      → Flows m bytes file out m'
  Run-Flows m bytes file im here = (bytes, file, im, sym (append-nil (stream m bytes file)))
  Run-Flows m bytes file im (next {m1} {m2} {out1} {out2} run step) =
      let (bytes1, file1, im1, e1) = Run-Flows m bytes file im run in
      let (bytes2, file2, im2, e2) = step-Flows m1 bytes1 file1 im1 step in
      (
        bytes2,
        file2,
        im2,
        e2 ∙ ap (λ t. t ++ out2) e1 ∙ append_assoc (stream m bytes file) out1 out2,
      )
