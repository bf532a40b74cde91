-- ===== src/Log/Writer/Drain.antt =====
-- When the writer of src/log.cpp empties the buffer, writes again or ends.
use nodecpp_foundation.Base.{ℕ, ◌+◌, ◌≤◌, ◌<◌, ◌≡◌, inl, ap, sym, ◌∙◌, arith}
use nodecpp_foundation.Base.{List, [], ◌++◌, none, some, true, false, leb}
use nodecpp_foundation.Base.Lists.{length}
use nodecpp_foundation.Base.Outcome.{ok}
use nodecpp_foundation.Log.State.{
  LogBufferBaseData, is_termination_allowed, is_proceed, max_message_size, available_size,
  terminate_if_alone, set_termination_allowed,
}
use nodecpp_foundation.Log.Ring.{written_bytes}
use nodecpp_foundation.Log.Ring.Contents.{IsRing, pending, written_bytes_lem, written_bytes-empty}
use nodecpp_foundation.Log.Transport.{LogState}
use nodecpp_foundation.Log.Writer.{waits, cycle}
use nodecpp_foundation.Log.Writer.Release.{IsChain, AreReleased}
use nodecpp_foundation.Log.Writer.Cycles.{Cycled, MayWrite, cycle_lem}

-- A cycle that no other thread comes between, with bytes in the buffer, writes all of them after those
-- of the file, empties the buffer and lets go every transport that waits for the guaranteed write,
-- when no call waits for room, the message that the transports wait for is in the buffer, the log is
-- not to terminate and there is fuel for each transport. No assertion fails.
pub cycle-drains :
    (ts : List ℕ) (fuel : ℕ) (s : LogState) (bytes : ℕ → ℕ) (file : List ℕ)
    → length ts ≤ fuel
    → IsRing s.log bytes
    → s.log.target ≡ some file
    → s.log.start < s.log.end
    → is_termination_allowed s.log.action ≡ false
    → s.log.first_to_release ≡ none
    → MayWrite s.log
    → IsChain s.gww ts s.log.first_to_release_guaranteed
    → (s' : LogState) × (cycle fuel s ≡ ok (s', false))
      × (s'.log.target ≡ some (file ++ pending s.log bytes))
      × (s'.log.start ≡ s'.log.end)
      × (s'.log.first_to_release_guaranteed ≡ none)
      × AreReleased s'.gww ts
cycle-drains ts fuel s bytes file le w open_file lt goes_on nobody may chain =
    let (s', runs, c) =
      cycle_lem ts fuel s bytes file le w.held open_file goes_on may chain
        (λ d e. let absurd : none ≡ some d = sym nobody ∙ e in cc) in
    (
      s',
      runs,
      c.written
          ∙ ap (λ t. some (file ++ t))
              (written_bytes_lem s.log bytes w s.log.start s.log.end lt w.bounded),
      c.empty,
      c.none_guaranteed,
      c.released,
    )

emptied-IsRing :
    (s s' : LogState) (bytes : ℕ → ℕ) {file : List ℕ} {ts : List ℕ}
    → IsRing s.log bytes
    → s.log.end + s.log.buff_size < 0x10000000000000000
    → Cycled s s' file bytes ts
    → IsRing s'.log bytes
emptied-IsRing s s' bytes w fits c = record {
  held = c.same_buff ∙ w.held;
  power = let (k, e) = w.power in (k, c.same_size ∙ e);
  ordered = omega (arith, c.empty);
  bounded = omega (arith, c.empty);
  in_word = omega (arith, fits, c.empty, c.same_end, c.same_size);
}

-- While a call waits for room for the longest message, which the buffer has not got, the writer does
-- not wait on an empty buffer: after a cycle that wrote all there is, the next one writes as many
-- bytes again as the buffer is long, although nothing was logged since.
pub cycle-again :
    (fuel : ℕ) (s : LogState) (bytes : ℕ → ℕ) (file : List ℕ) (d : ℕ)
    → IsRing s.log bytes
    → s.log.target ≡ some file
    → s.log.start < s.log.end
    → s.log.end + s.log.buff_size < 0x10000000000000000
    → is_proceed s.log.action ≡ true
    → s.log.first_to_release_guaranteed ≡ none
    → s.log.first_to_release ≡ some d
    → leb max_message_size (available_size s.log) ≡ false
    → (s.waiting d).can_run ≡ false
    → (s1 s2 : LogState) × (stale : List ℕ) × (cycle fuel s ≡ ok (s1, false))
      × (s1.log.target ≡ some (file ++ pending s.log bytes))
      × (s1.log.start ≡ s1.log.end)
      × (waits s1.log ≡ false)
      × (cycle fuel s1 ≡ ok (s2, false))
      × (s2.log.target ≡ some ((file ++ pending s.log bytes) ++ stale))
      × (length stale ≡ s.log.buff_size)
      × (s2.log.end ≡ s.log.end)
cycle-again fuel s bytes file d w open_file lt fits goes_on no_guaranteed waiter full waiting =
    let (s1, runs1, c1) =
      cycle_lem [] fuel s bytes file (omega arith) w.held open_file (ground (arith, goes_on))
        (inl no_guaranteed) no_guaranteed
        (λ e h.
          let same : d ≡ e = let both : some d ≡ some e = sym waiter ∙ h in cc in
          rw (← same) waiting) in
    let (still, same_waiting) = c1.stays full in
    let all : s1.log.target ≡ some (file ++ pending s.log bytes) =
      c1.written
      ∙ ap (λ t. some (file ++ t))
          (written_bytes_lem s.log bytes w s.log.start s.log.end lt w.bounded) in
    let (s2, runs2, c2) =
      cycle_lem [] fuel s1 bytes (file ++ pending s.log bytes) (omega arith) (c1.same_buff ∙ w.held)
        all (ground (arith, goes_on, c1.same_action)) (inl c1.none_guaranteed) c1.none_guaranteed
        (λ e h.
          let same : d ≡ e = let both : some d ≡ some e = sym waiter ∙ sym still ∙ h in cc in
          rw (same_waiting, ← same) waiting) in
    (
      s1,
      s2,
      written_bytes s1.log bytes s1.log.start s1.log.end,
      runs1,
      all,
      c1.empty,
      ground (arith, still, waiter),
      runs2,
      c2.written,
      rw (c1.empty) (
          written_bytes-empty s1.log bytes (emptied-IsRing s s1 bytes w fits c1) s1.log.end
          ∙ c1.same_size),
      c2.same_end ∙ c1.same_end,
    )

-- When the buffer is empty and nobody waits, the writer waits for ever once termination is allowed,
-- although it would end if it went on: the condition of its wait asks for work and not for leave to
-- end.
pub waits-terminate :
    (d : LogBufferBaseData)
    → d.start ≡ d.end
    → d.ref_counter ≡ 1
    → d.first_to_release ≡ none
    → d.first_to_release_guaranteed ≡ none
    → (waits (set_termination_allowed d) ≡ true)
      × ((terminate_if_alone (set_termination_allowed d)).1 ≡ true)
unfolding terminate_if_alone set_termination_allowed
waits-terminate d empty alone nobody no_guaranteed =
    (ground (arith, empty, nobody, no_guaranteed), ground (arith, empty, alone))
