-- ===== src/Message/Transfer.antt =====
-- `append( ReadIter, size_t )` of include/internal_msg.h: bytes of one message added to another one.
use nodecpp_foundation.Base.{ℕ, zero, suc, ◌-◌, ltb, if◌then◌else◌}
use nodecpp_foundation.Base.Bytes.{read_from}
use nodecpp_foundation.Base.Outcome.{Outcome, ok, throws, ◌>>=◌, out_of_fuel}
use nodecpp_foundation.Base.{List}
use nodecpp_foundation.Message.Memory.{InternalMsg, Heap}
use nodecpp_foundation.Message.Buffer.{append}
use nodecpp_foundation.Message.Reading.{ReadIter, direct_read}

module _ (malloc : List ℕ → ℕ) where
  -- The loop, for an iterator of the message `src` and another message `m`; a block of no bytes would
  -- keep it going for ever.
  unfoldable pub append_iter_loop :
      ℕ → Heap → InternalMsg → InternalMsg → ReadIter → ℕ → Outcome (Heap × InternalMsg)
  append_iter_loop fuel h src m it zero = ok (h, m)
  append_iter_loop zero h src m it (suc pending) = throws out_of_fuel
  append_iter_loop (suc fuel) h src m it (suc pending) =
      let current_sz =
        if ltb it.size_remaining_in_block (suc pending)
        then it.size_remaining_in_block
        else suc pending in
      direct_read h src it current_sz >>= λ r.
      append malloc h m (read_from (h.bytes ((r.0).0)) ((r.0).1) current_sz) >>= λ s.
      append_iter_loop fuel (s.0) src (s.1) (r.1) (suc pending - current_sz)

  unfoldable pub append_iter :
      Heap → InternalMsg → InternalMsg → ReadIter → ℕ → Outcome (Heap × InternalMsg)
  append_iter h src m it sz =
      let pending = if ltb it.total_sz sz then it.total_sz else sz in
      append_iter_loop pending h src m it pending
