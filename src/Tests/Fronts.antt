-- ===== src/Tests/Fronts.antt =====
-- The theorems on `Log`, on its messages and on the run of threads at concrete inputs.
use nodecpp_foundation.Base.{ℕ, ◌+◌, ◌-◌, ◌%◌, ◌≡◌, refl, arith, ◌≤◌, ◌<◌}
use nodecpp_foundation.Base.{List, [], ◌∷◌, none, some, true}
use nodecpp_foundation.Base.Lists.{length, take}
use nodecpp_foundation.Base.Bytes.{write_from}
use nodecpp_foundation.Base.Store.{Store, update}
use nodecpp_foundation.Base.Outcome.{ok}
use nodecpp_foundation.Log.State.{LogBufferBaseData, new_log_data, max_message_size, init, add_ref}
use nodecpp_foundation.Log.Format.{Formatter, IsFormatter, ThreadData, line}
use nodecpp_foundation.Log.Front.{Log, new_log, set_guaranteed_level, set_critical_level, add, log}
use nodecpp_foundation.Log.Front.Levels.{Op, here, next, InStep, State, Run-InStep}
use nodecpp_foundation.Log.Front.Calls.{receivers, AreLines, log_lem}

abbrev plain : Formatter
plain = record {
  decimal = λ n. (b'0' + n % 10) ∷ [];
  stamp = λ t. (b'0' + t % 10) ∷ [];
  format_to_n = λ b p n text. (write_from b p (take n text), length text);
}

plain-IsFormatter : IsFormatter plain
plain-IsFormatter = record {
  size = λ b p n text. refl;
  bytes = λ b p n text q. refl;
  few_digits = λ t lt. omega arith;
}

abbrev thread : ThreadData
thread = record { instance_id = 7; last_time_reported = 5; ordinal_since_last_reported_time = 3 }

abbrev two_transports : Log
two_transports = record new_log { transports = 1 ∷ 2 ∷ [] }

abbrev word_hi : List ℕ
word_hi = b'h' ∷ b'i' ∷ []

log_lem_example :
    (3 < 3 → (log plain (λ i. 0) (λ i. 9) thread two_transports none 3 word_hi).1 ≡ [])
    × (3 ≤ 3
        → (receivers ((log plain (λ i. 0) (λ i. 9) thread two_transports none 3 word_hi).1)
            ≡ 1 ∷ 2 ∷ [])
          × AreLines plain true
              (line plain none 7 3 (take (max_message_size - 1) word_hi))
              ((log plain (λ i. 0) (λ i. 9) thread two_transports none 3 word_hi).1))
log_lem_example =
    log_lem plain plain-IsFormatter (λ i. 0) (λ i. 9) thread two_transports none 3 word_hi
      (λ i lt. ground arith) (omega arith)

abbrev no_data : Store LogBufferBaseData
no_data q = new_log_data

abbrev raised : Log
raised = record new_log { level_could_be_skipped = 2 }

abbrev added_data : LogBufferBaseData
added_data = record new_log_data {
  level_could_be_skipped = 2;
  page_size = 0x1000;
  buff_size = 0x4000;
  buff = some (λ i. 0);
  target = some [];
  ref_counter = 1;
}

abbrev with_sink : State
with_sink = (update no_data 1 added_data, record raised { transports = 1 ∷ [] })

sink-added : add no_data raised 1 0x1000 (λ i. 0) [] ≡ ok with_sink
unfolding add init add_ref
sink-added = refl

level-set : set_guaranteed_level no_data new_log 1 ≡ (no_data, raised)
unfolding set_guaranteed_level
level-set = refl

Run-InStep_example : InStep with_sink
Run-InStep_example =
    Run-InStep (no_data, new_log) (λ t e. cc)
      (next (next here (Op.guaranteed 1) level-set) (Op.adding 1 0x1000 (λ i. 0) []) sink-added)

sink-added-critical :
    add (set_critical_level no_data raised 3) raised 1 0x1000 (λ i. 0) [] ≡ ok with_sink
unfolding add init add_ref set_critical_level
sink-added-critical = refl
