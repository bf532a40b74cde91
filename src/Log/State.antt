-- ===== src/Log/State.antt =====
-- `LogBufferBaseData` of include/log.h and the objects that threads wait with.
use nodecpp_foundation.Base.{ℕ, ◌+◌, ◌-◌, ◌*◌, ◌/◌, ◌%◌, List, Option, none, some}
use nodecpp_foundation.Base.{Bool, true, false, ◌&&◌, leb, ◌==◌, if◌then◌else◌, bit_or}
use nodecpp_foundation.Base.Outcome.{Outcome, ok, asserting}
use nodecpp_foundation.Log.Counters.{SkippedMsgCounters, cleared, fatal, info}

-- `Action`
pub data Action : Type 0 where
  proceed : Action
  proceed_to_termination : Action
  termination_allowed : Action

abbrev pub is_proceed : Action → Bool
is_proceed Action.proceed = true
is_proceed Action.proceed_to_termination = false
is_proceed Action.termination_allowed = false

abbrev pub is_proceed_to_termination : Action → Bool
is_proceed_to_termination Action.proceed = false
is_proceed_to_termination Action.proceed_to_termination = true
is_proceed_to_termination Action.termination_allowed = false

abbrev pub is_termination_allowed : Action → Bool
is_termination_allowed Action.proceed = false
is_termination_allowed Action.proceed_to_termination = false
is_termination_allowed Action.termination_allowed = true

-- `ChainedWaitingData`; `next` names another call.
pub record ChainedWaitingData : Type 0 where
  pub skipped_ctrs : SkippedMsgCounters
  pub can_run : Bool
  pub next : Option ℕ

abbrev pub new_waiting : ChainedWaitingData
new_waiting = record { skipped_ctrs = cleared; can_run = false; next = none }

-- `ChainedWaitingForGuaranteedWrite`; `next` names another transport.
pub record ChainedWaitingForGuaranteedWrite : Type 0 where
  pub can_run : Bool
  pub next : Option ℕ

-- `target` is what the file has been given, none once it is closed.
pub record LogBufferBaseData : Type 0 where
  pub level_could_be_skipped : ℕ
  pub level_guaranteed_write : ℕ
  pub page_size : ℕ
  pub buff : Option (ℕ → ℕ)
  pub buff_size : ℕ
  pub start : ℕ
  pub end : ℕ
  pub must_be_written_immediately : ℕ
  pub skipped_ctrs : SkippedMsgCounters
  pub ref_counter : ℕ
  pub first_to_release : Option ℕ
  pub next_to_add : Option ℕ
  pub first_to_release_guaranteed : Option ℕ
  pub next_to_add_guaranteed : Option ℕ
  pub action : Action
  pub target : Option (List ℕ)

-- `maxMessageSize`
abbrev pub max_message_size : ℕ
max_message_size = 0x1000

-- `skippedCntMsgSz`
abbrev pub skipped_cnt_msg_sz : ℕ
skipped_cnt_msg_sz = 128

-- `pageCount`
abbrev pub page_count : ℕ
page_count = 4

-- Sums and differences of `uint64_t`
abbrev pub word_add : ℕ → ℕ → ℕ
word_add a b = (a + b) % 0x10000000000000000

abbrev pub word_sub : ℕ → ℕ → ℕ
word_sub a b = (a + (0x10000000000000000 - b)) % 0x10000000000000000

-- `LogBufferBaseData()`
abbrev pub new_log_data : LogBufferBaseData
new_log_data = record {
  level_could_be_skipped = info;
  level_guaranteed_write = fatal;
  page_size = 0;
  buff = none;
  buff_size = 0;
  start = 0;
  end = 0;
  must_be_written_immediately = 0;
  skipped_ctrs = cleared;
  ref_counter = 0;
  first_to_release = none;
  next_to_add = none;
  first_to_release_guaranteed = none;
  next_to_add_guaranteed = none;
  action = Action.proceed;
  target = none;
}

abbrev pub is_none : {A : Type 0} → Option A → Bool
is_none none = true
is_none (some a) = false

-- `init( FILE* )` without the start of the writer thread. `mem_page_sz` is what
-- `VirtualMemory::getPageSize` gives, and `memory` what `VirtualMemory::allocate` gives.
unfoldable pub init : LogBufferBaseData → ℕ → (ℕ → ℕ) → List ℕ → Outcome LogBufferBaseData
init d mem_page_sz memory file =
    let small = leb mem_page_sz 0x4000 in
    let page_size' = if small then mem_page_sz else mem_page_sz / page_count in
    let buff_size' = if small then mem_page_sz * page_count else mem_page_sz in
    asserting (is_none d.buff) (
      asserting (is_none d.target) (
        asserting (bit_or (page_size' - 1) page_size' + 1 == page_size' * 2) (
          asserting (bit_or (page_count - 1) page_count + 1 == page_count * 2) (
            ok (record d {
              page_size = page_size';
              buff_size = buff_size';
              buff = some memory;
              target = some file;
            })))))

-- `deinit`
unfoldable pub deinit : LogBufferBaseData → LogBufferBaseData
deinit d = record d { buff = none; target = none }

-- `availableSize`
abbrev pub available_size : LogBufferBaseData → ℕ
available_size d = word_sub d.buff_size (word_sub d.end d.start)

-- `addRef` and `removeRef`, with the value that they return
unfoldable pub add_ref : LogBufferBaseData → LogBufferBaseData × ℕ
add_ref d = (record d { ref_counter = word_add d.ref_counter 1 }, word_add d.ref_counter 1)

unfoldable pub remove_ref : LogBufferBaseData → LogBufferBaseData × ℕ
remove_ref d = (record d { ref_counter = word_sub d.ref_counter 1 }, word_sub d.ref_counter 1)

-- `setEnterTerminatingPhase` and `setTerminationAllowed`
unfoldable pub set_enter_terminating_phase : LogBufferBaseData → LogBufferBaseData
set_enter_terminating_phase d = record d { action = Action.proceed_to_termination }

unfoldable pub set_termination_allowed : LogBufferBaseData → LogBufferBaseData
set_termination_allowed d = record d { action = Action.termination_allowed }

-- `_writerOnly_TerminateIfAlone`
unfoldable pub terminate_if_alone : LogBufferBaseData → LogBufferBaseData × Bool
terminate_if_alone d =
    if is_termination_allowed d.action && (d.ref_counter == 1) && (d.start == d.end)
    then (deinit (record d { ref_counter = 0 }), true)
    else (d, false)
