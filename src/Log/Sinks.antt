-- ===== src/Log/Sinks.antt =====
-- The sinks of a log of include/log.h that are opened by a path, the moves of its transports, and how the thread
-- that writes begins and ends (src/log.cpp).
pub mod Ends
use nodecpp_foundation.Base.{ℕ, List, Option, none, some, ◌==◌, if◌then◌else◌}
use nodecpp_foundation.Base.Outcome.{Outcome, ok, throws, null_dereference}
use nodecpp_foundation.Base.Store.{Store, update}
use nodecpp_foundation.Log.State.{
  LogBufferBaseData, init, deinit, add_ref, remove_ref, new_log_data,
}
use nodecpp_foundation.Log.Front.{Log, add, release}

-- `init( path )`; `fopen` gives what the file has, or nothing, which `setbuf` does not take.
unfoldable pub init_path :
    (List ℕ → Option (List ℕ))
    → LogBufferBaseData
    → ℕ
    → (ℕ → ℕ)
    → List ℕ
    → Outcome LogBufferBaseData
init_path fopen d mem_page_sz memory path = elim (fopen path) [
  | none ↦ throws null_dereference
  | some file ↦ init d mem_page_sz memory file
]

-- `add( path )`: what `add` of an open file does, with the file that `fopen` gives
unfoldable pub add_path :
    (List ℕ → Option (List ℕ))
    → Store LogBufferBaseData
    → Log
    → ℕ
    → ℕ
    → (ℕ → ℕ)
    → List ℕ
    → Outcome (Store LogBufferBaseData × Log)
add_path fopen s g address mem_page_sz memory path = elim (fopen path) [
  | none ↦ throws null_dereference
  | some file ↦ add s g address mem_page_sz memory file
]

-- `logData` of a transport: the address of its data, 0 where it has none. Its `gww`, which Log/State and
-- Log/Transport model, is touched by none of the operations here.
pub record LogTransport : Type 0 where
  pub log_data : ℕ

-- The constructor: the data with one reference more, and the transport
unfoldable pub construct : Store LogBufferBaseData → ℕ → Store LogBufferBaseData × LogTransport
construct s address = (update s address ((add_ref (s address)).0), record { log_data = address })

-- The move constructor: the new transport and what it leaves
unfoldable pub move_construct : LogTransport → LogTransport × LogTransport
move_construct other = (other, record { log_data = 0 })

-- The move assignment of the transport at `other` to the one at `dst`; the data of `dst` keep their reference.
unfoldable pub move_assign : Store LogTransport → ℕ → ℕ → Store LogTransport
move_assign ts dst other = update (update ts dst (ts other)) other (record { log_data = 0 })

-- `~LogTransport`
unfoldable pub destruct : Store LogBufferBaseData → LogTransport → Store LogBufferBaseData
destruct s t = if t.log_data == 0 then s else update s t.log_data (release (s t.log_data))

-- `runLoop` before and after `runLoop_`, whose exceptions it takes
unfoldable pub run_loop_begins : LogBufferBaseData → LogBufferBaseData
run_loop_begins d = (add_ref d).0

unfoldable pub run_loop_ends : LogBufferBaseData → LogBufferBaseData
run_loop_ends d = release d
