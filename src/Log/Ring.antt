-- ===== src/Log/Ring.antt =====
-- The circular buffer of the log: `LogTransport::insertSingleMsg` and `LogWriter::justWrite`.
pub mod Contents
pub mod Growth
use nodecpp_foundation.Base.{ℕ, ◌+◌, ◌-◌, List, [], ◌∷◌, ◌++◌, Option, none, some, bit_and}
use nodecpp_foundation.Base.{leb, ltb, if◌then◌else◌}
use nodecpp_foundation.Base.Lists.{length, take, drop}
use nodecpp_foundation.Base.Bytes.{read_from}
use nodecpp_foundation.Base.Circle.{ring_write}
use nodecpp_foundation.Base.Outcome.{Outcome, ok, throws, asserting, zero_access}
use nodecpp_foundation.Log.State.{LogBufferBaseData, available_size, word_add}

-- `position & (buffSize - 1)`
abbrev pub offset : LogBufferBaseData → ℕ → ℕ
offset d position = bit_and position (d.buff_size - 1)

-- `insertSingleMsg`; a copy to a buffer that is not there has no defined outcome.
unfoldable pub insert_single_msg : LogBufferBaseData → List ℕ → Outcome LogBufferBaseData
insert_single_msg d msg = asserting (leb (length msg) (available_size d)) (elim d.buff [
  | none ↦ throws zero_access
  | some bytes ↦ ok (record d {
    buff = some (ring_write bytes d.buff_size (offset d d.end) msg);
    end = word_add d.end (length msg);
  })
])

-- The bytes that `justWrite` hands to `fwrite`
abbrev pub written_bytes : LogBufferBaseData → (ℕ → ℕ) → ℕ → ℕ → List ℕ
written_bytes d bytes start end =
    let startoff = offset d start in
    let endoff = offset d end in
    if ltb startoff endoff
    then read_from bytes startoff (endoff - startoff)
    else read_from bytes startoff (d.buff_size - startoff) ++ read_from bytes 0 endoff

-- `justWrite`
unfoldable pub just_write : LogBufferBaseData → ℕ → ℕ → Outcome LogBufferBaseData
just_write d start end = elim d.buff [
  | none ↦ throws zero_access
  | some bytes ↦ elim d.target [
    | none ↦ throws zero_access
    | some file ↦ ok (record d { target = some (file ++ written_bytes d bytes start end) })
  ]
]
