-- ===== src/Log/Machine/Stream.antt =====
-- What the file has been given and what is still to be given to it, as one list.
use nodecpp_foundation.Base.{ℕ, ◌≤◌, ◌<◌, ◌≡◌, refl, ap, sym, ◌∙◌, arith}
use nodecpp_foundation.Base.{List, ◌++◌, some}
use nodecpp_foundation.Base.Lists.{append_assoc}
use nodecpp_foundation.Log.State.{LogBufferBaseData}
use nodecpp_foundation.Log.Ring.Contents.{IsRing, bytes_between}
use nodecpp_foundation.Log.Ring.Growth.{GrownBy}
use nodecpp_foundation.Log.Transport.{LogState}
use nodecpp_foundation.Log.Machine.{
  WriterAt, at_top, has_work, has_written, releases, has_released, Machine,
}

-- The position from which the bytes are not in the file
abbrev pub unwritten_from : LogBufferBaseData → WriterAt → ℕ
unwritten_from d at_top = d.start
unwritten_from d (has_work w) = d.start
unwritten_from d (has_written w) = w.end
unwritten_from d (releases t p) = d.start
unwritten_from d (has_released t p) = d.start

-- The work of the writer is a range of the buffer that is not empty.
abbrev pub IsWork : LogBufferBaseData → WriterAt → Type 0
IsWork d at_top = Unit
IsWork d (has_work w) = (w.start ≡ d.start) × (w.start < w.end) × (w.end ≤ d.end)
IsWork d (has_written w) = (w.start ≡ d.start) × (w.start < w.end) × (w.end ≤ d.end)
IsWork d (releases t p) = Unit
IsWork d (has_released t p) = Unit

pub record IsMachine (m : Machine) (bytes : ℕ → ℕ) (file : List ℕ) : Type 0 where
  pub ring : IsRing m.state.log bytes
  pub open_file : m.state.log.target ≡ some file
  pub work : IsWork m.state.log m.writer

-- What has been given to the file and what is still to be given to it
abbrev pub stream : Machine → (ℕ → ℕ) → List ℕ → List ℕ
stream m bytes file =
    file ++ bytes_between m.state.log bytes (unwritten_from m.state.log m.writer) m.state.log.end

-- A step from `m` keeps the machine in order and adds `out` to the stream.
abbrev pub Flows : Machine → (ℕ → ℕ) → List ℕ → List ℕ → Machine → Type 0
Flows m bytes file out m' =
    (bytes' : ℕ → ℕ) × (file' : List ℕ) × IsMachine m' bytes' file'
    × (stream m' bytes' file' ≡ stream m bytes file ++ out)

pub unwritten_from-bounds :
    (d : LogBufferBaseData) (a : WriterAt)
    → d.start ≤ d.end
    → IsWork d a
    → (d.start ≤ unwritten_from d a) × (unwritten_from d a ≤ d.end)
unwritten_from-bounds d at_top o w = (omega arith, o)
unwritten_from-bounds d (has_work k) o w = (omega arith, o)
unwritten_from-bounds d (has_written k) o w = (omega (arith, w), omega (arith, w))
unwritten_from-bounds d (releases t p) o w = (omega arith, o)
unwritten_from-bounds d (has_released t p) o w = (omega arith, o)

pub unwritten_from-same :
    (d d' : LogBufferBaseData) (a : WriterAt)
    → d'.start ≡ d.start
    → unwritten_from d' a ≡ unwritten_from d a
unwritten_from-same d d' at_top e = e
unwritten_from-same d d' (has_work k) e = e
unwritten_from-same d d' (has_written k) e = refl
unwritten_from-same d d' (releases t p) e = e
unwritten_from-same d d' (has_released t p) e = e

pub IsWork-later :
    (d d' : LogBufferBaseData) (a : WriterAt)
    → d'.start ≡ d.start
    → d.end ≤ d'.end
    → IsWork d a
    → IsWork d' a
IsWork-later d d' at_top e le w = w
IsWork-later d d' (has_work k) e le w = (w.0 ∙ sym e, w.1, omega (arith, w, le))
IsWork-later d d' (has_written k) e le w = (w.0 ∙ sym e, w.1, omega (arith, w, le))
IsWork-later d d' (releases t p) e le w = w
IsWork-later d d' (has_released t p) e le w = w

-- What threads that log do
pub grown-Flows :
    (m : Machine) (bytes : ℕ → ℕ) (file : List ℕ) (s' : LogState) (bytes' : ℕ → ℕ) (out : List ℕ)
    → IsMachine m bytes file
    → GrownBy m.state.log bytes s'.log bytes' out
    → Flows m bytes file out (record { state = s'; writer = m.writer })
grown-Flows m bytes file s' bytes' out w g =
    let d = m.state.log in
    let (lower, upper) = unwritten_from-bounds d m.writer w.ring.ordered w.work in
    (
      bytes',
      file,
      record {
        ring = g.ring;
        open_file = g.same_target ∙ w.open_file;
        work = IsWork-later d s'.log m.writer g.same_start g.later w.work;
      },
      ap (λ (q : ℕ). file ++ bytes_between s'.log bytes' q s'.log.end)
            (unwritten_from-same d s'.log m.writer g.same_start)
          ∙ ap (λ t. file ++ t) (g.grown (unwritten_from d m.writer) lower upper)
          ∙ sym (append_assoc file (bytes_between d bytes (unwritten_from d m.writer) d.end) out),
    )
