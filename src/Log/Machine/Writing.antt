-- ===== src/Log/Machine/Writing.antt =====
-- The steps of the writer leave the stream as it is.
use nodecpp_foundation.Base.{ℕ, ◌+◌, ◌-◌, ◌≤◌, ◌<◌, ◌≡◌, refl, ap, sym, ◌∙◌, arith}
use nodecpp_foundation.Base.{List, [], ◌++◌, some, false}
use nodecpp_foundation.Base.Lists.{append-nil, append_assoc}
use mathlib.Core.Path.{subst}
use nodecpp_foundation.Base.Circle.{circular, circular-add}
use nodecpp_foundation.Base.Outcome.{ok}
use nodecpp_foundation.Log.State.{LogBufferBaseData, terminate_if_alone}
use nodecpp_foundation.Log.Ring.{just_write, written_bytes}
use nodecpp_foundation.Log.Ring.Contents.{bytes_between, written_bytes_lem}
use nodecpp_foundation.Log.Ring.Growth.{SameRing, GrownBy-same}
use nodecpp_foundation.Log.Transport.{LogState, with_log}
use nodecpp_foundation.Log.Transport.Growth.{SameRing-of}
use nodecpp_foundation.Log.Writer.{release_waiting, Work, take_work, perform, commit}
use nodecpp_foundation.Log.Machine.{WriterAt, at_top, has_work, has_written, releases, Machine}
use nodecpp_foundation.Log.Machine.Stream.{IsWork, IsMachine, Flows, unwritten_from}

pub release_waiting-SameRing :
    (s : LogState) (d : ℕ) (s' : LogState)
    → release_waiting s (some d) ≡ ok s'
    → SameRing s.log s'.log
unfolding release_waiting
release_waiting-SameRing s d s' h = SameRing-of (ground (arith, h))

pub terminate_if_alone-SameRing :
    (d d' : LogBufferBaseData) → terminate_if_alone d ≡ (d', false) → SameRing d d'
unfolding terminate_if_alone
terminate_if_alone-SameRing d d' h = SameRing-of (ground (arith, h))

pub take-Flows :
    (m : Machine) (bytes : ℕ → ℕ) (file : List ℕ) (d' : LogBufferBaseData) (w : Work)
    → IsMachine m bytes file
    → m.writer ≡ at_top
    → m.state.log.start < m.state.log.end
    → take_work m.state.log ≡ ok (d', w)
    → Flows m bytes file [] (record { state = with_log m.state d'; writer = has_work w })
unfolding take_work
take-Flows m bytes file d' w im top lt h =
    let d = m.state.log in
    let s : SameRing d d' = SameRing-of (ground (arith, h)) in
    let from_start : w.start ≡ d.start = ground (arith, h) in
    let to_end : w.end ≡ d.end = ground (arith, h) in
    let g = GrownBy-same d d' bytes im.ring s in
    (
      bytes,
      file,
      record {
        ring = g.ring;
        open_file = s.same_target ∙ im.open_file;
        work = (
          from_start ∙ sym s.same_start,
          omega (arith, from_start, to_end, lt),
          omega (arith, to_end, s.same_end),
        );
      },
      rw (top, s.same_size, s.same_start, s.same_end)
          (sym (append-nil (file ++ bytes_between d bytes d.start d.end))),
    )

-- A range and the rest of the buffer are the buffer.
joined :
    (d : LogBufferBaseData) (bytes : ℕ → ℕ) (w : Work)
    → w.start ≡ d.start
    → w.start < w.end
    → w.end ≤ d.end
    → bytes_between d bytes w.start w.end ++ bytes_between d bytes w.end d.end
      ≡ bytes_between d bytes d.start d.end
joined d bytes w starts some_bytes ends = sym (
    ap (circular bytes d.buff_size d.start) {x = d.end - d.start}
      {y = (w.end - w.start) + (d.end - w.end)} (omega arith)
    ∙ circular-add bytes d.buff_size d.start (w.end - w.start) (d.end - w.end)
    ∙ rw (← starts) (
        ap
          (λ (q : ℕ).
            circular bytes d.buff_size w.start (w.end - w.start)
            ++ circular bytes d.buff_size q (d.end - w.end))
          {x = w.start + (w.end - w.start)} {y = w.end} (omega arith)))

pub write-Flows :
    (m : Machine) (bytes : ℕ → ℕ) (file : List ℕ) (d' : LogBufferBaseData) (w : Work)
    → IsMachine m bytes file
    → m.writer ≡ has_work w
    → perform m.state.log w ≡ ok d'
    → Flows m bytes file [] (record { state = with_log m.state d'; writer = has_written w })
unfolding perform just_write
write-Flows m bytes file d' w im at h =
    let d = m.state.log in
    let (starts, some_bytes, ends) : IsWork d (has_work w) = subst (λ a. IsWork d a) at im.work in
    let whole : written_bytes d bytes w.start w.end ≡ bytes_between d bytes w.start w.end =
      written_bytes_lem d bytes im.ring w.start w.end some_bytes
        (omega (arith, im.ring.bounded, starts, ends)) in
    let e : record d { target = some (file ++ written_bytes d bytes w.start w.end) } ≡ d' =
      ground (arith, h, im.ring.held, im.open_file) in
    rw (← e) (
      (
        bytes,
        file ++ written_bytes d bytes w.start w.end,
        record {
          ring = record {
            held = im.ring.held;
            power = im.ring.power;
            ordered = im.ring.ordered;
            bounded = im.ring.bounded;
            in_word = im.ring.in_word;
          };
          open_file = refl;
          work = (starts, some_bytes, ends);
        },
        rw (at, whole, append_assoc, append-nil)
            (ap (λ t. file ++ t) (joined d bytes w starts some_bytes ends)),
      ))

pub commit-Flows :
    (m : Machine) (bytes : ℕ → ℕ) (file : List ℕ) (w : Work)
    → IsMachine m bytes file
    → m.writer ≡ has_written w
    → w.end + m.state.log.buff_size < 0x10000000000000000
    → Flows m bytes file []
        (record { state = with_log m.state (commit m.state.log w); writer = releases w.gww w.p })
commit-Flows m bytes file w im at fits =
    let d = m.state.log in
    let (starts, some_bytes, ends) : IsWork d (has_written w) =
      subst (λ a. IsWork d a) at im.work in
    (
      bytes,
      file,
      record {
        ring = record {
          held = im.ring.held;
          power = im.ring.power;
          ordered = ends;
          bounded = omega (arith, im.ring.bounded, starts, some_bytes);
          in_word = fits;
        };
        open_file = im.open_file;
        work = tt;
      },
      rw (at) (sym (append-nil (file ++ bytes_between d bytes w.end d.end))),
    )

-- What the writer does between two cycles leaves the stream.
pub idle-Flows :
    (m : Machine) (bytes : ℕ → ℕ) (file : List ℕ) (s' : LogState) (a : WriterAt)
    → IsMachine m bytes file
    → SameRing m.state.log s'.log
    → unwritten_from m.state.log m.writer ≡ m.state.log.start
    → unwritten_from s'.log a ≡ s'.log.start
    → IsWork s'.log a
    → Flows m bytes file [] (record { state = s'; writer = a })
idle-Flows m bytes file s' a im s before after work =
    let d = m.state.log in
    let g = GrownBy-same d s'.log bytes im.ring s in
    (
      bytes,
      file,
      record { ring = g.ring; open_file = s.same_target ∙ im.open_file; work = work },
      rw (before, after, s.same_size, s.same_start, s.same_end)
          (sym (append-nil (file ++ bytes_between d bytes d.start d.end))),
    )
