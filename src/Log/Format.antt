-- ===== src/Log/Format.antt =====
-- What include/log.h makes of a message before `addMsg`: the time stamp, the line and its bounds.
pub mod Cuts
pub mod Bounds
pub mod Strings
pub mod Stamps
use nodecpp_foundation.Base.{
  ℕ, zero, suc, ◌+◌, ◌-◌, ◌*◌, ◌%◌, ◌≤◌, ◌<◌, ◌≡◌, List, [], ◌∷◌, ◌++◌, Option, none, some,
}
use nodecpp_foundation.Base.{Bool, true, false, leb, ◌==◌, if◌then◌else◌}
use nodecpp_foundation.Base.Lists.{length, take, put}
use nodecpp_foundation.Base.Bytes.{write_from, read_from}
use nodecpp_foundation.Log.Counters.{log_level_name}
use nodecpp_foundation.Log.State.{max_message_size, word_add, word_sub}

-- What the code uses of the formatting library: the text of an instance id, the text of a time stamp
-- in millionths of a second, and `format_to_n` to a position of a buffer with a limit, given the whole
-- text that the pattern and its arguments make.
pub record Formatter : Type 0 where
  pub decimal : ℕ → List ℕ
  pub stamp : ℕ → List ℕ
  pub format_to_n : (ℕ → ℕ) → ℕ → ℕ → List ℕ → (ℕ → ℕ) × ℕ

-- What the library documents: at most `n` bytes are written, the size is that of the whole text, and
-- a stamp of 64 bits has at most 14 digits, a point and 6 digits.
pub record IsFormatter (f : Formatter) : Type 0 where
  pub size : (b : ℕ → ℕ) (p n : ℕ) (text : List ℕ) → (f.format_to_n b p n text).1 ≡ length text
  pub bytes :
      (b : ℕ → ℕ) (p n : ℕ) (text : List ℕ) (q : ℕ)
      → (f.format_to_n b p n text).0 q ≡ write_from b p (take n text) q
  pub few_digits : (t : ℕ) → t < 0x10000000000000000 → length (f.stamp t) ≤ 21

-- `instanceId`, `lastTimeReported` and `ordinalSinceLastReportedTime` of a thread
pub record ThreadData : Type 0 where
  pub instance_id : ℕ
  pub last_time_reported : ℕ
  pub ordinal_since_last_reported_time : ℕ

-- `invalidInstanceID`
abbrev pub invalid_instance_id : ℕ
invalid_instance_id = 0xFFFFFFFFFFFFFFFE

-- `getCurrentTimeStamp` when the clock of the system reads `ms` milliseconds
unfoldable pub get_current_time_stamp : ThreadData → ℕ → ThreadData × ℕ
get_current_time_stamp th ms =
    let th' =
      if ms == th.last_time_reported
      then record th {
        ordinal_since_last_reported_time = word_add th.ordinal_since_last_reported_time 1;
      }
      else record th { last_time_reported = ms; ordinal_since_last_reported_time = 0 } in
    (th', word_add (ms * 1000 % 0x10000000000000000) th'.ordinal_since_last_reported_time)

-- The bytes of a string of C from position `i`
abbrev pub c_string : ℕ → (ℕ → ℕ) → ℕ → List ℕ
c_string zero b i = []
c_string (suc fuel) b i = elim (b i == 0) [ true ↦ [] | false ↦ b i ∷ c_string fuel b (suc i) ]

module _ (f : Formatter) where
  -- The four patterns of `writoToLog`
  abbrev pub line : Option (List ℕ) → ℕ → ℕ → List ℕ → List ℕ
  line (some id) instance_id severity msg =
      b'['
      ∷ ((id ++ (if instance_id == invalid_instance_id then [] else b':' ∷ f.decimal instance_id))
          ++ (b']' ∷ b'[' ∷ (log_level_name severity ++ (b']' ∷ b' ' ∷ (msg ++ (b'\n' ∷ []))))))
  line none instance_id severity msg =
      b'['
      ∷ b':'
      ∷ ((if instance_id == invalid_instance_id then [] else f.decimal instance_id)
          ++ (b']' ∷ b'[' ∷ (log_level_name severity ++ (b']' ∷ b' ' ∷ (msg ++ (b'\n' ∷ []))))))

  abbrev pub stamp_text : Option ℕ → List ℕ
  stamp_text none = []
  stamp_text (some t) = b'[' ∷ (f.stamp t ++ (b']' ∷ []))

  -- `writoToLog`: the beginning of the buffer and its length
  unfoldable pub write_stamp : (ℕ → ℕ) → Option ℕ → (ℕ → ℕ) × ℕ
  write_stamp buffer none = (buffer, 0)
  write_stamp buffer (some t) = f.format_to_n buffer 0 (max_message_size - 1) (stamp_text (some t))

  -- `writoToLog`: what `addMsg` is given, for a buffer with any bytes in it
  unfoldable pub wrote_to_log : (ℕ → ℕ) → Option ℕ → Option (List ℕ) → ℕ → ℕ → List ℕ → List ℕ
  wrote_to_log buffer t id instance_id severity msg =
      let (b1, pos1) = write_stamp buffer t in
      let r =
        f.format_to_n b1 pos1 (word_sub (max_message_size - 1) pos1)
          (line id instance_id severity msg) in
      let pos = word_add pos1 (r.1) in
      if leb max_message_size pos
      then read_from
          (put (write_from (r.0) (max_message_size - 5) (b'.' ∷ b'.' ∷ b'.' ∷ b'\n' ∷ []))
            (max_message_size - 1) 0)
          0 (max_message_size - 1)
      else read_from (put (r.0) pos 0) 0 pos

  -- `log`: the message as `writoToLog` reads it, from the text that `format_str` and `obj` make
  unfoldable pub formatted : (ℕ → ℕ) → List ℕ → List ℕ
  formatted buffer text =
      let r = f.format_to_n buffer 0 (max_message_size - 1) text in
      if leb max_message_size (r.1)
      then c_string max_message_size (put (r.0) (max_message_size - 1) 0) 0
      else c_string max_message_size (put (r.0) (r.1) 0) 0
