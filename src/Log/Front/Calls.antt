-- ===== src/Log/Front/Calls.antt =====
-- The calls of `addMsg` that a log makes.
use mathlib.Core.Path.{subst}
use nodecpp_foundation.Base.{ℕ, suc, ◌-◌, ◌≤◌, ◌<◌, ◌≡◌, refl, ap, arith, true, false}
use nodecpp_foundation.Base.{
  List, [], ◌∷◌, ◌++◌, Bool, not, Option, none, some, leb-true, leb-false,
}
use nodecpp_foundation.Base.Lists.{length, take}
use nodecpp_foundation.Log.State.{max_message_size, is_none}
use nodecpp_foundation.Log.Format.{
  Formatter, IsFormatter, ThreadData, line, stamp_text, get_current_time_stamp,
}
use nodecpp_foundation.Log.Format.Cuts.{shortened}
use nodecpp_foundation.Log.Format.Bounds.{wrote_to_log_lem}
use nodecpp_foundation.Log.Format.Strings.{IsString, formatted_lem}
use nodecpp_foundation.Log.Front.{Log, write_to_log, write_to_all, log}

-- The transports of the calls
abbrev pub receivers : List (ℕ × List ℕ) → List ℕ
receivers [] = []
receivers (c ∷ cs) = c.0 ∷ receivers cs

-- A message is the text, after a time stamp where stamps are wanted, shortened to fewer bytes than
-- the longest message.
abbrev pub IsLine : Formatter → Bool → List ℕ → List ℕ → Type 0
IsLine f stamps text msg =
    (t : Option ℕ) × (is_none t ≡ not stamps)
    × (msg ≡ shortened (stamp_text f t ++ text))
    × (length msg < max_message_size)

abbrev pub AreLines : Formatter → Bool → List ℕ → List (ℕ × List ℕ) → Type 0
AreLines f stamps text [] = Unit
AreLines f stamps text (c ∷ cs) = IsLine f stamps text (c.1) × AreLines f stamps text cs

module _ (f : Formatter) (fmt : IsFormatter f) where
  stamp-small : (th : ThreadData) (ms : ℕ) → (get_current_time_stamp th ms).1 < 0x10000000000000000
  unfolding get_current_time_stamp
  stamp-small th ms = omega arith

  write_to_log_lem :
      (buffer : ℕ → ℕ) (th : ThreadData) (ms : ℕ) (stamps : Bool) (id : Option (List ℕ))
      (severity : ℕ) (msg : List ℕ)
      → length (line f id th.instance_id severity msg) < 0x8000000000000000
      → IsLine f stamps
          (line f id th.instance_id severity msg)
          ((write_to_log f buffer th ms stamps id severity msg).1)
        × ((write_to_log f buffer th ms stamps id severity msg).0.instance_id ≡ th.instance_id)
  unfolding write_to_log get_current_time_stamp
  write_to_log_lem buffer th ms true id severity msg short =
      let (e, l) =
        wrote_to_log_lem f fmt buffer (some ((get_current_time_stamp th ms).1)) id th.instance_id
          severity msg (λ s h. ground (arith, h, stamp-small th ms)) short in
      ((some ((get_current_time_stamp th ms).1), refl, e, l), ground arith)
  write_to_log_lem buffer th ms false id severity msg short =
      let (e, l) =
        wrote_to_log_lem f fmt buffer none id th.instance_id severity msg (λ s h. cc) short in
      ((none, refl, e, l), refl)

  write_to_all_lem :
      (buffer clock : ℕ → ℕ) (i : ℕ) (th : ThreadData) (stamps : Bool) (id : Option (List ℕ))
      (severity : ℕ) (msg : List ℕ) (ts : List ℕ)
      → length (line f id th.instance_id severity msg) < 0x8000000000000000
      → (receivers ((write_to_all f buffer clock i th stamps id severity msg ts).1) ≡ ts)
        × AreLines f stamps
            (line f id th.instance_id severity msg)
            ((write_to_all f buffer clock i th stamps id severity msg ts).1)
  unfolding write_to_all
  write_to_all_lem buffer clock i th stamps id severity msg [] short = (refl, tt)
  write_to_all_lem buffer clock i th stamps id severity msg (t ∷ ts) short =
      let (first, same) = write_to_log_lem buffer th (clock i) stamps id severity msg short in
      let (all, lines) =
        write_to_all_lem buffer clock (suc i)
          ((write_to_log f buffer th (clock i) stamps id severity msg).0) stamps id severity msg ts
          (rw (same) short) in
      let calls : List (ℕ × List ℕ) =
        (write_to_all f buffer clock (suc i)
          ((write_to_log f buffer th (clock i) stamps id severity msg).0) stamps id severity msg
          ts).1 in
      (
        ap (λ r. t ∷ r) all,
        (first, subst (λ n. AreLines f stamps (line f id n severity msg) calls) same lines),
      )

  -- A log gives a message to each of its transports, in their order, when the level of the message is
  -- not above the level of the log, and to none otherwise. Each is given the line of the first 4095
  -- bytes of the text, after a time stamp where the log wants stamps, and fewer bytes than the longest
  -- message: a longer line is cut and ends in three points and a line end. The text has no zero byte,
  -- and the line is shorter than 2 ^ 63 bytes.
  pub log_lem :
      (buffer clock : ℕ → ℕ) (th : ThreadData) (g : Log) (id : Option (List ℕ)) (l : ℕ)
      (text : List ℕ)
      → IsString text
      → length (line f id th.instance_id l (take (max_message_size - 1) text)) < 0x8000000000000000
      → (g.level < l → (log f buffer clock th g id l text).1 ≡ [])
        × (l ≤ g.level
            → (receivers ((log f buffer clock th g id l text).1) ≡ g.transports)
              × AreLines f g.add_time_stamp
                  (line f id th.instance_id l (take (max_message_size - 1) text))
                  ((log f buffer clock th g id l text).1))
  unfolding log
  log_lem buffer clock th g id l text string short = (
    λ above. rw (leb-false l g.level above) refl,
    λ within.
        rw (leb-true l g.level within, formatted_lem f fmt buffer text string)
          (write_to_all_lem buffer clock 0 th g.add_time_stamp id l
            (take (max_message_size - 1) text) g.transports short),
  )
