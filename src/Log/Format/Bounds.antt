-- ===== src/Log/Format/Bounds.antt =====
-- The message that `writoToLog` of include/log.h gives `addMsg`.
use nodecpp_foundation.Base.{ℕ, ◌+◌, ◌-◌, ◌<◌, ◌≡◌, refl, ap, sym, ◌∙◌, arith}
use nodecpp_foundation.Base.{
  List, [], ◌∷◌, ◌++◌, Option, none, some, leb, lt_or_ge, inl, inr, if◌then◌else◌,
}
use nodecpp_foundation.Base.Lists.{
  length, take, at, put, length-append, at-take, at-append_left, at-append_right, take-at,
}
use nodecpp_foundation.Base.Bytes.{
  write_from, read_from, read_from-at, write_from-before, write_from-at,
}
use nodecpp_foundation.Log.State.{max_message_size, word_add, word_sub}
use nodecpp_foundation.Log.Format.{
  Formatter, IsFormatter, line, stamp_text, write_stamp, wrote_to_log,
}
use nodecpp_foundation.Log.Format.Cuts.{shortened, dots, cut-at, shortened-length, chosen}

module _ (f : Formatter) (fmt : IsFormatter f) where
  -- What `format_to_n` leaves at a position
  formatted-at :
      (b : ℕ → ℕ) (p n : ℕ) (text : List ℕ) (i : ℕ)
      → i < n
      → i < length text
      → (f.format_to_n b p n text).0 (p + i) ≡ at text i
  formatted-at b p n text i lt inside =
      fmt.bytes b p n text (p + i)
      ∙ write_from-at b p (take n text) i (take-at n text i lt inside)
      ∙ at-take n text i lt

  write_stamp_lem :
      (buffer : ℕ → ℕ) (t : Option ℕ)
      → length (stamp_text f t) < 64
      → ((write_stamp f buffer t).1 ≡ length (stamp_text f t))
        × ((i : ℕ)
            → i < length (stamp_text f t)
            → (write_stamp f buffer t).0 i ≡ at (stamp_text f t) i)
  unfolding write_stamp
  write_stamp_lem buffer none short = (refl, λ i lt. absurd (omega (arith, lt)))
  write_stamp_lem buffer (some t) short = (
    fmt.size buffer 0 (max_message_size - 1) (stamp_text f (some t)),
    λ i lt.
        ap ((f.format_to_n buffer 0 (max_message_size - 1) (stamp_text f (some t))).0) {x = i}
          {y = 0 + i} (omega arith)
        ∙ formatted-at buffer 0 (max_message_size - 1) (stamp_text f (some t)) i
            (omega (arith, lt, short)) lt,
  )

  stamp_text-short : (t : ℕ) → t < 0x10000000000000000 → length (stamp_text f (some t)) < 64
  stamp_text-short t small =
      omega (arith, length-append (f.stamp t) (b']' ∷ []), fmt.few_digits t small)

  -- Both parts of the text
  both-at :
      (buffer : ℕ → ℕ) (t : Option ℕ) (text : List ℕ) (n : ℕ) (q : ℕ)
      → length (stamp_text f t) < 64
      → n ≡ max_message_size - 1 - length (stamp_text f t)
      → q < max_message_size - 1
      → q < length (stamp_text f t ++ text)
      → (f.format_to_n ((write_stamp f buffer t).0) (length (stamp_text f t)) n text).0 q
        ≡ at (stamp_text f t ++ text) q
  both-at buffer t text n q short en small inside =
      let (size, bytes) = write_stamp_lem buffer t short in
      let s = stamp_text f t in
      let b = (write_stamp f buffer t).0 in
      elim (lt_or_ge q (length s)) [
        | inl before ↦
            fmt.bytes b (length s) n text q
            ∙ write_from-before b (length s) (take n text) q before
            ∙ bytes q before
            ∙ sym (at-append_left s text q before)
        | inr after ↦
            let e : q ≡ length s + (q - length s) = omega (arith, after) in
            ap ((f.format_to_n b (length s) n text).0) e
            ∙ formatted-at b (length s) n text (q - length s)
                (omega (arith, after, small, en, short))
                (omega (arith, after, inside, length-append s text))
            ∙ sym (at-append_right s text (q - length s))
            ∙ ap (at (s ++ text)) (sym e)
      ]

  short :
      (t : Option ℕ)
      → ((s : ℕ) → t ≡ some s → s < 0x10000000000000000)
      → length (stamp_text f t) < 64
  short none word = omega arith
  short (some s) word = stamp_text-short s (word s refl)

  -- A text that fits
  fits-at :
      (buffer : ℕ → ℕ) (t : Option ℕ) (text : List ℕ) (n pos : ℕ)
      → length (stamp_text f t) < 64
      → n ≡ max_message_size - 1 - length (stamp_text f t)
      → pos ≡ length (stamp_text f t ++ text)
      → pos < max_message_size
      → read_from
          (put
            ((f.format_to_n ((write_stamp f buffer t).0) (length (stamp_text f t)) n text).0)
            pos
            0)
          0
          pos
        ≡ stamp_text f t ++ text
  fits-at buffer t text n pos is_short en ep small =
      let b = (f.format_to_n ((write_stamp f buffer t).0) (length (stamp_text f t)) n text).0 in
      ap (read_from (put b pos 0) 0) ep
      ∙ read_from-at (put b pos 0) 0 (stamp_text f t ++ text) (λ i lt.
        ground
          (arith, lt, ep, both-at buffer t text n i is_short en (omega (arith, small, lt, ep)) lt))

  -- The text that `addMsg` is given, by whether it fits
  wrote_to_log-text :
      (buffer : ℕ → ℕ) (t : Option ℕ) (id : Option (List ℕ)) (instance_id severity : ℕ)
      (msg : List ℕ) (pos1 n pos : ℕ)
      → pos1 ≡ (write_stamp f buffer t).1
      → n ≡ word_sub (max_message_size - 1) pos1
      → pos ≡ word_add pos1 (length (line f id instance_id severity msg))
      → wrote_to_log f buffer t id instance_id severity msg ≡ (
          let r =
            f.format_to_n
              ((write_stamp f buffer t).0)
              pos1
              n
              (line f id instance_id severity msg) in
          if leb max_message_size pos
          then read_from
              (put (write_from (r.0) (max_message_size - 5) dots) (max_message_size - 1) 0)
              0
              (max_message_size - 1)
          else read_from (put (r.0) pos 0) 0 pos)
  unfolding wrote_to_log
  wrote_to_log-text buffer t id instance_id severity msg pos1 n pos e1 en ep =
      rw (ep, en, e1, fmt.size) refl

  wrote_to_log-shortened :
      (buffer : ℕ → ℕ) (t : Option ℕ) (id : Option (List ℕ)) (instance_id severity : ℕ)
      (msg : List ℕ)
      → ((s : ℕ) → t ≡ some s → s < 0x10000000000000000)
      → length (line f id instance_id severity msg) < 0x8000000000000000
      → wrote_to_log f buffer t id instance_id severity msg
        ≡ shortened (stamp_text f t ++ line f id instance_id severity msg)
  wrote_to_log-shortened buffer t id instance_id severity msg word short_line =
      wrote_to_log-text buffer t id instance_id severity msg pos1 n pos en refl refl
      ∙ chosen _ _ (stamp_text f t ++ text) pos size
          (λ lt. fits-at buffer t text n pos is_short small size lt)
          (λ ge.
            cut-at ((f.format_to_n ((write_stamp f buffer t).0) pos1 n text).0)
              (stamp_text f t ++ text) (max_message_size - 5) (max_message_size - 1)
              (λ q lt.
                both-at buffer t text n q is_short small (omega (arith, lt))
                  (omega (arith, lt, ge, size)))
              (omega (arith, ge, size)) refl)
    where
      text : List ℕ
      text = line f id instance_id severity msg

      is_short : length (stamp_text f t) < 64
      is_short = short t word

      pos1 : ℕ
      pos1 = length (stamp_text f t)

      n : ℕ
      n = word_sub (max_message_size - 1) pos1

      pos : ℕ
      pos = word_add pos1 (length text)

      en : pos1 ≡ (write_stamp f buffer t).1
      en = sym ((write_stamp_lem buffer t is_short).0)

      small : n ≡ max_message_size - 1 - pos1
      small = omega (arith, is_short)

      size : pos ≡ length (stamp_text f t ++ text)
      size = omega (arith, is_short, short_line, length-append (stamp_text f t) text)

  -- Whatever the buffer held, `addMsg` is given the time stamp and the line if they are shorter than
  -- 4096 bytes together, and otherwise their first 4091 bytes, three points and a line end: fewer
  -- bytes than the room that the writer waits for. The stamp is of 64 bits, and the line is shorter
  -- than 2 ^ 63 bytes.
  pub wrote_to_log_lem :
      (buffer : ℕ → ℕ) (t : Option ℕ) (id : Option (List ℕ)) (instance_id severity : ℕ)
      (msg : List ℕ)
      → ((s : ℕ) → t ≡ some s → s < 0x10000000000000000)
      → length (line f id instance_id severity msg) < 0x8000000000000000
      → (wrote_to_log f buffer t id instance_id severity msg
          ≡ shortened (stamp_text f t ++ line f id instance_id severity msg))
        × (length (wrote_to_log f buffer t id instance_id severity msg) < max_message_size)
  wrote_to_log_lem buffer t id instance_id severity msg word short_line =
      let e = wrote_to_log-shortened buffer t id instance_id severity msg word short_line in
      (e, rw (e) (shortened-length (stamp_text f t ++ line f id instance_id severity msg)))
