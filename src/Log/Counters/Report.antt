-- ===== src/Log/Counters/Report.antt =====
-- How long the report on skipped messages gets, and that it is made when a message was skipped.
use nodecpp_foundation.Base.{
  ℕ, zero, suc, ◌+◌, ◌-◌, ◌*◌, ◌%◌, ◌≤◌, ◌<◌, ◌≡◌, ◌≢◌, inl, inr, refl, arith,
}
use nodecpp_foundation.Base.{List, [], ◌∷◌, ◌++◌, lt_or_ge}
use nodecpp_foundation.Base.Lists.{length, take, length-append, length-take}
use nodecpp_foundation.Base.Outcome.{ok}
use nodecpp_foundation.Log.Counters.{
  SkippedMsgCounters, log_level_count, log_level_name, report_part, report_max_size, to_str,
  to_str_loop, add_part, increment, cleared, full_count, report_start,
}

-- What the code relies on: `format_to_n` writes a `uint32_t` with at most ten digits.
pub record IsDecimal (fmt_decimal : ℕ → List ℕ) : Type 0 where
  pub few_digits : (n : ℕ) → n < 0x100000000 → length (fmt_decimal n) ≤ 10

abbrev pub sum_of_counters : SkippedMsgCounters → ℕ
sum_of_counters c =
    c.skipped_ctrs 0 + c.skipped_ctrs 1 + c.skipped_ctrs 2 + c.skipped_ctrs 3 + c.skipped_ctrs 4

-- The counters are `uint32_t`, and the full count is their sum as far as it fits.
pub record AreCounters (c : SkippedMsgCounters) : Type 0 where
  pub in_word : (l : ℕ) → c.skipped_ctrs l < 0x100000000
  pub full : full_count c ≡ sum_of_counters c % 0x100000000

pub cleared-AreCounters : AreCounters cleared
cleared-AreCounters = record { in_word = λ l. omega arith; full = refl }

pub increment-AreCounters :
    (c : SkippedMsgCounters) (l : ℕ)
    → AreCounters c
    → l < log_level_count
    → AreCounters (increment c l)
unfolding increment
increment-AreCounters c l w lt = record {
  in_word = λ q. ground (arith, w.in_word q);
  full = ground (arith, w.full, w.in_word 0, w.in_word 1, w.in_word 2, w.in_word 3, w.in_word 4);
}

name-le : (i : ℕ) → length (log_level_name i) ≤ 7
name-le zero = omega arith
name-le (suc zero) = omega arith
name-le (suc (suc zero)) = omega arith
name-le (suc (suc (suc zero))) = omega arith
name-le (suc (suc (suc (suc zero)))) = omega arith
name-le (suc (suc (suc (suc (suc l))))) = omega arith

module _ (fmt_decimal : ℕ → List ℕ) (fmt : IsDecimal fmt_decimal) (c : SkippedMsgCounters)
    (w : AreCounters c) where
  part-le : (i : ℕ) → length (report_part fmt_decimal c i) ≤ 20
  part-le i = omega (
    arith,
    length-append (log_level_name i)
        (b':' ∷ (fmt_decimal (c.skipped_ctrs i) ++ (b',' ∷ b' ' ∷ []))),
    length-append (fmt_decimal (c.skipped_ctrs i)) (b',' ∷ b' ' ∷ []),
    name-le i,
    fmt.few_digits (c.skipped_ctrs i) (w.in_word i),
  )

  part-ge : (i : ℕ) → 3 ≤ length (report_part fmt_decimal c i)
  part-ge i = omega (
    arith,
    length-append (log_level_name i)
        (b':' ∷ (fmt_decimal (c.skipped_ctrs i) ++ (b',' ∷ b' ' ∷ []))),
    length-append (fmt_decimal (c.skipped_ctrs i)) (b',' ∷ b' ' ∷ []),
  )

  -- A round adds at most 20 bytes, and at least 3 if messages of the level have been skipped.
  add_part_lem :
      (sz i : ℕ) (text : List ℕ)
      → length text < sz
      → (length (add_part fmt_decimal c sz i text) ≤ length text + 20)
        × (length text ≤ length (add_part fmt_decimal c sz i text))
        × (c.skipped_ctrs i ≢ 0 → length text + 3 ≤ length (add_part fmt_decimal c sz i text))
  unfolding add_part
  add_part_lem sz i text room = (
    ground (arith, grown, part-le i),
    ground (arith, grown),
    λ n. ground (arith, grown, part-ge i),
  )
    where
      grown :
          length (text ++ report_part fmt_decimal c i)
          ≡ length text + length (report_part fmt_decimal c i)
      grown = length-append text (report_part fmt_decimal c i)

  to_str_loop_lem :
      (sz todo i : ℕ) (text : List ℕ)
      → length text + 20 * todo ≤ sz
      → (length (to_str_loop fmt_decimal c sz todo i text) ≤ length text + 20 * todo)
        × (length text ≤ length (to_str_loop fmt_decimal c sz todo i text))
        × ((j : ℕ)
            → i ≤ j
            → j < i + todo
            → c.skipped_ctrs j ≢ 0
            → length text + 3 ≤ length (to_str_loop fmt_decimal c sz todo i text))
  unfolding to_str_loop
  to_str_loop_lem sz zero i text room = (omega arith, omega arith, λ j a b n. absurd (omega arith))
  to_str_loop_lem sz (suc todo) i text room =
      let (up, down, some) = add_part_lem sz i text (omega arith) in
      let (up', down', some') =
        to_str_loop_lem sz todo (suc i) (add_part fmt_decimal c sz i text) (omega arith) in
      (
        omega arith,
        omega arith,
        λ j a b n. elim (lt_or_ge i j) [
          | inl later ↦ omega (arith, some' j (omega arith) (omega arith) n)
          | inr here ↦ let e : j ≡ i = omega arith in omega (arith, some (rw (← e) n))
        ],
      )

  some_skipped : full_count c ≢ 0 → (j : ℕ) × (j < log_level_count) × (c.skipped_ctrs j ≢ 0)
  some_skipped n = elim (lt_or_ge 0 (c.skipped_ctrs 0)) [
    | inl a ↦ (0, omega arith, ground arith)
    | inr a ↦ elim (lt_or_ge 0 (c.skipped_ctrs 1)) [
      | inl b ↦ (1, omega arith, ground arith)
      | inr b ↦ elim (lt_or_ge 0 (c.skipped_ctrs 2)) [
        | inl d ↦ (2, omega arith, ground arith)
        | inr d ↦ elim (lt_or_ge 0 (c.skipped_ctrs 3)) [
          | inl e ↦ (3, omega arith, ground arith)
          | inr e ↦ (4, omega arith, ground (arith, w.full))
        ]
      ]
    ]
  ]

  -- When a message has been skipped, `toStr` makes a report: no assertion fails, nothing is written
  -- past the buffer of 128 bytes, and the report has at most 109 bytes. This holds for counters
  -- whose sum is the full count, if a number is written with at most ten digits.
  pub to_str_lem :
      full_count c ≢ 0
      → (text : List ℕ) × (to_str fmt_decimal c report_max_size ≡ ok text)
        × (length text ≤ 109)
        × (0 < length text)
  unfolding to_str
  to_str_lem n =
      let (j, lt, nz) = some_skipped n in
      let (up, down, some) =
        to_str_loop_lem report_max_size log_level_count 0 report_start (omega arith) in
      let grown : 12
          ≤ length (to_str_loop fmt_decimal c report_max_size log_level_count 0 report_start) =
        some j (omega arith) (omega arith) nz in
      let text = to_str_loop fmt_decimal c report_max_size log_level_count 0 report_start in
      let l : length (take (length text - 2) text ++ (b'>' ∷ b'\n' ∷ [])) ≡ length text = omega (
        arith,
        length-append (take (length text - 2) text) (b'>' ∷ b'\n' ∷ []),
        length-take (length text - 2) text (omega arith),
      ) in
      (
        take (length text - 2) text ++ (b'>' ∷ b'\n' ∷ []),
        ground (arith, grown, up),
        omega (arith, l, up),
        omega (arith, l, grown),
      )
