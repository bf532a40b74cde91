-- ===== src/Log/Counters.antt =====
-- `LogLevel` and `SkippedMsgCounters` of include/log.h, with `toStr` of src/log.cpp.
pub mod Report
use nodecpp_foundation.Base.{ℕ, zero, suc, ◌+◌, ◌-◌, ◌%◌, List, [], ◌∷◌, ◌++◌}
use nodecpp_foundation.Base.{Bool, true, false, not, ◌&&◌, ltb, leb, ◌==◌, if◌then◌else◌}
use nodecpp_foundation.Base.Lists.{length, take, put}
use nodecpp_foundation.Base.Outcome.{Outcome, ok, throws, asserting, buffer_overflow}

-- `LogLevel` by its number, as `setGuaranteedLevel` computes with it.
abbrev pub fatal : ℕ
fatal = 0

abbrev pub err : ℕ
err = 1

abbrev pub warning : ℕ
warning = 2

abbrev pub info : ℕ
info = 3

abbrev pub debug : ℕ
debug = 4

-- `log_level_count`
abbrev pub log_level_count : ℕ
log_level_count = 5

-- `LogLevelNames`
abbrev pub log_level_name : ℕ → List ℕ
log_level_name zero = b'f' ∷ b'a' ∷ b't' ∷ b'a' ∷ b'l' ∷ []
log_level_name (suc zero) = b'e' ∷ b'r' ∷ b'r' ∷ []
log_level_name (suc (suc zero)) = b'w' ∷ b'a' ∷ b'r' ∷ b'n' ∷ b'i' ∷ b'n' ∷ b'g' ∷ []
log_level_name (suc (suc (suc zero))) = b'i' ∷ b'n' ∷ b'f' ∷ b'o' ∷ []
log_level_name (suc (suc (suc (suc zero)))) = b'd' ∷ b'e' ∷ b'b' ∷ b'u' ∷ b'g' ∷ []
log_level_name (suc (suc (suc (suc (suc l))))) = []

pub record SkippedMsgCounters : Type 0 where
  pub skipped_ctrs : ℕ → ℕ
  pub full_cnt : ℕ

-- `reportMaxSize`
abbrev pub report_max_size : ℕ
report_max_size = 128

-- `clear`
abbrev pub cleared : SkippedMsgCounters
cleared = record { skipped_ctrs = λ l. 0; full_cnt = 0 }

-- `++` of a `uint32_t`
abbrev pub next_count : ℕ → ℕ
next_count n = (n + 1) % 0x100000000

unfoldable pub increment : SkippedMsgCounters → ℕ → SkippedMsgCounters
increment c l = record {
  skipped_ctrs = put c.skipped_ctrs l (next_count (c.skipped_ctrs l));
  full_cnt = next_count c.full_cnt;
}

-- `fullCount`
abbrev pub full_count : SkippedMsgCounters → ℕ
full_count c = c.full_cnt

-- "<skipped:", the nine bytes that `toStr` copies
abbrev pub report_start : List ℕ
report_start = b'<' ∷ b's' ∷ b'k' ∷ b'i' ∷ b'p' ∷ b'p' ∷ b'e' ∷ b'd' ∷ b':' ∷ []

module _ (fmt_decimal : ℕ → List ℕ) where
  -- What `format_to_n` makes of "{}:{}, "
  abbrev pub report_part : SkippedMsgCounters → ℕ → List ℕ
  report_part c i =
      log_level_name i ++ (b':' ∷ (fmt_decimal (c.skipped_ctrs i) ++ (b',' ∷ b' ' ∷ [])))

  -- One round of the loop of `toStr` on the text so far, whose length is `pos`
  unfoldable pub add_part : SkippedMsgCounters → ℕ → ℕ → List ℕ → List ℕ
  add_part c sz i text =
      if not (c.skipped_ctrs i == 0) && ltb (length text) sz then text ++ report_part c i else text

  -- The loop of `toStr` with `todo` levels to go.
  unfoldable pub to_str_loop : SkippedMsgCounters → ℕ → ℕ → ℕ → List ℕ → List ℕ
  to_str_loop c sz zero i text = text
  to_str_loop c sz (suc todo) i text = to_str_loop c sz todo (suc i) (add_part c sz i text)

  -- `toStr`: the last two bytes of the text are replaced.
  unfoldable pub to_str : SkippedMsgCounters → ℕ → Outcome (List ℕ)
  to_str c sz = asserting (leb report_max_size sz) (
      let text = to_str_loop c sz log_level_count 0 report_start in
      if ltb (length report_start) (length text)
      then (if leb (length text) sz
          then ok (take (length text - 2) text ++ (b'>' ∷ b'\n' ∷ []))
          else throws buffer_overflow)
      else asserting (full_count c == 0) (ok []))
