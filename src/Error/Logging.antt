-- ===== src/Error/Logging.antt =====
-- How errors are logged in the two builds.
pub mod Kept
use nodecpp_foundation.Base.{ℕ, List, [], ◌∷◌, ◌++◌, Option, none, some}
use nodecpp_foundation.Base.{Bool, true, false, ◌==◌, if◌then◌else◌}
use nodecpp_foundation.Base.Lists.{put}
use nodecpp_foundation.Base.Outcome.{Outcome, ok, ◌>>=◌}
use nodecpp_foundation.Log.Format.{Formatter, ThreadData}
use nodecpp_foundation.Log.Front.{Log, default_log, log}
use nodecpp_foundation.Stack.Resolve.{System, StackFrameInfo}
use nodecpp_foundation.Stack.Cache.{StackPointerInfoCache}
use nodecpp_foundation.Stack.Info.{StackInfo, is_data_stack_info, log_to, log_by_default}
use nodecpp_foundation.Error.Messages.{Errno, error_text, happened_text, happened_at_text}
use nodecpp_foundation.Error.Class.{
  Domain, plain_domain, std_domain, memory_domain, Error, with_domain,
}
use nodecpp_foundation.Error.Codes
use nodecpp_foundation.Error.Traced
use nodecpp_foundation.Error.Traced.{World, ErrorValue, read_value}

-- Where a line goes: the log that is given, or the default one of the thread if it has one
pub data Target : Type 0 where
  given : Log → Target
  default : Target

-- What is sent to the transports of a log
abbrev pub Sent : Type 0
Sent = List (ℕ × List ℕ)

-- The buffer of the call, what the clock reads in each call of `log` for each transport, the default log of the
-- thread, and the level
pub record Call : Type 0 where
  pub buffer : ℕ → ℕ
  pub clock : ℕ → ℕ → ℕ
  pub current : Option Log
  pub level : ℕ

module _ (f : Formatter) (call : Call) where
  -- `targetLog.log( l, text )` and `default_log::log( l, text )`, the call number `i`
  abbrev pub send : Target → ℕ → ThreadData → List ℕ → ThreadData × Sent
  send (given g) i th text = log f call.buffer (call.clock i) th g none call.level text
  send default i th text =
      default_log f call.buffer (call.clock i) th call.current none call.level text

  -- `log` of the domains where the value is the code
  unfoldable pub log_code : Errno → Target → ThreadData → Domain → ℕ → ThreadData × Sent
  log_code e t th plain_domain v = send t 0 th error_text
  log_code e t th std_domain v = send t 0 th (Codes.value_to_message e std_domain v)
  log_code e t th memory_domain v = send t 0 th (Codes.value_to_message e memory_domain v)

  -- `error::log` there
  unfoldable pub log_coded : Errno → Target → ThreadData → Error → Outcome (ThreadData × Sent)
  log_coded e t th a = with_domain a (λ d. ok (log_code e t th d a.value))

  module _ (sys : System) (to_info : ℕ → StackFrameInfo → Outcome (StackFrameInfo × Bool)) where
    -- `value->stackInfo.log`
    unfoldable pub log_info :
        Target
        → World
        → StackPointerInfoCache
        → StackInfo
        → Outcome (StackPointerInfoCache × StackInfo × ThreadData × Sent)
    log_info (given g) w c info =
        log_to sys to_info f call.buffer (call.clock 1) w.thread g call.level w.heap c info
    log_info default w c info =
        log_by_default sys to_info f call.buffer (call.clock 1) w.thread call.current call.level
          w.heap c info

    -- The value at `p` with the text of its stack
    abbrev pub keep_info :
        World
        → ℕ
        → ErrorValue
        → StackPointerInfoCache × StackInfo × ThreadData × Sent
        → World × StackPointerInfoCache × Sent
    keep_info w p v r = (
      record w { value_at = put w.value_at p (record v { stack_info = r.1 }); thread = r.2 },
      r.0,
      r.3,
    )

    -- `value->stackInfo.log`, which may write the text of the stack of the value at `p`
    unfoldable pub log_stack :
        Target → World → StackPointerInfoCache → ℕ → Outcome (World × StackPointerInfoCache × Sent)
    log_stack t w c p =
        read_value w p >>= λ v. log_info t w c v.stack_info >>= λ r. ok (keep_info w p v r)

    -- A line, and the stack after it
    unfoldable pub log_with_stack :
        Target
        → World
        → StackPointerInfoCache
        → ℕ
        → List ℕ
        → Outcome (World × StackPointerInfoCache × Sent)
    log_with_stack t w c p text =
        let line = send t 0 w.thread text in
        log_stack t (record w { thread = line.0 }) c p >>= λ r. ok (r.0, r.1, line.1 ++ r.2)

    -- A line alone
    unfoldable pub log_line :
        Target → World → StackPointerInfoCache → List ℕ → World × StackPointerInfoCache × Sent
    log_line t w c text =
        let line = send t 0 w.thread text in (record w { thread = line.0 }, c, line.1)

    -- `log` of the domains where the value has a stack; `error_domain::log( value, targetLog, l )` gives a line
    -- without a stack to the default log.
    unfoldable pub log_value :
        Errno
        → Target
        → World
        → StackPointerInfoCache
        → Domain
        → ℕ
        → Outcome (World × StackPointerInfoCache × Sent)
    log_value e t w c plain_domain p = read_value w p >>= λ v.
        if is_data_stack_info v.stack_info
        then log_with_stack t w c p happened_text
        else ok (log_line default w c error_text)
    log_value e t w c d p = read_value w p >>= λ v. Traced.value_to_message e w d p >>= λ text.
        if is_data_stack_info v.stack_info
        then log_with_stack t w c p (text ++ happened_at_text)
        else ok (log_line t w c text)

    -- `error::log` there
    unfoldable pub log_traced :
        Errno
        → Target
        → World
        → StackPointerInfoCache
        → Error
        → Outcome (World × StackPointerInfoCache × Sent)
    log_traced e t w c a = with_domain a (λ d. log_value e t w c d a.value)
