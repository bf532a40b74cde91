-- ===== src/Log/Forwards.antt =====
-- The calls of include/log.h that give `log` a level: of `Log`, and of `default_log`. A module is given or is absent.
use nodecpp_foundation.Base.{ℕ, List, Option}
use nodecpp_foundation.Log.Counters
use nodecpp_foundation.Log.Format.{Formatter, ThreadData}
use nodecpp_foundation.Log.Front.{Log, log, default_log}

module _ (f : Formatter) (buffer clock : ℕ → ℕ) (th : ThreadData) where
  module _ (g : Log) (mid : Option (List ℕ)) (text : List ℕ) where
    -- `Log::fatal` and the others
    unfoldable pub fatal : ThreadData × List (ℕ × List ℕ)
    fatal = log f buffer clock th g mid Counters.fatal text

    unfoldable pub error : ThreadData × List (ℕ × List ℕ)
    error = log f buffer clock th g mid Counters.err text

    unfoldable pub warning : ThreadData × List (ℕ × List ℕ)
    warning = log f buffer clock th g mid Counters.warning text

    unfoldable pub info : ThreadData × List (ℕ × List ℕ)
    info = log f buffer clock th g mid Counters.info text

    unfoldable pub debug : ThreadData × List (ℕ × List ℕ)
    debug = log f buffer clock th g mid Counters.debug text

  module _ (current : Option Log) (mid : Option (List ℕ)) (text : List ℕ) where
    -- `default_log::fatal` and the others
    unfoldable pub default_fatal : ThreadData × List (ℕ × List ℕ)
    default_fatal = default_log f buffer clock th current mid Counters.fatal text

    unfoldable pub default_error : ThreadData × List (ℕ × List ℕ)
    default_error = default_log f buffer clock th current mid Counters.err text

    unfoldable pub default_warning : ThreadData × List (ℕ × List ℕ)
    default_warning = default_log f buffer clock th current mid Counters.warning text

    unfoldable pub default_info : ThreadData × List (ℕ × List ℕ)
    default_info = default_log f buffer clock th current mid Counters.info text

    unfoldable pub default_debug : ThreadData × List (ℕ × List ℕ)
    default_debug = default_log f buffer clock th current mid Counters.debug text
