-- ===== src/Logging.antt =====
-- The reporting of repeated failures (src/xian_dex_automation/logging_setup.py, `RetryReporter`).
-- The clock counts microseconds.
pub mod Accounts
pub mod Line
pub mod Format
use xian_dex_automation.Base.{
  ℕ, zero, suc, ◌+◌, Bool, true, false, Option, none, some, List, [], ◌∷◌, ltb, ◌==◌, if◌then◌else◌,
}

-- A reporter; a `last_report` of minus infinity is `none`.
pub record RetryReporter : Type 0 where
  pub attempts : ℕ
  pub suppressed : ℕ
  pub last_report : Option ℕ

-- A record of the log: the time, for a failure, and the fields `attempts` and `suppressed`.
pub data LogRecord : Type 0 where
  failure : ℕ → ℕ → ℕ → LogRecord
  recovery : ℕ → ℕ → LogRecord

-- `__init__`.
abbrev pub new_reporter : RetryReporter
new_reporter = record { attempts = 0; suppressed = 0; last_report = none }

-- `now - self.last_report < 60`.
unfoldable pub too_soon : ℕ → Option ℕ → Bool
too_soon now none = false
too_soon now (some last) = ltb now (last + 60000000)

-- `failed`, at this time.
unfoldable pub failed : ℕ → RetryReporter → RetryReporter × Option LogRecord
unfolding too_soon
failed now r =
    if too_soon now r.last_report
    then (record r { attempts = suc r.attempts; suppressed = suc r.suppressed }, none)
    else (
      record { attempts = suc r.attempts; suppressed = 0; last_report = some now },
      some (failure now (suc r.attempts) r.suppressed),
    )

-- `recovered`.
unfoldable pub recovered : RetryReporter → RetryReporter × Option LogRecord
recovered r =
    if r.attempts == 0 then (r, none) else (new_reporter, some (recovery r.attempts r.suppressed))

-- What the worker tells the reporter.
pub data Incident : Type 0 where
  fails : ℕ → Incident
  recovers : Incident

unfoldable pub hear : Incident → RetryReporter → RetryReporter × Option LogRecord
unfolding failed recovered
hear (fails now) r = failed now r
hear recovers r = recovered r

abbrev pub logged : Option LogRecord → List LogRecord → List LogRecord
logged none log = log
logged (some x) log = x ∷ log

-- A reporter and its log, newest first, after these incidents, oldest first.
unfoldable pub hear_all :
    List Incident → RetryReporter → List LogRecord → RetryReporter × List LogRecord
hear_all [] r log = (r, log)
hear_all (i ∷ is) r log = let (r', x) = hear i r in hear_all is r' (logged x log)
