-- ===== src/Logging/Accounts.antt =====
-- What the log says of the failures (logging_setup.py).
use xian_dex_automation.Base.{
  ℕ, suc, ◌+◌, ◌≤◌, false, ◌≡◌, refl, ◌∙◌, ap, some, List, [], ◌∷◌, arith, ◌==◌, Bool-cases, inl,
  inr,
}
use xian_dex_automation.Logging.{
  RetryReporter, LogRecord, failure, recovery, new_reporter, too_soon, failed, recovered, Incident,
  fails, recovers, hear, logged, hear_all,
}

-- The failures that a log accounts for: each failure it shows, and those it says were suppressed.
abbrev pub counted : LogRecord → ℕ
counted (failure now attempts suppressed) = suc suppressed
counted (recovery attempts suppressed) = suppressed

pub accounted : List LogRecord → ℕ
accounted [] = 0
accounted (x ∷ log) = counted x + accounted log

abbrev pub failures : List Incident → ℕ
failures [] = 0
failures (fails now ∷ is) = suc (failures is)
failures (recovers ∷ is) = failures is

-- Two failures shown one after the other are a minute apart.
abbrev pub Apart : ℕ → List LogRecord → Type 0
Apart now (failure last a s ∷ log) = last + 60000000 ≤ now
Apart now _ = Unit

pub IsSpaced : List LogRecord → Type 0
IsSpaced [] = Unit
IsSpaced (failure now a s ∷ log) = Apart now log × IsSpaced log
IsSpaced (recovery a s ∷ log) = IsSpaced log

-- The time of the newest record, if it shows a failure, is the reporter's.
abbrev IsLast : RetryReporter → List LogRecord → Type 0
IsLast r (failure last a s ∷ log) = r.last_report ≡ some last
IsLast r _ = Unit

-- One incident: what the log and the reporter account for grows by the failure.
hear-accounted :
    (i : Incident) (r : RetryReporter) (log : List LogRecord)
    → accounted (logged (hear i r).1 log) + (hear i r).0.suppressed
      ≡ failures (i ∷ []) + (accounted log + r.suppressed)
unfolding hear failed recovered accounted
hear-accounted (fails now) r log = elim (Bool-cases (too_soon now r.last_report)) [
  | inl e ↦ rw e (omega arith)
  | inr e ↦ rw e (omega arith)
]
hear-accounted recovers r log = elim (Bool-cases (r.attempts == 0)) [
  | inl e ↦ rw e (omega arith)
  | inr e ↦ rw e (omega arith)
]

Apart-too_soon :
    (now : ℕ) (r : RetryReporter) (log : List LogRecord)
    → IsLast r log
    → too_soon now r.last_report ≡ false
    → Apart now log
unfolding too_soon
Apart-too_soon now r [] h e = tt
Apart-too_soon now r (failure last a s ∷ log) h e = ground (arith, h, e)
Apart-too_soon now r (recovery a s ∷ log) h e = tt

-- A reporter with the same time.
IsLast-same :
    (r : RetryReporter) (log : List LogRecord) (r' : RetryReporter)
    → r'.last_report ≡ r.last_report
    → IsLast r log
    → IsLast r' log
IsLast-same r [] r' e h = tt
IsLast-same r (failure last a s ∷ log) r' e h = e ∙ h
IsLast-same r (recovery a s ∷ log) r' e h = tt

hear-IsSpaced :
    (i : Incident) (r : RetryReporter) (log : List LogRecord)
    → IsSpaced log × IsLast r log
    → IsSpaced (logged (hear i r).1 log) × IsLast (hear i r).0 (logged (hear i r).1 log)
unfolding hear failed recovered IsSpaced
hear-IsSpaced (fails now) r log (spaced, last) = elim (Bool-cases (too_soon now r.last_report)) [
  | inl e ↦ rw e (
    spaced,
    IsLast-same r log (record r { attempts = suc r.attempts; suppressed = suc r.suppressed }) refl
        last,
  )
  | inr e ↦ rw e ((Apart-too_soon now r log last e, spaced), refl)
]
hear-IsSpaced recovers r log (spaced, last) = elim (Bool-cases (r.attempts == 0)) [
  | inl e ↦ rw e (spaced, last)
  | inr e ↦ rw e (spaced, tt)
]

failures-cons :
    (i : Incident) (is : List Incident) (n : ℕ)
    → failures is + (failures (i ∷ []) + n) ≡ failures (i ∷ is) + n
failures-cons (fails now) is n = omega arith
failures-cons recovers is n = omega arith

hear_all-accounted :
    (is : List Incident) (r : RetryReporter) (log : List LogRecord)
    → accounted (hear_all is r log).1 + (hear_all is r log).0.suppressed
      ≡ failures is + (accounted log + r.suppressed)
unfolding hear_all
hear_all-accounted [] r log = omega arith
hear_all-accounted (i ∷ is) r log =
    hear_all-accounted is (hear i r).0 (logged (hear i r).1 log)
    ∙ ap (λ n. failures is + n) (hear-accounted i r log)
    ∙ failures-cons i is (accounted log + r.suppressed)

hear_all-IsSpaced :
    (is : List Incident) (r : RetryReporter) (log : List LogRecord)
    → IsSpaced log × IsLast r log
    → IsSpaced (hear_all is r log).1
unfolding hear_all
hear_all-IsSpaced [] r log h = h.0
hear_all-IsSpaced (i ∷ is) r log h =
    hear_all-IsSpaced is (hear i r).0 (logged (hear i r).1 log) (hear-IsSpaced i r log h)

-- After any incidents, from a new reporter on, each failure is shown in the log, is among those
-- that a record of the log says were suppressed, or is among those still to be reported; and two
-- failures that the log shows one after the other are at least a minute apart, by the clock's times.
pub hear_all-report :
    (is : List Incident)
    → (accounted (hear_all is new_reporter []).1 + (hear_all is new_reporter []).0.suppressed
        ≡ failures is)
      × IsSpaced (hear_all is new_reporter []).1
unfolding accounted IsSpaced
hear_all-report is = (
  hear_all-accounted is new_reporter [] ∙ omega arith,
  hear_all-IsSpaced is new_reporter [] (tt, tt),
)
