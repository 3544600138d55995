-- ===== src/Time.antt =====
-- `datetime` and `timedelta`: an instant is a count of microseconds from `datetime.min` in UTC.
use xian_dex_automation.Base.{ℕ, ◌+◌, ◌*◌, ltb, if◌then◌else◌}
use xian_dex_automation.Outcome.{Outcome, ok, raised, exn}

abbrev pub Instant : Type 0
Instant = ℕ

-- The first instant past `datetime.max`: 3652059 days of 86400 seconds.
abbrev pub end_of_time : Instant
end_of_time = 315537897600000000

-- `t + timedelta(seconds=n)`.
unfoldable pub add_seconds : Instant → ℕ → Outcome Instant
add_seconds t n =
    if ltb (t + n * 1000000) end_of_time
    then ok (t + n * 1000000)
    else raised (exn "OverflowError" "date value out of range")
