-- ===== src/Planning/Deadline.antt =====
-- The deadline that a swap carries (dex.py, `xian_deadline`).
use xian_dex_automation.Base.{ℕ, zero, suc, ◌+◌, ◌*◌, ◌≤◌, ◌<◌, ◌≡◌, arith}
use xian_dex_automation.Outcome.{ok}
use xian_dex_automation.Time.{Instant, add_seconds}
use xian_dex_automation.Planning.{xian_deadline}

-- A deadline that `xian_deadline` returns for a number of seconds lies after its base time, at most
-- that number of seconds after it, and at most five seconds before that limit.
pub xian_deadline-bounds :
    (seconds : ℕ) (base t : Instant)
    → xian_deadline seconds base ≡ ok t
    → (base < t) × (t ≤ base + seconds * 1000000) × (base + seconds * 1000000 ≤ t + 5000000)
unfolding xian_deadline add_seconds
xian_deadline-bounds zero base t h = ground arith
xian_deadline-bounds (suc n) base t h = ground arith
