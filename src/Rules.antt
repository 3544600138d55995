-- ===== src/Rules.antt =====
-- The price-move rule (src/xian_dex_automation/rules.py).
pub mod Trigger
pub mod Price
use xian_dex_automation.Base.{
  ℕ, ◌<◌, zero, suc, String, Bool, true, false, not, Option, none, some, ltb, if◌then◌else◌,
}
use xian_dex_automation.Base.Int.{pos, negate, abs, leb_ℤ}
use xian_dex_automation.Decimal.{Decimal, Context, of_int}
use xian_dex_automation.Outcome.{Outcome, ok, raised, ◌>>=◌}
use xian_dex_automation.Report.{
  Reason, invalid_reserves, baseline_initialized, invalid_baseline, threshold_not_reached,
  cooldown_active, price_move_threshold_reached,
}
use xian_dex_automation.Time.{Instant, add_seconds}
use xian_dex_automation.Config.{RuleConfig, Direction, up, down, either}
use xian_dex_automation.Dex.{PairSnapshot, price}

pub record RuleRuntimeState : Type 0 where
  pub baseline_price : Option Decimal
  pub last_action_at : Option Instant

-- `RuleRuntimeState()`.
abbrev pub no_state : RuleRuntimeState
no_state = record { baseline_price = none; last_action_at = none }

pub record RuleDecision : Type 0 where
  pub rule_id : String
  pub should_execute : Bool
  pub reason : Reason
  pub current_price : Option Decimal
  pub change_bps : Option Decimal
  pub next_baseline_price : Option Decimal

-- The test of the cooldown: whether `now` comes before its end.
unfoldable pub cooling_down : ℕ → Option Instant → Instant → Outcome Bool
cooling_down cooldown none now = ok false
cooling_down zero (some last) now = ok false
cooling_down (suc s) (some last) now = do
  cooldown_until ← add_seconds last (suc s)
  ok (ltb now cooldown_until)

module _ (c : Context) where
  unfoldable pub threshold_reached : Direction → Decimal → ℕ → Bool
  threshold_reached up change_bps threshold_bps = leb_ℤ (of_int c threshold_bps) change_bps
  threshold_reached down change_bps threshold_bps =
      leb_ℤ change_bps (negate (of_int c threshold_bps))
  threshold_reached either change_bps threshold_bps =
      leb_ℤ (of_int c threshold_bps) (abs change_bps)

  -- `((current_price - baseline) / baseline) * BPS`
  unfoldable pub change_in_bps : Decimal → Decimal → Decimal
  change_in_bps current baseline = c.mul (c.div (c.sub current baseline) baseline) (of_int c 10000)

  -- `evaluate_price_move` behind the tests of the price and the baseline.
  unfoldable pub decide_move :
      RuleConfig → Decimal → Decimal → Option Instant → Instant → Outcome RuleDecision
  decide_move rule current baseline last now =
      let change = change_in_bps current baseline in
      let waits = cooling_down rule.trigger.cooldown_seconds last now in
      if threshold_reached rule.trigger.direction change rule.trigger.threshold_bps
      then (waits >>= λ cooling. ok (
          if cooling
          then record {
            rule_id = rule.id;
            should_execute = false;
            reason = cooldown_active;
            current_price = some current;
            change_bps = some change;
            next_baseline_price = none;
          }
          else record {
            rule_id = rule.id;
            should_execute = true;
            reason = price_move_threshold_reached;
            current_price = some current;
            change_bps = some change;
            next_baseline_price = some current;
          }))
      else ok (record {
        rule_id = rule.id;
        should_execute = false;
        reason = threshold_not_reached;
        current_price = some current;
        change_bps = some change;
        next_baseline_price = none;
      })

  -- A decision without a change: the price is missing, or the baseline is.
  abbrev pub undecided : RuleConfig → Reason → Option Decimal → RuleDecision
  undecided rule reason current = record {
    rule_id = rule.id;
    should_execute = false;
    reason = reason;
    current_price = current;
    change_bps = none;
    next_baseline_price = current;
  }

  unfoldable pub decide_baseline :
      RuleConfig → Option Decimal → Option Decimal → Option Instant → Instant → Outcome RuleDecision
  decide_baseline rule none baseline last now = ok (undecided rule invalid_reserves none)
  decide_baseline rule (some current) none last now =
      ok (undecided rule baseline_initialized (some current))
  decide_baseline rule (some current) (some baseline) last now =
      if leb_ℤ baseline (pos 0)
      then ok (undecided rule invalid_baseline (some current))
      else decide_move rule current baseline last now

  unfoldable pub evaluate_price_move :
      RuleConfig → PairSnapshot → RuleRuntimeState → Instant → Outcome RuleDecision
  evaluate_price_move rule snapshot state now =
      decide_baseline rule (price c snapshot) state.baseline_price state.last_action_at now
