-- ===== src/Tests.antt =====
-- Concrete data, and the theorems on rules and configurations applied to it: a rule whose price has
-- doubled since its baseline was taken.
pub mod Sending
pub mod Stored
pub mod Custody
pub mod Consistent
pub mod Serving
pub mod Progress
pub mod Settling
pub mod Bootstrapped
pub mod Started
use xian_dex_automation.Base.{
  ℕ, String, Bool, true, false, ◌≡◌, refl, Option, none, some, List, [], ◌∷◌, ◌<◌, ◌≤◌, ◌⊎◌, inl,
  ◌↔◌, arith, str_eq, if◌then◌else◌,
}
use xian_dex_automation.Base.Int.{pos, ◌-ℤ◌}
use xian_dex_automation.Outcome.{ok}
use xian_dex_automation.Decimal.{Decimal}
use xian_dex_automation.Decimal.Fixed.{fixed, fixed-IsSound}
use xian_dex_automation.Config.{
  AutomationConfig, StrategyVaultConfig, RuleConfig, auto, strategy_vault, direct_wallet, up,
  either, down,
}
use xian_dex_automation.Config.Validation.{validate_strategy_rules}
use xian_dex_automation.Config.Validation.Scope.{RespectsVault, validate_strategy_rules_iff}
use xian_dex_automation.Report.{price_move_threshold_reached, threshold_not_reached, pending}
use xian_dex_automation.Time.{add_seconds}
use xian_dex_automation.Planning.{xian_deadline}
use xian_dex_automation.Planning.Deadline.{xian_deadline-bounds}
use xian_dex_automation.Dex.{PairSnapshot, price}
use xian_dex_automation.Rules.{
  RuleRuntimeState, RuleDecision, evaluate_price_move, decide_baseline, decide_move, cooling_down,
  threshold_reached, change_in_bps,
}
use xian_dex_automation.Rules.Trigger.{CanExecute, evaluate_price_move_iff}
use xian_dex_automation.Rules.Price.{Moved, executed-Moved, evaluate_at_baseline, either_iff}

abbrev pub rule : RuleConfig
rule = record {
  id = "buy-dip";
  enabled = true;
  trigger = record { pair_id = 1; direction = up; threshold_bps = 500; cooldown_seconds = 300 };
  action = record {
    src = "currency";
    amount_in = pos 10000;
    max_slippage_bps = 100;
    deadline_seconds = 60;
    recipient = none;
  };
}

abbrev vault : StrategyVaultConfig
vault = record {
  contract = "con_vault";
  keeper_address = "keeper";
  pair_id = 1;
  src = "currency";
  token_out = "con_token";
  max_trade_size = pos 20000;
  total_spend_cap = pos 90000;
  max_slippage_bps = 100;
  cooldown_seconds = 300;
  max_deadline_seconds = 300;
}

abbrev pub config : Bool → AutomationConfig
config execute = record {
  network = record {
    rpc_url = "http://127.0.0.1:26657";
    chain_id = some "xian-1";
    watcher_mode = auto;
    poll_interval = 1000000;
  };
  dex = record { router_contract = "con_dex"; pairs_contract = "con_pairs" };
  wallet = record {
    private_key_env = "KEY";
    private_key_file = none;
    private_key_file_env = "KEY_FILE";
    execute = execute;
    recipient = none;
  };
  custody = record { mode = strategy_vault; vault = some vault };
  database_path = "dex.sqlite3";
  rules = rule ∷ [];
}

abbrev snapshot : PairSnapshot
snapshot = record {
  pair_id = 1;
  token0 = "currency";
  token1 = "con_token";
  reserve0 = pos 100000;
  reserve1 = pos 200000;
}

-- The price was 1 when the baseline was taken, and is 2 now.
abbrev state : RuleRuntimeState
state = record { baseline_price = some (pos 1000); last_action_at = some 0 }

abbrev later : ℕ
later = 300000000

abbrev doubled : RuleDecision
doubled = record {
  rule_id = "buy-dip";
  should_execute = true;
  reason = price_move_threshold_reached;
  current_price = some (pos 2000);
  change_bps = some (pos 10000000);
  next_baseline_price = some (pos 2000);
}

evaluate_doubled : evaluate_price_move fixed rule snapshot state later ≡ ok doubled
unfolding evaluate_price_move decide_baseline decide_move cooling_down threshold_reached
    change_in_bps price add_seconds ◌-ℤ◌
evaluate_doubled = refl

evaluate_price_move_iff_example :
    ((d : RuleDecision) × (evaluate_price_move fixed rule snapshot state later ≡ ok d)
      × (d.should_execute ≡ true))
    ↔ ((current : Decimal) × (baseline : Decimal) × CanExecute fixed rule snapshot state later
          current baseline)
evaluate_price_move_iff_example = evaluate_price_move_iff fixed rule snapshot state later

executed-Moved_example :
    (current baseline : Decimal) × (price fixed snapshot ≡ some current)
    × (state.baseline_price ≡ some baseline)
    × Moved fixed fixed-IsSound up current baseline
    × (doubled.next_baseline_price ≡ some current)
executed-Moved_example =
    executed-Moved fixed fixed-IsSound rule snapshot state later (omega arith) doubled
      evaluate_doubled refl

validate_strategy_rules_iff_example :
    (validate_strategy_rules (config true) ≡ ok tt)
    ↔ RespectsVault strategy_vault (some vault) (config true)
validate_strategy_rules_iff_example = validate_strategy_rules_iff (config true)

-- A state whose baseline is the price itself.
abbrev settled : RuleRuntimeState
settled = record { baseline_price = some (pos 2000); last_action_at = some 0 }

abbrev unmoved : RuleDecision
unmoved = record {
  rule_id = "buy-dip";
  should_execute = false;
  reason = threshold_not_reached;
  current_price = some (pos 2000);
  change_bps = some (pos 0);
  next_baseline_price = none;
}

evaluate_unmoved : evaluate_price_move fixed rule snapshot settled later ≡ ok unmoved
unfolding evaluate_price_move decide_baseline decide_move cooling_down threshold_reached
    change_in_bps price add_seconds ◌-ℤ◌
evaluate_unmoved = refl

at_baseline : settled.baseline_price ≡ price fixed snapshot
unfolding price
at_baseline = refl

xian_deadline-minute : xian_deadline 60 0 ≡ ok 55000000
unfolding xian_deadline add_seconds
xian_deadline-minute = refl

xian_deadline-bounds_example : (0 < 55000000) × (55000000 ≤ 60000000) × (60000000 ≤ 60000000)
xian_deadline-bounds_example = xian_deadline-bounds 60 0 55000000 xian_deadline-minute
