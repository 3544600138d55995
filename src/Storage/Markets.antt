-- ===== src/Storage/Markets.antt =====
-- Runs, rule states, cursors and the active configuration (src/xian_dex_automation/storage.py).
pub mod Cursors
pub mod Resets
use xian_dex_automation.Base.{
  ℕ, suc, String, Bool, true, false, not, ◌||◌, Option, none, some, List, [], ◌∷◌, ◌++◌, Dict,
  lookup, insert, map_values, str_eq, opt_eq, ltb, ◌==◌, if◌then◌else◌, take,
}
use xian_dex_automation.Outcome.{ok}
use xian_dex_automation.Time.{Instant}
use xian_dex_automation.Report.{Details, Status, Reason}
use xian_dex_automation.Config.{AutomationConfig, RuleConfig}
use xian_dex_automation.Rules.{RuleRuntimeState, no_state}
use xian_dex_automation.Storage.Tables.{Run, RuntimeConfig, Database, Transaction, append_row}

unfoldable pub append_run :
    String → Status → Reason → Option String → Details → Instant → Transaction (Unit {0})
unfolding append_row
append_run rule_id status reason tx_hash details now db =
    let (_, db') = append_row rule_id status reason tx_hash details now db in ok (tt, db')

abbrev or_no_state : Option RuleRuntimeState → RuleRuntimeState
or_no_state none = no_state
or_no_state (some s) = s

pub get_rule_state : String → Database → RuleRuntimeState
get_rule_state rule_id db = or_no_state (lookup rule_id db.rule_state)

unfoldable pub save_rule_state : String → RuleRuntimeState → Transaction (Unit {0})
save_rule_state rule_id s db = ok (tt, record db { rule_state = insert rule_id s db.rule_state })

unfoldable pub list_runs : ℕ → Database → List Run
list_runs limit db = take limit db.runs

abbrev flat : Option (Option ℕ) → Option ℕ
flat none = none
flat (some c) = c

unfoldable pub get_cursor : String → Database → Option ℕ
get_cursor name db = flat (lookup name db.cursors)

-- The value after `on conflict ... where cursors.cursor is null or excluded.cursor > ...`
unfoldable pub advanced : Option ℕ → ℕ → Option ℕ
advanced none new = some new
advanced (some old) new = if ltb old new then some new else some old

unfoldable pub save_cursor : String → ℕ → Transaction (Unit {0})
unfolding advanced get_cursor
save_cursor name new db =
    ok (tt, record db { cursors = insert name (advanced (get_cursor name db) new) db.cursors })

abbrev config_or : Option RuntimeConfig → AutomationConfig → AutomationConfig
config_or none default = default
config_or (some rc) default = rc.config

unfoldable pub active_config : AutomationConfig → Database → AutomationConfig
active_config default db = config_or db.runtime_config default

abbrev generation_of : Option RuntimeConfig → ℕ
generation_of none = 0
generation_of (some rc) = rc.generation

unfoldable pub config_generation : Database → ℕ
config_generation db = generation_of db.runtime_config

-- `{rule.id: rule.trigger.pair_id for rule in rules}`, onto what is there.
pub pairs_onto : Dict ℕ → List RuleConfig → Dict ℕ
pairs_onto d [] = d
pairs_onto d (r ∷ rs) = pairs_onto (insert r.id r.trigger.pair_id d) rs

keys : Dict ℕ → List String
keys [] = []
keys ((k, _) ∷ d) = k ∷ keys d

abbrev pub same_pair : Option ℕ → Option ℕ → Bool
same_pair none none = true
same_pair (some a) (some b) = a == b
same_pair _ _ = false

abbrev forget_baseline : RuleRuntimeState → RuleRuntimeState
forget_baseline s = record s { baseline_price = none }

-- `update rule_state set baseline_price = null where rule_id = ?`
abbrev forget_rule : String → String → RuleRuntimeState → RuleRuntimeState
forget_rule k j s = if str_eq k j then forget_baseline s else s

-- The loop over the rules of either configuration.
reset_rules : Dict ℕ → Dict ℕ → List String → Dict RuleRuntimeState → Dict RuleRuntimeState
reset_rules old new [] states = states
reset_rules old new (k ∷ ks) states =
    reset_rules old new ks (
      if same_pair (lookup k old) (lookup k new) then states else map_values (forget_rule k) states)

-- The test `market_changed`.
unfoldable pub market_changed : AutomationConfig → AutomationConfig → Bool
market_changed previous target =
    not (str_eq previous.network.rpc_url target.network.rpc_url)
    || (not (opt_eq previous.network.chain_id target.network.chain_id)
        || (not (str_eq previous.dex.router_contract target.dex.router_contract)
            || not (str_eq previous.dex.pairs_contract target.dex.pairs_contract)))

unfoldable pub reset_changed_markets : AutomationConfig → AutomationConfig → Database → Database
unfolding market_changed reset_rules pairs_onto keys
reset_changed_markets previous target db =
    let old = pairs_onto [] previous.rules in
    let new = pairs_onto [] target.rules in
    if market_changed previous target
    then record db { rule_state = map_values (λ _. forget_baseline) db.rule_state; cursors = [] }
    else record db { rule_state = reset_rules old new (keys old ++ keys new) db.rule_state }

unfoldable pub save_active_config : AutomationConfig → AutomationConfig → Transaction (Unit {0})
unfolding reset_changed_markets
save_active_config config previous db = ok (
  tt,
  reset_changed_markets previous config (record db {
    runtime_config =
        some (record { config = config; generation = suc (generation_of db.runtime_config) });
  }),
)
