-- ===== src/Config/Validation/Scope.antt =====
-- What the validators of config.py guarantee of an accepted configuration in vault mode.
use xian_dex_automation.Base.{
  ◌≤◌, ◌≡◌, refl, ◌↔◌, List, [], ◌∷◌, Option, none, some, arith, eq_iff, All,
}
use xian_dex_automation.Base.Int.{◌≤ℤ◌}
use xian_dex_automation.Outcome.{ok}
use xian_dex_automation.Config.{
  AutomationConfig, StrategyVaultConfig, RuleConfig, CustodyMode, direct_wallet, strategy_vault,
}
use xian_dex_automation.Config.Validation.{
  check_scope, check_scopes, validate_strategy_rules, strategy_rules,
}

-- A rule stays inside the envelope of the vault.
pub record IsInScope (s : StrategyVaultConfig) (r : RuleConfig) : Type 0 where
  pub pair : r.trigger.pair_id ≡ s.pair_id
  pub source : r.action.src ≡ s.src
  pub no_recipient : r.action.recipient ≡ none
  pub size : r.action.amount_in ≤ℤ s.max_trade_size
  pub slippage : r.action.max_slippage_bps ≤ s.max_slippage_bps
  pub deadline : r.action.deadline_seconds ≤ s.max_deadline_seconds
  pub cooldown : s.cooldown_seconds ≤ r.trigger.cooldown_seconds

check_scope-IsInScope :
    (s : StrategyVaultConfig) (r : RuleConfig) → check_scope s r ≡ ok tt → IsInScope s r
unfolding check_scope
check_scope-IsInScope s r h = ground (arith, eq_iff r.action.src s.src)

IsInScope-check_scope :
    (s : StrategyVaultConfig) (r : RuleConfig) → IsInScope s r → check_scope s r ≡ ok tt
unfolding check_scope
IsInScope-check_scope s r h = ground (arith, eq_iff r.action.src s.src)

check_scopes-All :
    (s : StrategyVaultConfig) (rs : List RuleConfig)
    → check_scopes s rs ≡ ok tt
    → All (IsInScope s) rs
unfolding check_scopes
check_scopes-All s [] h = tt
check_scopes-All s (r ∷ rs) h = ground (arith, check_scope-IsInScope s r, check_scopes-All s rs)

All-check_scopes :
    (s : StrategyVaultConfig) (rs : List RuleConfig)
    → All (IsInScope s) rs
    → check_scopes s rs ≡ ok tt
unfolding check_scopes
All-check_scopes s [] h = refl
All-check_scopes s (r ∷ rs) h = rw (IsInScope-check_scope s r h.0) (All-check_scopes s rs h.1)

-- What `validate_strategy_rules` means to accept: outside vault mode everything, in vault mode
-- no recipient and only rules inside the envelope.
abbrev pub RespectsVault : CustodyMode → Option StrategyVaultConfig → AutomationConfig → Type 0
RespectsVault direct_wallet v c = Unit
RespectsVault strategy_vault none c = Unit
RespectsVault strategy_vault (some s) c = (c.wallet.recipient ≡ none) × All (IsInScope s) c.rules

strategy_rules-RespectsVault :
    (m : CustodyMode) (v : Option StrategyVaultConfig) (c : AutomationConfig)
    → strategy_rules m v c ≡ ok tt
    → RespectsVault m v c
unfolding strategy_rules
strategy_rules-RespectsVault direct_wallet v c h = tt
strategy_rules-RespectsVault strategy_vault none c h = tt
strategy_rules-RespectsVault strategy_vault (some s) c h =
    ground (arith, check_scopes-All s c.rules)

RespectsVault-strategy_rules :
    (m : CustodyMode) (v : Option StrategyVaultConfig) (c : AutomationConfig)
    → RespectsVault m v c
    → strategy_rules m v c ≡ ok tt
unfolding strategy_rules
RespectsVault-strategy_rules direct_wallet v c h = refl
RespectsVault-strategy_rules strategy_vault none c h = refl
RespectsVault-strategy_rules strategy_vault (some s) c h = rw (h.0) (All-check_scopes s c.rules h.1)

-- `validate_strategy_rules` accepts a configuration exactly when, in vault mode with a vault, the
-- wallet has no recipient and each rule keeps to the vault's pair and source token, has no
-- recipient of its own, and stays within its trade size, slippage, deadline and cooldown.
pub validate_strategy_rules_iff :
    (c : AutomationConfig)
    → (validate_strategy_rules c ≡ ok tt) ↔ RespectsVault c.custody.mode c.custody.vault c
unfolding validate_strategy_rules
validate_strategy_rules_iff c = (
  strategy_rules-RespectsVault c.custody.mode c.custody.vault c,
  RespectsVault-strategy_rules c.custody.mode c.custody.vault c,
)
