-- ===== src/Config/Validation.antt =====
-- The validators of the configuration models: field bounds, then the `model_validator`s.
pub mod Scope
use Prim.Native.Char.{code}
use xian_dex_automation.Base.{
  ℕ, String, Bool, true, false, not, ◌&&◌, ◌||◌, List, [], ◌∷◌, Option, none, some, ltb, leb, ◌==◌,
  str_eq, is_some, length, text_append,
}
use xian_dex_automation.Base.Int.{pos, ltb_ℤ}
use xian_dex_automation.Decimal.{Decimal}
use xian_dex_automation.Outcome.{Outcome, ok, raised, Exn, exn, value_error, raise_if, ◌>>◌}
use xian_dex_automation.Config.{
  AutomationConfig, CustodyConfig, StrategyVaultConfig, RuleConfig, NetworkConfig,
  PriceMoveTriggerConfig, SwapExactInActionConfig, CustodyMode, direct_wallet, strategy_vault,
}

-- The code points of a text.
abbrev pub codes : String → List ℕ
codes String.[] = []
codes (String.◌∷◌ c s) = code c ∷ codes s

all_codes : (ℕ → Bool) → List ℕ → Bool
all_codes p [] = true
all_codes p (c ∷ cs) = p c && all_codes p cs

is_hex : ℕ → Bool
is_hex c = (leb b'0' c && leb c b'9') || (leb b'a' c && leb c b'f') || (leb b'A' c && leb c b'F')

is_word : ℕ → Bool
is_word c =
    (leb b'0' c && leb c b'9')
    || (leb b'a' c && leb c b'z')
    || (leb b'A' c && leb c b'Z')
    || c == b'_'

-- `^con_[A-Za-z0-9_]+$`
is_contract_codes : List ℕ → Bool
unfolding is_word all_codes
is_contract_codes (c ∷ o ∷ n ∷ u ∷ x ∷ rest) =
    c == b'c' && o == b'o' && n == b'n' && u == b'_' && is_word x && all_codes is_word rest
is_contract_codes _ = false

unfoldable pub is_contract_name : String → Bool
unfolding is_contract_codes
is_contract_name s = is_contract_codes (codes s)

-- `^[0-9a-fA-F]{64}$`
unfoldable pub is_keeper_address : String → Bool
unfolding is_hex all_codes
is_keeper_address s = length (codes s) == 64 && all_codes is_hex (codes s)

-- `Field(gt=0)`
abbrev positive : Decimal → Bool
positive d = ltb_ℤ (pos 0) d

unfoldable pub field_error : Exn
field_error = exn "ValidationError" "field out of bounds"

-- The fields of `StrategyVaultConfig`, then `validate_budget`.
unfoldable pub validate_vault : StrategyVaultConfig → Outcome (Unit {0})
unfolding is_contract_name is_keeper_address field_error
validate_vault s = do
  raise_if (not (is_contract_name s.contract)) field_error
  raise_if (not (is_keeper_address s.keeper_address)) field_error
  raise_if (s.pair_id == 0) field_error
  raise_if (str_eq s.src "") field_error
  raise_if (str_eq s.token_out "") field_error
  raise_if (not (positive s.max_trade_size)) field_error
  raise_if (not (positive s.total_spend_cap)) field_error
  raise_if (leb 10000 s.max_slippage_bps) field_error
  raise_if (ltb 2592000 s.cooldown_seconds) field_error
  raise_if (s.max_deadline_seconds == 0 || ltb 3600 s.max_deadline_seconds) field_error
  raise_if (str_eq s.src s.token_out) (value_error "strategy vault src and token_out must differ")
  raise_if (ltb_ℤ s.total_spend_cap s.max_trade_size)
      (value_error "strategy vault total_spend_cap must be at least max_trade_size")

-- The validator `validate_mode`, after the vault's own.
validate_mode : CustodyMode → Option StrategyVaultConfig → Outcome (Unit {0})
validate_mode strategy_vault none =
    raised (value_error "custody.strategy_vault is required in strategy_vault mode")
validate_mode direct_wallet (some s) =
    raised (value_error "custody.strategy_vault must be omitted in direct_wallet mode")
validate_mode strategy_vault (some s) = ok tt
validate_mode direct_wallet none = ok tt

validate_vault_field : Option StrategyVaultConfig → Outcome (Unit {0})
validate_vault_field none = ok tt
validate_vault_field (some s) = validate_vault s

unfoldable pub validate_custody : CustodyConfig → Outcome (Unit {0})
unfolding validate_mode validate_vault_field
validate_custody c = do validate_vault_field c.vault; validate_mode c.mode c.vault

unfoldable pub validate_trigger : PriceMoveTriggerConfig → Outcome (Unit {0})
unfolding field_error
validate_trigger t = do
  raise_if (t.pair_id == 0) field_error
  raise_if (t.threshold_bps == 0) field_error

unfoldable pub validate_action : SwapExactInActionConfig → Outcome (Unit {0})
unfolding field_error
validate_action a = do
  raise_if (not (positive a.amount_in)) field_error
  raise_if (leb 10000 a.max_slippage_bps) field_error
  raise_if (a.deadline_seconds == 0) field_error

unfoldable pub validate_rule : RuleConfig → Outcome (Unit {0})
validate_rule r = do validate_trigger r.trigger; validate_action r.action

unfoldable pub validate_rules : List RuleConfig → Outcome (Unit {0})
validate_rules [] = ok tt
validate_rules (r ∷ rs) = do validate_rule r; validate_rules rs

unfoldable pub validate_network : NetworkConfig → Outcome (Unit {0})
unfolding field_error
validate_network n = raise_if (n.poll_interval == 0) field_error

rule_error : RuleConfig → String → Exn
rule_error r what = value_error (text_append "rule '" (text_append r.id (text_append "' " what)))

-- One round of the loop of `validate_strategy_rules`.
pub check_scope : StrategyVaultConfig → RuleConfig → Outcome (Unit {0})
unfolding rule_error
check_scope s r = do
  raise_if (not (r.trigger.pair_id == s.pair_id))
      (rule_error r "pair_id exceeds the strategy vault scope")
  raise_if (not (str_eq r.action.src s.src)) (rule_error r "src exceeds the strategy vault scope")
  raise_if (is_some r.action.recipient)
      (rule_error r "recipient must be null in strategy_vault mode")
  raise_if (ltb_ℤ s.max_trade_size r.action.amount_in)
      (rule_error r "amount_in exceeds strategy max_trade_size")
  raise_if (ltb s.max_slippage_bps r.action.max_slippage_bps)
      (rule_error r "slippage exceeds strategy maximum")
  raise_if (ltb s.max_deadline_seconds r.action.deadline_seconds)
      (rule_error r "deadline exceeds strategy maximum")
  raise_if (ltb r.trigger.cooldown_seconds s.cooldown_seconds)
      (rule_error r "cooldown is shorter than strategy minimum")

pub check_scopes : StrategyVaultConfig → List RuleConfig → Outcome (Unit {0})
check_scopes s [] = ok tt
check_scopes s (r ∷ rs) = do check_scope s r; check_scopes s rs

strategy_rules : CustodyMode → Option StrategyVaultConfig → AutomationConfig → Outcome (Unit {0})
strategy_rules direct_wallet v c = ok tt
strategy_rules strategy_vault none c = ok tt
strategy_rules strategy_vault (some s) c = do
  raise_if (is_some c.wallet.recipient)
      (value_error "wallet.recipient must be null in strategy_vault mode")
  check_scopes s c.rules

-- The validator `validate_strategy_rules` of `AutomationConfig`.
unfoldable pub validate_strategy_rules : AutomationConfig → Outcome (Unit {0})
unfolding strategy_rules
validate_strategy_rules c = strategy_rules c.custody.mode c.custody.vault c

-- `AutomationConfig.model_validate`: the nested models, then the model's own validator.
unfoldable pub validate_config : AutomationConfig → Outcome (Unit {0})
validate_config c = do
  validate_network c.network
  validate_custody c.custody
  validate_rules c.rules
  validate_strategy_rules c
