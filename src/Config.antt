-- ===== src/Config.antt =====
-- The configuration and its validation (src/xian_dex_automation/config.py, the models).
-- An integer field that pydantic holds at `ge=0` or `gt=0` is a natural number, and the parts of
-- such a bound that a natural number does not give are tested by the validators.
pub mod Validation
pub mod Paths
pub mod Saving
use xian_dex_automation.Base.{ℕ, String, Bool, List, Option}
use xian_dex_automation.Decimal.{Decimal}

pub data WatcherMode : Type 0 where
  auto poll websocket : WatcherMode

-- The poll interval is a count of microseconds.
pub record NetworkConfig : Type 0 where
  pub rpc_url : String
  pub chain_id : Option String
  pub watcher_mode : WatcherMode
  pub poll_interval : ℕ

pub record DexConfig : Type 0 where
  pub router_contract : String
  pub pairs_contract : String

pub record WalletConfig : Type 0 where
  pub private_key_env : String
  pub private_key_file : Option String
  pub private_key_file_env : String
  pub execute : Bool
  pub recipient : Option String

pub record StrategyVaultConfig : Type 0 where
  pub contract : String
  pub keeper_address : String
  pub pair_id : ℕ
  pub src : String
  pub token_out : String
  pub max_trade_size : Decimal
  pub total_spend_cap : Decimal
  pub max_slippage_bps : ℕ
  pub cooldown_seconds : ℕ
  pub max_deadline_seconds : ℕ

pub data CustodyMode : Type 0 where
  direct_wallet strategy_vault : CustodyMode

pub record CustodyConfig : Type 0 where
  pub mode : CustodyMode
  pub vault : Option StrategyVaultConfig

pub data Direction : Type 0 where
  up down either : Direction

pub record PriceMoveTriggerConfig : Type 0 where
  pub pair_id : ℕ
  pub direction : Direction
  pub threshold_bps : ℕ
  pub cooldown_seconds : ℕ

pub record SwapExactInActionConfig : Type 0 where
  pub src : String
  pub amount_in : Decimal
  pub max_slippage_bps : ℕ
  pub deadline_seconds : ℕ
  pub recipient : Option String

pub record RuleConfig : Type 0 where
  pub id : String
  pub enabled : Bool
  pub trigger : PriceMoveTriggerConfig
  pub action : SwapExactInActionConfig

pub record AutomationConfig : Type 0 where
  pub network : NetworkConfig
  pub dex : DexConfig
  pub wallet : WalletConfig
  pub custody : CustodyConfig
  pub database_path : String
  pub rules : List RuleConfig
