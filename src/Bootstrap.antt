-- ===== src/Bootstrap.antt =====
-- The script that deploys and funds a strategy vault (scripts/bootstrap_strategy_vault.py): its
-- arguments, what it takes from elsewhere, and the steps that it is made of. A value that a contract
-- returns may depend on all that the script has done so far.
pub mod Setup
pub mod Keeper
pub mod Keeps
pub mod Returns
pub mod Reuse
pub mod Vault
pub mod Funding
pub mod Command
use xian_dex_automation.Base.{ℕ, String, Bool, List, [], ◌∷◌, Option}
use xian_dex_automation.Base.Int.{ℤ}
use xian_dex_automation.Decimal.{Decimal}
use xian_dex_automation.Outcome.{Outcome, ok, raised, cancelled, Exn, exn}
use xian_dex_automation.Config.{AutomationConfig}
use xian_dex_automation.Runtime.{Action, Plan, World}
use xian_dex_automation.Vault.{Vault as Seed}

-- The arguments of the command line, after `argparse` has read them.
pub record Arguments : Type 0 where
  pub network : String
  pub rpc_url : Option String
  pub owner_private_key : Option String
  pub keeper_private_key_file : String
  pub contract_name : String
  pub pair_id : ℤ
  pub src : String
  pub token_out : String
  pub max_trade_size : Decimal
  pub total_spend_cap : Decimal
  pub deposit_amount : Decimal
  pub max_slippage_bps : ℤ
  pub cooldown_seconds : ℤ
  pub max_deadline_seconds : ℤ
  pub exercise_amount : Decimal
  pub keeper_gas_funding : Decimal
  pub config_out : String
  pub execute : Bool
  pub execute_swap : Bool
  pub unpause_existing : Bool

-- What the script reads of `network.json`: the port of each node as the text that it is printed as,
-- where the node has one, if `nodes` is a list; the founder's key, if it is a text.
pub record Metadata : Type 0 where
  pub nodes : Option (List (Option String))
  pub founder_key : Option String
  pub chain_id : Option String

-- A value under a key of the dictionary that `get_strategy` returns. A number that is no integer
-- stands with its decimal value; `missing` is `None` too.
pub data Field : Type 0 where
  missing : Field
  flag : Bool → Field
  whole : ℤ → Field
  fraction : Decimal → Field
  phrase : String → Field

abbrev pub Strategy : Type 0
Strategy = String → Field

-- `xian_py.models.TransactionReceipt` and `TransactionSubmission`, the fields that are read.
pub record Receipt : Type 0 where
  pub success : Bool
  pub tx_hash : Option String
  pub chi_used : Option ℕ
  pub message : Option String

pub record TransactionSubmission : Type 0 where
  pub submitted : Bool
  pub accepted : Option Bool
  pub finalized : Bool
  pub tx_hash : Option String
  pub chi_supplied : Option ℕ
  pub chi_estimated : Option ℕ
  pub receipt : Option Receipt

-- What changes the chain or a file. `deploy` carries the name, the source and the arguments of the
-- contract's `seed`.
pub data Write : Type 0 where
  deploy : String → String → Seed → Write
  approve : String → Decimal → String → Write
  deposit_token : String → String → Decimal → Write
  pause_switch : String → Bool → Write
  transfer : Decimal → String → Write
  swap : Plan → Option ℤ → Write
  key_file : String → String → Write
  config_file : String → AutomationConfig → Write

-- The writes so far, newest first, and the process in which the DEX client runs.
pub record Place : Type 0 where
  pub writes : List Write
  pub world : World

-- What the script asks of the outside. `send_transaction` answers a transaction, `balance_of` a balance as its
-- text, where it is true; `estimate_chi` gives the keys `estimated` and `suggested`; `canonical` is
-- `compile_contract_source(...)["source"]`; `sub` is the subtraction of decimals in the script.
pub record Outside : Type 0 where
  pub read_network : Place → String → Outcome Metadata
  pub exists : Place → String → Bool
  pub read_text : Place → String → Outcome String
  pub new_key : Place → String
  pub write_file : Place → Write → Outcome (Unit {0})
  pub send_transaction : Place → Write → Outcome TransactionSubmission
  pub get_contract_source : Place → String → Outcome (Option String)
  pub get_strategy : Place → String → Outcome Strategy
  pub balance_of : Place → String → String → Outcome (Option String)
  pub estimate_chi : Place → Plan → Outcome (ℤ × ℤ)
  pub chi_cost : Place → Outcome ℤ
  pub canonical : String → String → Outcome String
  pub sha256 : String → String
  pub sub : Decimal → Decimal → Decimal

abbrev pub Script : Type 0 → Type 0
Script A = Place → Outcome A × Place

abbrev pub bootstrap_error : String → Exn
bootstrap_error = exn "BootstrapError"

module _ {A : Type 0} where
  unfoldable pub pure : A → Script A
  pure a s = (ok a, s)

  unfoldable pub lift : Outcome A → Script A
  lift r s = (r, s)

  unfoldable pub query : (Place → Outcome A) → Script A
  query f s = (f s, s)

  -- A write counts as made also where its answer is an exception.
  unfoldable pub perform : (Place → Write → Outcome A) → Write → Script A
  perform answer w s = (answer s w, record s { writes = w ∷ s.writes })

  abbrev embedded : Place → Outcome A × World → Outcome A × Place
  embedded s (r, w) = (r, record s { world = w })

  -- A call of the DEX client.
  unfoldable pub embed : Action A → Script A
  embed m s = embedded s (m s.world)

module _ {A B : Type 0} where
  unfoldable pub continue : (A → Script B) → Outcome A × Place → Outcome B × Place
  continue f (ok a, s) = f a s
  continue f (raised e, s) = (raised e, s)
  continue f (cancelled, s) = (cancelled, s)

  infixl 5 ◌>>=◌ ◌>>◌
  -- To unfold this opens the steps above too.
  unfoldable pub ◌>>=◌ : Script A → (A → Script B) → Script B
  unfolding continue pure lift query perform
  ◌>>=◌ m f s = continue f (m s)

  abbrev pub ◌>>◌ : Script A → Script B → Script B
  m >> k = m >>= λ _. k
