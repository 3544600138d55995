-- ===== src/Bootstrap/Setup.antt =====
-- Keys, endpoints and configurations of the bootstrap script, and its reading of an answer. An
-- instance of a configuration model is built by checking its fields first, as pydantic does.
pub mod Accepted
use xian_dex_automation.Base.{
  ℕ, String, Bool, true, false, not, List, [], ◌∷◌, Option, none, some, str_eq, if◌then◌else◌, ◌*◌,
  ◌/◌, text_append,
}
use xian_dex_automation.Base.Int.{ℤ, pos, negsuc, leb_ℤ}
use xian_dex_automation.Decimal.{Decimal, Context, of_int}
use xian_dex_automation.Outcome.{Outcome, ok, raised, cancelled, exn, ◌>>=◌, ◌>>◌}
use xian_dex_automation.Config.{
  AutomationConfig, StrategyVaultConfig, NetworkConfig, DexConfig, WalletConfig, RuleConfig,
  strategy_vault, auto, either,
}
use xian_dex_automation.Config.Validation.{validate_vault, validate_config, field_error}
use xian_dex_automation.Config.Paths.{PathRules}
use xian_dex_automation.Credentials.{truthy}
use xian_dex_automation.Bootstrap.{
  Arguments, Metadata, Receipt, TransactionSubmission, bootstrap_error,
}

-- `_decimal`, the type of an argument.
unfoldable pub decimal_argument : (String → Outcome Decimal) → String → Outcome Decimal
decimal_argument to_decimal value = elim (to_decimal value) [
  | ok d ↦
      if leb_ℤ d (pos 0) then raised (exn "ArgumentTypeError" "value must be positive") else ok d
  | raised e ↦ raised (exn "ArgumentTypeError" (text_append "invalid decimal: " value))
  | cancelled ↦ cancelled
]

-- The defaults of `_build_parser`, under the directory of the repository and that of the localnet.
unfoldable pub default_arguments : Context → PathRules → String → String → Arguments
default_arguments c paths root stack = record {
  network = paths.join (paths.join stack ".localnet") "network.json";
  rpc_url = none;
  owner_private_key = none;
  keeper_private_key_file = paths.join (paths.join root "state") "strategy-vault-keeper.key";
  contract_name = "con_dex_strategy_vault_demo";
  pair_id = pos 1;
  src = "currency";
  token_out = "con_dex_demo_token";
  max_trade_size = of_int c 1;
  total_spend_cap = of_int c 10;
  deposit_amount = of_int c 10;
  max_slippage_bps = pos 100;
  cooldown_seconds = pos 0;
  max_deadline_seconds = pos 300;
  exercise_amount = pos (c.one / 10);
  keeper_gas_funding = of_int c 100;
  config_out = paths.join (paths.join root "state") "strategy-vault.local.yaml";
  execute = false;
  execute_swap = false;
  unpause_existing = false;
}

-- `nodes[0]['host_rpc_port']`, as part of the address.
first_node : List (Option String) → Outcome String
first_node [] = raised (bootstrap_error "localnet metadata has no nodes")
first_node (none ∷ rest) = raised (exn "KeyError" "host_rpc_port")
first_node (some port ∷ rest) = ok (text_append "http://127.0.0.1:" port)

node_url : Option (List (Option String)) → Outcome String
unfolding first_node
node_url none = raised (bootstrap_error "localnet metadata has no nodes")
node_url (some nodes) = first_node nodes

unfoldable pub rpc_url : Metadata → Option String → Outcome String
unfolding node_url
rpc_url network explicit = elim (truthy explicit) [
  | some url ↦ ok url
  | none ↦ node_url network.nodes
]

abbrev owner_variable : String
owner_variable = "XIAN_DEX_VAULT_OWNER_PRIVATE_KEY"

founder : Option String → Outcome String
founder none = raised (bootstrap_error "owner key unavailable")
founder (some key) = ok key

-- `explicit or os.environ.get(...)`
given_key : Option String → Option String → Option String
given_key (some key) environ = some key
given_key none environ = truthy environ

unfoldable pub owner_key :
    (String → String) → (String → Option String) → Metadata → Option String → Outcome String
unfolding founder given_key
owner_key strip environ network explicit =
    elim (given_key (truthy explicit) (environ owner_variable)) [
      | some key ↦ ok (strip key)
      | none ↦ founder (truthy network.founder_key)
    ]

-- What `_require_success` returns.
pub record Confirmation : Type 0 where
  pub tx_hash : Option String
  pub submitted : Bool
  pub accepted : Option Bool
  pub finalized : Bool
  pub chi_supplied : Option ℕ
  pub chi_estimated : Option ℕ
  pub receipt : Receipt

-- `accepted is False`.
abbrev is_false : Option Bool → Bool
is_false none = false
is_false (some b) = not b

check_receipt : String → TransactionSubmission → Option Receipt → Outcome Confirmation
check_receipt label t none =
    raised (bootstrap_error (text_append label " finalized without a receipt"))
check_receipt label t (some r) =
    if not r.success
    then raised (bootstrap_error (text_append label " failed"))
    else ok (record {
      tx_hash = t.tx_hash;
      submitted = t.submitted;
      accepted = t.accepted;
      finalized = t.finalized;
      chi_supplied = t.chi_supplied;
      chi_estimated = t.chi_estimated;
      receipt = r;
    })

unfoldable pub require_success : String → TransactionSubmission → Outcome Confirmation
unfolding check_receipt
require_success label t =
    if not t.submitted
    then raised (bootstrap_error (text_append label " was not submitted"))
    else if is_false t.accepted
    then raised (bootstrap_error (text_append label " was rejected"))
    else if not t.finalized
    then raised (bootstrap_error (text_append label " was not finalized"))
    else check_receipt label t t.receipt

-- `Field(ge=0)` on an integer: the bounds above it are the validators'.
natural : ℤ → Outcome ℕ
natural (pos n) = ok n
natural (negsuc n) = raised field_error

validated : {A : Type 0} → (A → Outcome (Unit {0})) → A → Outcome A
validated check a = do check a; ok a

described : Arguments → String → ℕ → ℕ → ℕ → ℕ → StrategyVaultConfig
described a keeper pair slippage cooldown deadline = record {
  contract = a.contract_name;
  keeper_address = keeper;
  pair_id = pair;
  src = a.src;
  token_out = a.token_out;
  max_trade_size = a.max_trade_size;
  total_spend_cap = a.total_spend_cap;
  max_slippage_bps = slippage;
  cooldown_seconds = cooldown;
  max_deadline_seconds = deadline;
}

unfoldable pub strategy_config : Arguments → String → Outcome StrategyVaultConfig
unfolding natural described validated
strategy_config a keeper = do
  pair ← natural a.pair_id
  slippage ← natural a.max_slippage_bps
  cooldown ← natural a.cooldown_seconds
  deadline ← natural a.max_deadline_seconds
  validated validate_vault (described a keeper pair slippage cooldown deadline)

-- The one rule of the service's configuration. The integers of the arguments are those of the
-- strategy, which holds them as natural numbers.
vault_rule : Arguments → StrategyVaultConfig → RuleConfig
vault_rule a s = record {
  id = "local-strategy-vault";
  enabled = true;
  trigger = record {
    pair_id = s.pair_id;
    direction = either;
    threshold_bps = 100;
    cooldown_seconds = s.cooldown_seconds;
  };
  action = record {
    src = a.src;
    amount_in = a.exercise_amount;
    max_slippage_bps = s.max_slippage_bps;
    deadline_seconds = s.max_deadline_seconds;
    recipient = none;
  };
}

abbrev default_network : String → Option String → NetworkConfig
default_network url chain = record {
  rpc_url = url;
  chain_id = chain;
  watcher_mode = auto;
  poll_interval = 1000000;
}

abbrev default_dex : DexConfig
default_dex = record { router_contract = "con_dex"; pairs_contract = "con_pairs" }

abbrev file_wallet : String → WalletConfig
file_wallet path = record {
  private_key_env = "XIAN_DEX_AUTOMATION_PRIVATE_KEY";
  private_key_file = some path;
  private_key_file_env = "XIAN_DEX_AUTOMATION_PRIVATE_KEY_FILE";
  execute = false;
  recipient = none;
}

-- The arguments of `AutomationConfig(...)` in `_service_config`, over a strategy.
vault_service :
    PathRules → String → Arguments → String → Option String → StrategyVaultConfig → AutomationConfig
unfolding vault_rule
vault_service paths root a url chain s = record {
  network = default_network url chain;
  dex = default_dex;
  wallet = file_wallet (paths.resolve a.keeper_private_key_file);
  custody = record { mode = strategy_vault; vault = some s };
  database_path = paths.join (paths.join root "state") "strategy-vault.sqlite3";
  rules = vault_rule a s ∷ [];
}

unfoldable pub service_config :
    PathRules → String → Arguments → String → Option String → String → Outcome AutomationConfig
unfolding vault_service validated
service_config paths root a url chain keeper = do
  s ← strategy_config a keeper
  validated validate_config (vault_service paths root a url chain s)
