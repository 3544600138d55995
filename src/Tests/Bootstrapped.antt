-- ===== src/Tests/Bootstrapped.antt =====
-- The theorems on the bootstrap script: a chain without the vault, then one with it, and answers
-- that accept each transaction.
use xian_dex_automation.Base.{
  ℕ, suc, ◌+◌, ◌*◌, ◌≤◌, ◌<◌, String, text_append, true, false, ◌≡◌, refl, Option, none, some, [],
  ◌∷◌, arith, All, str_eq, if◌then◌else◌, ◌⊎◌,
}
use xian_dex_automation.Base.Int.{pos, ◌<ℤ◌, ◌≤ℤ◌, ◌-ℤ◌}
use xian_dex_automation.Outcome.{Outcome, ok, raised, Exn}
use xian_dex_automation.Decimal.{of_int}
use xian_dex_automation.Decimal.Fixed.{fixed}
use xian_dex_automation.Config.{AutomationConfig, StrategyVaultConfig, strategy_vault}
use xian_dex_automation.Config.Paths.{PathRules}
use xian_dex_automation.Config.Validation.{validate_vault, validate_config}
use xian_dex_automation.Vault.{State, Foreign, tokens_match}
use xian_dex_automation.Vault.Exports.{seed}
use xian_dex_automation.Runtime.{Platform}
use xian_dex_automation.Storage.{new_database}
use xian_dex_automation.Bootstrap.{
  Arguments, Place, Outside, TransactionSubmission, flag, Write, ◌>>=◌,
}
use xian_dex_automation.Bootstrap.Vault.{
  Session, open_vault, deposit_and_resume, obtain_vault, obtain, deploy_vault, confirmed,
  make_deposit, make_up, deposit_delta, make_running, unpause_vault, send_unpause, is_paused,
  balance_value, deployed, approved, deposited, unpaused, deploy_arguments,
}
use xian_dex_automation.Bootstrap.Vault.Written.{Opened, open_vault-Opened}
use xian_dex_automation.Bootstrap.Vault.Reused.{IsReviewed, open_vault-IsReviewed}
use xian_dex_automation.Bootstrap.Funding.{required_keeper_currency}
use xian_dex_automation.Bootstrap.Funding.Enough.{required_keeper_currency-bounds}
use xian_dex_automation.Bootstrap.Command.{main}
use xian_dex_automation.Bootstrap.Command.Guarded.{IsPermitted, main-IsPermitted}
use xian_dex_automation.Bootstrap.Setup.{
  default_arguments, strategy_config, service_config, Confirmation, require_success,
}
use xian_dex_automation.Bootstrap.Setup.Accepted.{service_config-accepted, deploy_arguments-seed}
use xian_dex_automation.Tests.Sending.{platform}
use xian_dex_automation.Tests.Custody.{foreign, owner}

abbrev pub paths : PathRules
paths = record {
  resolve = λ path. path;
  parent = λ path. "/srv";
  join = λ base path. text_append base (text_append "/" path);
  is_absolute = λ path. true;
  expanduser = λ path. path;
}

abbrev arguments : Arguments
arguments = record (default_arguments fixed paths "/srv" "/stack") {
  execute = true;
  execute_swap = true;
}

abbrev keeper : String
keeper = "0123456789abcdef0123456789abcdef0123456789abcdef0123456789abcdef"

abbrev host : Platform
host = record platform { public_key = λ key. ok keeper }

abbrev accepted : TransactionSubmission
accepted = record {
  submitted = true;
  accepted = some true;
  finalized = true;
  tx_hash = some "AB12";
  chi_supplied = some 900;
  chi_estimated = some 650;
  receipt =
      some (record { success = true; tx_hash = some "AB12"; chi_used = some 640; message = none });
}

-- A vault is paused until the last write unpauses it.
abbrev outside : Option String → Outside
outside source = record {
  read_network = λ s path. ok (record {
    nodes = some (some "27657" ∷ []);
    founder_key = some "founder";
    chain_id = some "xian-1";
  });
  exists = λ s path. false;
  read_text = λ s path. ok "reviewed";
  new_key = λ s. "key";
  write_file = λ s w. ok tt;
  send_transaction = λ s w. ok accepted;
  get_contract_source = λ s name. ok source;
  get_strategy = λ s name. ok (λ key. flag true);
  balance_of = λ s token holder. ok none;
  estimate_chi = λ s plan. ok (pos 650, pos 900);
  chi_cost = λ s. ok (pos 20);
  canonical = λ name code. ok code;
  sha256 = λ code. code;
  sub = fixed.sub;
}

abbrev start : Place
start = record { writes = []; world = record { store = new_database; calls = [] } }

abbrev strategy : StrategyVaultConfig
strategy = record {
  contract = "con_dex_strategy_vault_demo";
  keeper_address = keeper;
  pair_id = 1;
  src = "currency";
  token_out = "con_dex_demo_token";
  max_trade_size = pos 1000;
  total_spend_cap = pos 10000;
  max_slippage_bps = 100;
  cooldown_seconds = 0;
  max_deadline_seconds = 300;
}

main-IsPermitted_example :
    All
      (IsPermitted arguments paths)
      (main host (outside none) paths "/srv" "vault.py" arguments start).1.writes
main-IsPermitted_example =
    main-IsPermitted host (outside none) paths "/srv" "vault.py" arguments start tt

is_accepted : strategy_config arguments keeper ≡ ok strategy
unfolding strategy_config default_arguments validate_vault
is_accepted = refl

is_positive : pos 0 <ℤ arguments.exercise_amount
unfolding default_arguments
is_positive = omega arith

is_small : arguments.exercise_amount ≤ℤ arguments.max_trade_size
unfolding default_arguments
is_small = omega arith

service_config-accepted_example :
    (c : AutomationConfig) × (service_config paths "/srv" arguments "http://127.0.0.1:27657" none
        keeper
      ≡ ok c)
    × (validate_config c ≡ ok tt)
    × (c.custody.mode ≡ strategy_vault)
    × (c.custody.vault ≡ some strategy)
    × (c.wallet.execute ≡ false)
    × (c.wallet.private_key_file ≡ some (paths.resolve arguments.keeper_private_key_file))
service_config-accepted_example =
    service_config-accepted paths "/srv" arguments "http://127.0.0.1:27657" none keeper strategy
      is_accepted is_positive is_small

-- A pair of the two tokens of the demonstration.
abbrev chain : Foreign ℕ
chain = record foreign {
  pairs = λ w pair field. some (if str_eq field "token0" then "currency" else "con_dex_demo_token");
}

holds_both :
    tokens_match arguments.src arguments.token_out
      (chain.pairs 0 arguments.pair_id "token0")
      (chain.pairs 0 arguments.pair_id "token1")
    ≡ ok tt
unfolding tokens_match default_arguments
holds_both = refl

deploy_arguments-seed_example :
    (t : State ℕ) × (seed chain owner (deploy_arguments arguments keeper) 0 ≡ ok t)
    × (t.chain ≡ 0)
    × (t.vault ≡ record (deploy_arguments arguments keeper) {
      owner = "owner";
      spent_total = pos 0;
      last_execution = none;
      paused = true;
    })
deploy_arguments-seed_example =
    deploy_arguments-seed chain owner 0 arguments keeper strategy is_accepted holds_both

open_vault-IsReviewed_example :
    let t =
      (open_vault fixed platform.str.to_decimal
        (outside (some "other"))
        arguments
        strategy
        "reviewed"
        start).1 in
    (t.writes ≡ [])
    ⊎ ((existing : Option String) × (◌≡◌ {A = Outcome (Option String)}
          (ok (some "other"))
          (ok existing))
        × IsReviewed fixed platform.str.to_decimal
            (outside (some "other"))
            arguments
            strategy
            "reviewed"
            start
            existing)
open_vault-IsReviewed_example =
    open_vault-IsReviewed fixed platform.str.to_decimal (outside (some "other")) arguments strategy
      "reviewed" start

abbrev done : Confirmation
done = record {
  tx_hash = some "AB12";
  submitted = true;
  accepted = some true;
  finalized = true;
  chi_supplied = some 900;
  chi_estimated = some 650;
  receipt = record { success = true; tx_hash = some "AB12"; chi_used = some 640; message = none };
}

abbrev session : Session
session = record {
  entries = deployed done ∷ approved done ∷ deposited done ∷ unpaused done ∷ [];
  reused = false;
  remains_paused = false;
}

abbrev opened : Place
opened = record start {
  writes =
      Write.pause_switch "con_dex_strategy_vault_demo" false
      ∷ Write.deposit_token "con_dex_strategy_vault_demo" "currency" (pos 10000)
      ∷ Write.approve "currency" (pos 10000) "con_dex_strategy_vault_demo"
      ∷ Write.deploy "con_dex_strategy_vault_demo" "reviewed" (deploy_arguments arguments keeper)
      ∷ [];
}

opens :
    open_vault fixed platform.str.to_decimal (outside none) arguments strategy "reviewed" start
    ≡ (ok session, opened)
unfolding open_vault deposit_and_resume obtain_vault obtain deploy_vault confirmed require_success
    make_deposit make_up deposit_delta make_running unpause_vault send_unpause is_paused
    balance_value ◌>>=◌ default_arguments ◌-ℤ◌
opens = refl

open_vault-Opened_example :
    Opened fixed platform.str.to_decimal
      (outside none)
      arguments
      strategy
      "reviewed"
      start
      session
      opened
open_vault-Opened_example =
    open_vault-Opened fixed platform.str.to_decimal (outside none) arguments strategy "reviewed"
      start session opened opens

-- 25 chi at 10 chi for a unit of the currency.
required_keeper_currency-bounds_example :
    (((pos 25 ≤ℤ pos 0) ⊎ (pos 10 ≤ℤ pos 0))
      × (x : Exn) × (required_keeper_currency fixed (pos 25) (pos 10) ≡ raised x))
    ⊎ ((n m k : ℕ) × (pos 25 ≡ pos (suc n))
        × (pos 10 ≡ pos (suc m))
        × (required_keeper_currency fixed (pos 25) (pos 10) ≡ ok (of_int fixed k))
        × (suc n ≤ k * suc m)
        × (k * suc m < suc n + suc m))
required_keeper_currency-bounds_example = required_keeper_currency-bounds fixed (pos 25) (pos 10)
