-- ===== src/Bootstrap/Command.antt =====
-- `main` of the bootstrap script (scripts/bootstrap_strategy_vault.py). An error of the argument
-- parser ends the program; the payload is what it prints.
pub mod Guarded
pub mod Planned
use xian_dex_automation.Base.{
  String, Bool, true, false, not, ◌&&◌, List, [], ◌∷◌, ◌++◌, Option, none, some, if◌then◌else◌,
}
use xian_dex_automation.Base.Int.{ltb_ℤ}
use xian_dex_automation.Outcome.{Outcome, exn, Exn, raise_if}
use xian_dex_automation.Outcome
use xian_dex_automation.Config.{AutomationConfig, StrategyVaultConfig}
use xian_dex_automation.Config.Paths.{PathRules}
use xian_dex_automation.Runtime.{Platform}
use xian_dex_automation.Bootstrap.{
  Arguments, Outside, Script, Strategy, pure, lift, query, perform, ◌>>=◌, ◌>>◌, config_file,
}
use xian_dex_automation.Bootstrap.Setup.{
  Confirmation, rpc_url, owner_key, strategy_config, service_config,
}
use xian_dex_automation.Bootstrap.Keeper.{keeper_wallet}
use xian_dex_automation.Bootstrap.Vault.{Entry, configured, funded, Session, open_vault}
use xian_dex_automation.Bootstrap.Funding.{
  KeeperExercisePlan, Funding, prepare_exercise, exercise, fund_keeper,
}

-- The JSON that `main` prints; the fields that repeat arguments are left out.
pub record Summary : Type 0 where
  pub execute : Bool
  pub url : String
  pub owner : String
  pub keeper : String
  pub key_will_be_generated : Bool
  pub strategy : StrategyVaultConfig
  pub writes : List Entry
  pub vault_reused : Bool
  pub vault_remains_paused : Bool
  pub funding : Option Funding
  pub dry_run : Option KeeperExercisePlan
  pub execution : Option Confirmation
  pub on_chain_strategy : Option Strategy

usage_error : String → Exn
usage_error = exn "SystemExit"

unfoldable pub check_arguments : Arguments → Outcome (Unit {0})
unfolding usage_error
check_arguments a =
    if a.execute_swap && not a.execute
    then Outcome.raised (usage_error "--execute-swap requires --execute")
    else if ltb_ℤ a.max_trade_size a.exercise_amount
    then Outcome.raised (usage_error "--exercise-amount must not exceed --max-trade-size")
    else if ltb_ℤ a.deposit_amount a.exercise_amount
    then Outcome.raised (usage_error "--deposit-amount must cover --exercise-amount")
    else Outcome.ok tt

abbrev funding_entry : Option Confirmation → List Entry
funding_entry none = []
funding_entry (some done) = funded done ∷ []

module _ (p : Platform) (o : Outside) (paths : PathRules) (root contract_path : String) where
  unfoldable pub execute_swap_if :
      Bool → AutomationConfig → KeeperExercisePlan → Script (Option Confirmation)
  execute_swap_if false config plan = pure none
  execute_swap_if true config plan = do done ← exercise p o config plan; pure (some done)

  -- From the saving of the configuration on.
  unfoldable pub save_and_fund : Arguments → Option String → Summary → Session → Script Summary
  unfolding execute_swap_if
  save_and_fund a chain_id payload session = do
    config ← lift (service_config paths root a payload.url chain_id payload.keeper)
    let config_out = paths.resolve (paths.expanduser a.config_out)
    perform o.write_file (config_file config_out config)
    plan ← prepare_exercise p o config
    funding ← fund_keeper p o a payload.keeper plan
    execution ← execute_swap_if a.execute_swap config plan
    strategy ← query (λ s. o.get_strategy s a.contract_name)
    pure (record payload {
      writes = session.entries ++ (configured config_out ∷ funding_entry funding.submission);
      vault_reused = session.reused;
      vault_remains_paused = session.remains_paused;
      funding = some funding;
      dry_run = some plan;
      execution = execution;
      on_chain_strategy = some strategy;
    })

  unfoldable pub execute_or_plan : Bool → Arguments → Option String → Summary → Script Summary
  unfolding save_and_fund
  execute_or_plan false a chain_id payload = pure payload
  execute_or_plan true a chain_id payload = do
    reviewed ← query (λ s. o.read_text s contract_path)
    session ← open_vault p.context p.str.to_decimal o a payload.strategy reviewed
    save_and_fund a chain_id payload session

  unfoldable pub main : Arguments → Script Summary
  unfolding execute_or_plan
  main a = do
    lift (check_arguments a)
    network ← query (λ s. o.read_network s (paths.resolve (paths.expanduser a.network)))
    url ← lift (rpc_url network a.rpc_url)
    key ← lift (owner_key p.str.strip p.secrets.environ network a.owner_private_key)
    owner ← lift (p.public_key key)
    (keeper_key, generated) ←
        keeper_wallet p o a.execute (paths.resolve (paths.expanduser a.keeper_private_key_file))
    keeper ← lift (p.public_key keeper_key)
    strategy ← lift (strategy_config a keeper)
    execute_or_plan a.execute a network.chain_id (record {
      execute = a.execute;
      url = url;
      owner = owner;
      keeper = keeper;
      key_will_be_generated = generated && not a.execute;
      strategy = strategy;
      writes = [];
      vault_reused = false;
      vault_remains_paused = false;
      funding = none;
      dry_run = none;
      execution = none;
      on_chain_strategy = none;
    })
