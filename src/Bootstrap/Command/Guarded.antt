-- ===== src/Bootstrap/Command/Guarded.antt =====
-- What the bootstrap script writes, whatever it is answered (scripts/bootstrap_strategy_vault.py).
use xian_dex_automation.Base.{
  Bool, true, false, ◌||◌, String, Option, none, some, ◌≡◌, refl, sym, inl, inr, All, Bool-cases,
}
use xian_dex_automation.Base.Int.{pos, ltb_ℤ, ltb_ℤ→lt, ◌<ℤ◌}
use xian_dex_automation.Decimal.{Decimal}
use xian_dex_automation.Outcome.{Outcome}
use xian_dex_automation.Config.{AutomationConfig, StrategyVaultConfig}
use xian_dex_automation.Config.Paths.{PathRules}
use xian_dex_automation.Runtime.{Platform}
use xian_dex_automation.Bootstrap.{
  Arguments, Place, Outside, Write, deploy, approve, deposit_token, pause_switch, transfer, swap,
  key_file, config_file, perform,
}
use xian_dex_automation.Bootstrap.Keeps.{
  Keeps, writes_rules, Keeps-write, Keeps->>=, Keeps-lift_then,
}
use xian_dex_automation.Bootstrap.Setup.Accepted.{service_config-execute}
use xian_dex_automation.Bootstrap.Keeper.{keeper_wallet, read_or_make_key, save_key}
use xian_dex_automation.Bootstrap.Vault.{
  open_vault, deposit_and_resume, confirmed, obtain, obtain_vault, deploy_vault, deposit_delta,
  make_up, make_deposit, send_unpause, unpause_vault, make_running, deploy_arguments, Session,
}
use xian_dex_automation.Bootstrap.Funding.{
  KeeperExercisePlan, prepare_exercise, exercise, submit_call_plan, fund_keeper, top_up_keeper,
  send_top_up,
}
use xian_dex_automation.Bootstrap.Command.{
  Summary, main, save_and_fund, execute_or_plan, execute_swap_if,
}

-- What `main` may write with these arguments, besides that `--execute` is given.
abbrev pub IsAllowed : Arguments → PathRules → Write → Type 0
IsAllowed a paths (deploy name reviewed seed) =
    (name ≡ a.contract_name) × (keeper : String) × (seed ≡ deploy_arguments a keeper)
IsAllowed a paths (approve token amount spender) = (token ≡ a.src) × (spender ≡ a.contract_name)
IsAllowed a paths (deposit_token contract token amount) =
    (contract ≡ a.contract_name) × (token ≡ a.src)
IsAllowed a paths (pause_switch contract value) = (contract ≡ a.contract_name) × (value ≡ false)
IsAllowed a paths (transfer amount recipient) = pos 0 <ℤ amount
IsAllowed a paths (swap plan chi) = a.execute_swap ≡ true
IsAllowed a paths (key_file path key) =
    path ≡ paths.resolve (paths.expanduser a.keeper_private_key_file)
IsAllowed a paths (config_file path config) =
    (path ≡ paths.resolve (paths.expanduser a.config_out)) × (config.wallet.execute ≡ false)

abbrev pub IsPermitted : Arguments → PathRules → Write → Type 0
IsPermitted a paths w = (a.execute ≡ true) × IsAllowed a paths w

module _ (a : Arguments) (paths : PathRules) (p : Platform) (o : Outside) where
  -- The writes of this place are all permitted.
  abbrev Permitted : Place → Type 0
  Permitted s = All (IsPermitted a paths) s.writes

  allowed-Permitted :
      {A : Type 0} (answer : Place → Write → Outcome A) (w : Write)
      → a.execute ≡ true
      → IsAllowed a paths w
      → Keeps Permitted (perform answer w)
  allowed-Permitted answer w on h = Keeps-write answer w (on, h)

  save_key-Permitted :
      (execute : Bool) (path key : String)
      → path ≡ paths.resolve (paths.expanduser a.keeper_private_key_file)
      → execute ≡ a.execute
      → Keeps Permitted (save_key p o execute path key)
  unfolding save_key
  save_key-Permitted false path key e f = search writes_rules
  save_key-Permitted true path key e f = allowed-Permitted _ _ (sym f) e

  read_or_make_key-Permitted :
      (found execute : Bool) (path : String)
      → path ≡ paths.resolve (paths.expanduser a.keeper_private_key_file)
      → execute ≡ a.execute
      → Keeps Permitted (read_or_make_key p o found execute path)
  unfolding read_or_make_key
  read_or_make_key-Permitted true execute path e f = search writes_rules
  read_or_make_key-Permitted false execute path e f =
      search (writes_rules, save_key-Permitted, e, f)

  keeper_wallet-Permitted :
      Keeps Permitted
        (keeper_wallet p o a.execute (paths.resolve (paths.expanduser a.keeper_private_key_file)))
  unfolding keeper_wallet
  keeper_wallet-Permitted =
      search (writes_rules, read_or_make_key-Permitted _ a.execute _ refl refl)

  module _ (on : a.execute ≡ true) where
    confirmed-Permitted :
        (label : String) (w : Write)
        → IsAllowed a paths w
        → Keeps Permitted (confirmed p.context p.str.to_decimal o label w)
    unfolding confirmed
    confirmed-Permitted label w h = search (writes_rules, allowed-Permitted, on, h)

    deploy_vault-Permitted :
        (reviewed keeper : String)
        → Keeps Permitted (deploy_vault p.context p.str.to_decimal o a reviewed keeper)
    unfolding deploy_vault
    deploy_vault-Permitted reviewed keeper =
        let allowed : IsAllowed a paths
            (deploy a.contract_name reviewed (deploy_arguments a keeper)) =
          (refl, keeper, refl) in
        Keeps->>= _ _ (confirmed-Permitted _ _ allowed) (λ done. search writes_rules)

    obtain-Permitted :
        (existing : Option String) (strategy : StrategyVaultConfig) (reviewed : String)
        → Keeps Permitted (obtain p.context p.str.to_decimal o existing a strategy reviewed)
    unfolding obtain
    obtain-Permitted none strategy reviewed =
        deploy_vault-Permitted reviewed strategy.keeper_address
    obtain-Permitted (some existing) strategy reviewed = search writes_rules

    deposit_delta-Permitted :
        (delta : Decimal) → Keeps Permitted (deposit_delta p.context p.str.to_decimal o a delta)
    unfolding deposit_delta
    deposit_delta-Permitted delta = search (
      writes_rules,
      confirmed-Permitted _ (approve a.src delta a.contract_name) (refl, refl),
      confirmed-Permitted _ (deposit_token a.contract_name a.src delta) (refl, refl),
    )

    make_up-Permitted :
        (balance : Decimal) → Keeps Permitted (make_up p.context p.str.to_decimal o a balance)
    unfolding make_up
    make_up-Permitted balance = elim (Bool-cases (ltb_ℤ balance a.deposit_amount)) [
      | inl e ↦ rw e (deposit_delta-Permitted (o.sub a.deposit_amount balance))
      | inr e ↦ rw e (search writes_rules)
    ]

    send_unpause-Permitted : Keeps Permitted (send_unpause p.context p.str.to_decimal o a)
    unfolding send_unpause
    send_unpause-Permitted =
        search
          (writes_rules, confirmed-Permitted _ (pause_switch a.contract_name false) (refl, refl))

    unpause_vault-Permitted :
        (deployed_now paused : Bool)
        → Keeps Permitted (unpause_vault p.context p.str.to_decimal o a deployed_now paused)
    unfolding unpause_vault
    unpause_vault-Permitted deployed_now false = search writes_rules
    unpause_vault-Permitted deployed_now true =
        elim (Bool-cases (deployed_now || a.unpause_existing)) [
          | inl e ↦ rw e (send_unpause-Permitted)
          | inr e ↦ elim (Bool-cases a.execute_swap) [
            | inl k ↦ rw (e, k) (search writes_rules)
            | inr k ↦ rw (e, k) (search writes_rules)
          ]
        ]

    open_vault-Permitted :
        (strategy : StrategyVaultConfig) (reviewed : String)
        → Keeps Permitted (open_vault p.context p.str.to_decimal o a strategy reviewed)
    unfolding open_vault obtain_vault deposit_and_resume make_deposit make_running
    open_vault-Permitted strategy reviewed =
        search (writes_rules, obtain-Permitted, make_up-Permitted, unpause_vault-Permitted) depth 9

    send_top_up-Permitted :
        (keeper : String) (top_up : Decimal)
        → pos 0 <ℤ top_up
        → Keeps Permitted (send_top_up p o keeper top_up)
    unfolding send_top_up
    send_top_up-Permitted keeper top_up h =
        search (writes_rules, confirmed-Permitted _ (transfer top_up keeper) h)

    top_up_keeper-Permitted :
        (keeper : String) (top_up : Decimal) → Keeps Permitted (top_up_keeper p o keeper top_up)
    unfolding top_up_keeper
    top_up_keeper-Permitted keeper top_up = elim (Bool-cases (ltb_ℤ (pos 0) top_up)) [
      | inl e ↦ rw e (send_top_up-Permitted keeper top_up (ltb_ℤ→lt (pos 0) top_up e))
      | inr e ↦ rw e (search writes_rules)
    ]

    prepare_exercise-Permitted :
        (config : AutomationConfig) → Keeps Permitted (prepare_exercise p o config)
    unfolding prepare_exercise
    prepare_exercise-Permitted config = search writes_rules depth 12

    fund_keeper-Permitted :
        (keeper : String) (plan : KeeperExercisePlan)
        → Keeps Permitted (fund_keeper p o a keeper plan)
    unfolding fund_keeper
    fund_keeper-Permitted keeper plan = search (writes_rules, top_up_keeper-Permitted)

    module _ (root contract_path : String) where
      execute_swap_if-Permitted :
          (given : Bool) (config : AutomationConfig) (plan : KeeperExercisePlan)
          → given ≡ a.execute_swap
          → Keeps Permitted (execute_swap_if p o paths root contract_path given config plan)
      unfolding execute_swap_if exercise submit_call_plan
      execute_swap_if-Permitted false config plan e = search writes_rules
      execute_swap_if-Permitted true config plan e =
          search (writes_rules, allowed-Permitted, on, sym e)

      save_and_fund-Permitted :
          (chain_id : Option String) (payload : Summary) (session : Session)
          → Keeps Permitted (save_and_fund p o paths root contract_path a chain_id payload session)
      unfolding save_and_fund
      save_and_fund-Permitted chain_id payload session = Keeps-lift_then _ _ (λ config made.
          Keeps->>= _ _
            (allowed-Permitted _ _ on (refl, service_config-execute paths root a _ _ _ made))
            (λ _. search (
              writes_rules,
              prepare_exercise-Permitted,
              fund_keeper-Permitted,
              execute_swap_if-Permitted a.execute_swap config _ refl,
            )))

  execute_or_plan-Permitted :
      (root contract_path : String) (execute : Bool) (chain_id : Option String) (payload : Summary)
      → execute ≡ a.execute
      → Keeps Permitted (execute_or_plan p o paths root contract_path execute a chain_id payload)
  unfolding execute_or_plan
  execute_or_plan-Permitted root contract_path false chain_id payload e = search writes_rules
  execute_or_plan-Permitted root contract_path true chain_id payload e =
      search (writes_rules, open_vault-Permitted (sym e), save_and_fund-Permitted (sym e))

  main-Permitted :
      (root contract_path : String) → Keeps Permitted (main p o paths root contract_path a)
  unfolding main
  main-Permitted root contract_path =
      search
        (
          writes_rules,
          keeper_wallet-Permitted,
          λ (chain_id : Option String) (payload : Summary).
              execute_or_plan-Permitted root contract_path a.execute chain_id payload refl,
        )
        depth 14

-- Whatever the outside answers, each write that `main` attempts is made under `--execute` and is one
-- of these, and so are all the writes recorded afterwards if those recorded before were: the
-- deployment of the named contract with the arguments' limits, an approval for it or a deposit into
-- it of the source token, its unpausing, a transfer of a positive amount, the keeper's key into its
-- own file, a configuration with `wallet.execute` off into the file asked for, and, under
-- `--execute-swap`, a swap.
pub main-IsPermitted :
    (p : Platform) (o : Outside) (paths : PathRules) (root contract_path : String) (a : Arguments)
    (s : Place)
    → All (IsPermitted a paths) s.writes
    → All (IsPermitted a paths) (main p o paths root contract_path a s).1.writes
main-IsPermitted p o paths root contract_path a s h =
    (main-Permitted a paths p o root contract_path).at s h
