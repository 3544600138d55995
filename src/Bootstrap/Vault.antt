-- ===== src/Bootstrap/Vault.antt =====
-- The owner's session of the bootstrap script (scripts/bootstrap_strategy_vault.py): the vault is
-- deployed, or an existing one compared with the reviewed source and the arguments; then the deposit
-- is made up, and the vault unpaused. Opening a client of the SDK is taken not to raise.
pub mod Reused
pub mod Written
use xian_dex_automation.Base.{
  ℕ, String, Bool, true, false, not, ◌||◌, List, [], ◌∷◌, ◌++◌, Option, none, some, str_eq, is_none,
  if◌then◌else◌,
}
use xian_dex_automation.Base.Int.{ℤ, pos, negsuc, negate, ltb_ℤ, leb_ℤ}
use xian_dex_automation.Decimal.{Decimal, Context, of_int}
use xian_dex_automation.Outcome.{Outcome, ok, raised, exn, raise_if}
use xian_dex_automation.Outcome
use xian_dex_automation.Config.{StrategyVaultConfig}
use xian_dex_automation.Vault.{Vault as Seed}
use xian_dex_automation.Bootstrap.{
  Arguments, Field, missing, flag, whole, fraction, phrase, Strategy, Outside, Script,
  bootstrap_error, pure, lift, query, perform, ◌>>=◌, ◌>>◌, Write, deploy, approve, deposit_token,
  pause_switch,
}
use xian_dex_automation.Bootstrap.Setup.{Confirmation, require_success}
use xian_dex_automation.Bootstrap.Reuse.{verify_reusable_source, assert_existing_strategy}

-- The arguments of `seed` in `_deploy_vault`; the variables that `seed` sets itself are blank.
unfoldable pub deploy_arguments : Arguments → String → Seed
deploy_arguments a keeper = record {
  owner = "";
  keeper = keeper;
  pair = a.pair_id;
  src = a.src;
  token_out = a.token_out;
  max_trade_size = a.max_trade_size;
  total_spend_cap = a.total_spend_cap;
  max_slippage_bps = a.max_slippage_bps;
  cooldown_seconds = a.cooldown_seconds;
  max_deadline_seconds = a.max_deadline_seconds;
  spent_total = pos 0;
  last_execution = none;
  paused = false;
}

-- An entry of `payload["writes"]`.
pub data Entry : Type 0 where
  deployed approved deposited unpaused funded : Confirmation → Entry
  configured : String → Entry

-- `status.get("paused") is not False`.
unfoldable pub is_paused : Field → Bool
is_paused (flag false) = false
is_paused _ = true

-- `Decimal(str(value or 0))`, of a balance.
unfoldable pub balance_value : (String → Outcome Decimal) → Option String → Outcome Decimal
balance_value to_decimal none = ok (pos 0)
balance_value to_decimal (some text) = to_decimal text

-- What the session adds to the payload: the writes in order, `vault_reused` and
-- `vault_remains_paused`.
pub record Session : Type 0 where
  pub entries : List Entry
  pub reused : Bool
  pub remains_paused : Bool

module _ (c : Context) (to_decimal : String → Outcome Decimal) (o : Outside) where
  -- A transaction that must succeed.
  unfoldable pub confirmed : String → Write → Script Confirmation
  confirmed label w = do t ← perform o.send_transaction w; lift (require_success label t)

  unfoldable pub deploy_vault : Arguments → String → String → Script (List Entry × Bool)
  unfolding confirmed
  deploy_vault a reviewed keeper = do
    done ←
        confirmed "vault deployment" (deploy a.contract_name reviewed (deploy_arguments a keeper))
    pure (deployed done ∷ [], true)

  unfoldable pub reuse_vault :
      Arguments → StrategyVaultConfig → String → String → Script (List Entry × Bool)
  reuse_vault a strategy existing_source reviewed = do
    lift (verify_reusable_source o.canonical o.sha256 a.contract_name existing_source reviewed)
    existing ← query (λ s. o.get_strategy s a.contract_name)
    lift (assert_existing_strategy c to_decimal existing strategy)
    pure ([], false)

  unfoldable pub obtain :
      Option String → Arguments → StrategyVaultConfig → String → Script (List Entry × Bool)
  unfolding deploy_vault reuse_vault
  obtain none a strategy reviewed = deploy_vault a reviewed strategy.keeper_address
  obtain (some existing_source) a strategy reviewed =
      reuse_vault a strategy existing_source reviewed

  -- The entries so far, and `deployed_now`.
  unfoldable pub obtain_vault :
      Arguments → StrategyVaultConfig → String → Script (List Entry × Bool)
  unfolding obtain
  obtain_vault a strategy reviewed = do
    existing_source ← query (λ s. o.get_contract_source s a.contract_name)
    obtain existing_source a strategy reviewed

  -- The approval and the deposit of what is missing.
  unfoldable pub deposit_delta : Arguments → Decimal → Script (List Entry)
  unfolding confirmed
  deposit_delta a delta = do
    first ← confirmed "vault approval" (approve a.src delta a.contract_name)
    second ← confirmed "vault deposit" (deposit_token a.contract_name a.src delta)
    pure (approved first ∷ deposited second ∷ [])

  unfoldable pub make_up : Arguments → Decimal → Script (List Entry)
  unfolding deposit_delta
  make_up a balance =
      if ltb_ℤ balance a.deposit_amount
      then deposit_delta a (o.sub a.deposit_amount balance)
      else pure []

  unfoldable pub make_deposit : Arguments → Script (List Entry)
  unfolding make_up
  make_deposit a = do
    text ← query (λ s. o.balance_of s a.src a.contract_name)
    balance ← lift (balance_value to_decimal text)
    make_up a balance

  unfoldable pub send_unpause : Arguments → Script (List Entry × Bool)
  unfolding confirmed
  send_unpause a = do
    done ← confirmed "vault unpause" (pause_switch a.contract_name false)
    pure (unpaused done ∷ [], false)

  -- The entries, and whether the vault stays paused.
  unfoldable pub unpause_vault : Arguments → Bool → Bool → Script (List Entry × Bool)
  unfolding send_unpause
  unpause_vault a deployed_now paused =
      if not paused
      then pure ([], false)
      else if deployed_now || a.unpause_existing
      then send_unpause a
      else if a.execute_swap
      then lift (raised (bootstrap_error "reused vault is paused"))
      else pure ([], true)

  unfoldable pub make_running : Arguments → Bool → Script (List Entry × Bool)
  unfolding unpause_vault
  make_running a deployed_now = do
    status ← query (λ s. o.get_strategy s a.contract_name)
    unpause_vault a deployed_now (is_paused (status "paused"))

  -- What follows the deployment or the comparison.
  unfoldable pub deposit_and_resume : Arguments → List Entry × Bool → Script Session
  deposit_and_resume a (first, deployed_now) = do
    second ← make_deposit a
    (third, remains_paused) ← make_running a deployed_now
    pure (record {
      entries = first ++ second ++ third;
      reused = not deployed_now;
      remains_paused = remains_paused;
    })

  -- The first `with Xian(...)` of `main`.
  unfoldable pub open_vault : Arguments → StrategyVaultConfig → String → Script Session
  open_vault a strategy reviewed = do
    vault ← obtain_vault a strategy reviewed
    deposit_and_resume a vault
