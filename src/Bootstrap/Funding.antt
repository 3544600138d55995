-- ===== src/Bootstrap/Funding.antt =====
-- The keeper's transaction of the bootstrap script (scripts/bootstrap_strategy_vault.py): planning
-- it with the DEX client, funding its gas, and sending it. `ContractCallPlan` with the numbers that
-- the funding needs is one record; the other details are only printed.
pub mod Enough
use xian_dex_automation.Base.{
  ℕ, ◌+◌, ◌-◌, ◌/◌, ◌*◌, String, Bool, true, false, List, [], ◌∷◌, Option, none, some,
  if◌then◌else◌,
}
use xian_dex_automation.Base.Int.{ℤ, pos, pos_part, ltb_ℤ, leb_ℤ}
use xian_dex_automation.Decimal.{Decimal, Context, of_int}
use xian_dex_automation.Outcome.{Outcome, ok, raised, exn, raise_if}
use xian_dex_automation.Outcome
use xian_dex_automation.Config.{AutomationConfig, RuleConfig, SwapExactInActionConfig}
use xian_dex_automation.Dex.{PairSnapshot}
use xian_dex_automation.Planning.{Client}
use xian_dex_automation.Runtime.{Platform, Plan}
use xian_dex_automation.DexClient
use xian_dex_automation.Bootstrap.{
  Arguments, Outside, Script, TransactionSubmission, bootstrap_error, pure, lift, query, perform,
  embed, ◌>>=◌, ◌>>◌, transfer, swap,
}
use xian_dex_automation.Bootstrap.Setup.{Confirmation, require_success}
use xian_dex_automation.Bootstrap.Vault.{Entry, funded, confirmed, balance_value}

pub record KeeperExercisePlan : Type 0 where
  pub call : Plan
  pub quote : Decimal
  pub estimated_chi : ℤ
  pub supplied_chi : ℤ
  pub chi_cost : ℤ
  pub required_currency : Decimal

-- Both integers are positive where they are divided.
ceiling : ℤ → ℤ → ℕ
ceiling n d = (pos_part n + pos_part d - 1) / pos_part d

unfoldable pub required_keeper_currency : Context → ℤ → ℤ → Outcome Decimal
unfolding ceiling
required_keeper_currency c supplied_chi chi_cost =
    if leb_ℤ supplied_chi (pos 0)
    then raised (bootstrap_error "keeper chi estimate must be positive")
    else if leb_ℤ chi_cost (pos 0)
    then raised (bootstrap_error "chi_cost.current_value must be positive")
    else ok (of_int c (ceiling supplied_chi chi_cost))

-- `rules[0]`.
first_rule : List RuleConfig → Outcome RuleConfig
first_rule [] = raised (exn "IndexError" "list index out of range")
first_rule (r ∷ rules) = ok r

-- A deep copy of the configuration, with `wallet.execute` set.
abbrev with_execute : Bool → AutomationConfig → AutomationConfig
with_execute value config = record config { wallet = record config.wallet { execute = value } }

-- `max(a, b)` and `max(Decimal(0), d)`.
abbrev larger : Decimal → Decimal → Decimal
larger a b = if ltb_ℤ a b then b else a

-- What the payload says of the funding.
pub record Funding : Type 0 where
  pub target : Decimal
  pub balance_before : Decimal
  pub top_up : Decimal
  pub submission : Option Confirmation

module _ (p : Platform) (o : Outside) where
  -- `quote * ((BPS - Decimal(max_slippage_bps)) / BPS)`.
  minimum_out : Decimal → ℕ → Decimal
  minimum_out quote slippage =
      let c = p.context in
      let bps = of_int c 10000 in c.mul quote (c.div (c.sub bps (of_int c slippage)) bps)

  -- `_prepare_exercise`; the session of the client is closed behind it.
  unfoldable pub prepare_exercise : AutomationConfig → Script KeeperExercisePlan
  unfolding first_rule minimum_out required_keeper_currency
  prepare_exercise config = do
    rule ← lift (first_rule config.rules)
    client ← embed (DexClient.enter p (with_execute false config))
    snapshot ← embed (DexClient.get_pair_snapshot p rule.trigger.pair_id)
    quote ← embed (DexClient.quote_exact_in p client snapshot rule.action.src rule.action.amount_in)
    call ← embed (
        DexClient.build_swap_exact_in_call p client snapshot rule.action
          (minimum_out quote rule.action.max_slippage_bps))
    (estimated_chi, supplied_chi) ← query (λ s. o.estimate_chi s call)
    chi_cost ← query o.chi_cost
    required ← lift (required_keeper_currency p.context supplied_chi chi_cost)
    pure (record {
      call = call;
      quote = quote;
      estimated_chi = estimated_chi;
      supplied_chi = supplied_chi;
      chi_cost = chi_cost;
      required_currency = required;
    })

  -- `DexClient.submit_call_plan`, once the client is connected.
  unfoldable pub submit_call_plan : Plan → Option ℤ → Script TransactionSubmission
  submit_call_plan plan chi = perform o.send_transaction (swap plan chi)

  -- `DexClient.swap_exact_in`, which puts the two together.
  unfoldable pub swap_exact_in :
      Client
      → PairSnapshot
      → SwapExactInActionConfig
      → Decimal
      → Option ℤ
      → Script TransactionSubmission
  swap_exact_in client snapshot action amount_out_min chi = do
    plan ← embed (DexClient.build_swap_exact_in_call p client snapshot action amount_out_min)
    submit_call_plan plan chi

  -- `_exercise`.
  unfoldable pub exercise : AutomationConfig → KeeperExercisePlan → Script Confirmation
  exercise config plan = do
    client ← embed (DexClient.enter p (with_execute true config))
    submission ← submit_call_plan plan.call (some plan.supplied_chi)
    lift (require_success "keeper vault swap" submission)

  unfoldable pub send_top_up : String → Decimal → Script (Option Confirmation)
  send_top_up keeper top_up = do
    done ← confirmed p.context p.str.to_decimal o "keeper funding" (transfer top_up keeper)
    pure (some done)

  unfoldable pub top_up_keeper : String → Decimal → Script (Option Confirmation)
  unfolding send_top_up
  top_up_keeper keeper top_up =
      if ltb_ℤ (pos 0) top_up then send_top_up keeper top_up else pure none

  -- The second `with Xian(...)` of `main`.
  unfoldable pub fund_keeper : Arguments → String → KeeperExercisePlan → Script Funding
  unfolding top_up_keeper
  fund_keeper a keeper plan = do
    let target = larger a.keeper_gas_funding plan.required_currency
    text ← query (λ s. o.balance_of s "currency" keeper)
    balance ← lift (balance_value p.str.to_decimal text)
    let top_up = larger (pos 0) (o.sub target balance)
    submission ← top_up_keeper keeper top_up
    pure (record {
      target = target;
      balance_before = balance;
      top_up = top_up;
      submission = submission;
    })
