-- ===== src/Worker.antt =====
-- The evaluation of rules (src/xian_dex_automation/worker.py).
pub mod Invariants
use xian_dex_automation.Base.{
  ℕ, zero, suc, String, Bool, true, false, not, ◌&&◌, ◌||◌, Option, none, some, List, [], ◌∷◌, ◌++◌,
  select, insert, ◌==◌, if◌then◌else◌,
}
use xian_dex_automation.Outcome.{Outcome, ok, raised, exn, Exn}
use xian_dex_automation.Decimal.{Decimal, of_int}
use xian_dex_automation.Time.{Instant}
use xian_dex_automation.Report.{
  Details, Json, null, boolean, number, text, amount, Report, Status, pending, failed, dry_run,
  skipped, Reason, execution_busy, configuration_draining, configuration_changed, recovery_pending,
  submission_pending, submission_failed, quote_failed, rule_outcome_unknown,
}
use xian_dex_automation.Config.{
  AutomationConfig, RuleConfig, StrategyVaultConfig, CustodyMode, direct_wallet, strategy_vault,
}
use xian_dex_automation.Dex.{PairSnapshot}
use xian_dex_automation.Rules.{RuleRuntimeState, RuleDecision, evaluate_price_move}
use xian_dex_automation.Submission.{PreparedSwap}
use xian_dex_automation.Storage.{
  Database, append_run, get_rule_state, save_rule_state, active_config, config_generation,
  begin_execution,
}
use xian_dex_automation.Runtime.{
  Action, ask, pure, lift, reads, transact, attempt, Attempt, worked, failed_with, ◌>>=◌, ◌>>◌,
  Request, Platform, utc_now,
}
use xian_dex_automation.Planning.{Client}
use xian_dex_automation.DexClient
use xian_dex_automation.Execution.{reconcile_execution, reconcile_uncertain_rule}

abbrev json_amount : Option Decimal → Json
json_amount none = null
json_amount (some d) = amount d

abbrev mode_text : CustodyMode → Json
mode_text direct_wallet = text "direct_wallet"
mode_text strategy_vault = text "strategy_vault"

abbrev vault_contract : Option StrategyVaultConfig → Json
vault_contract none = null
vault_contract (some v) = text v.contract

-- The dictionary `details` of an evaluation.
abbrev evaluation_details : AutomationConfig → PairSnapshot → RuleDecision → Details
evaluation_details c s d =
    ("pair_id", number s.pair_id)
    ∷ ("token0", text s.token0)
    ∷ ("token1", text s.token1)
    ∷ ("reserve0", amount s.reserve0)
    ∷ ("reserve1", amount s.reserve1)
    ∷ ("current_price", json_amount d.current_price)
    ∷ ("change_bps", json_amount d.change_bps)
    ∷ ("execute_enabled", boolean c.wallet.execute)
    ∷ ("custody_mode", mode_text c.custody.mode)
    ∷ ("strategy_contract", vault_contract c.custody.vault)
    ∷ []

abbrev with_quote : Details → RuleConfig → Decimal → Decimal → Details
with_quote d r quote least = insert "src" (text r.action.src) (
    insert "amount_out_min" (amount least) (
      insert "quoted_amount_out" (amount quote) (insert "amount_in" (amount r.action.amount_in) d)))

abbrev report : Option String → Status → Reason → Details → Report
report rule_id status reason details = record {
  rule_id = rule_id;
  status = status;
  reason = reason;
  tx_hash = none;
  details = details;
}

-- A result with no key but `status`, `reason` and `pair_id`.
abbrev pub skip : Reason → Report
skip why = report none skipped why []

module _ (p : Platform) where
  -- `store.append_run(...)` at the present time, with the result dictionary of the same words.
  log_run : RuleConfig → Status → Reason → Details → Action Report
  log_run r status reason details = do
    now ← utc_now p
    transact p.net.failure (append_run r.id status reason none details now)
    pure (report (some r.id) status reason details)

  -- The baseline of a decision that does not execute.
  keep_baseline : RuleConfig → RuleRuntimeState → Option Decimal → Action (Unit {0})
  keep_baseline r state none = pure tt
  keep_baseline r state (some price) = transact p.net.failure (
      save_rule_state r.id
        (record { baseline_price = some price; last_action_at = state.last_action_at }))

  -- `quote * ((BPS - max_slippage_bps) / BPS)`
  unfoldable pub least_out : Decimal → ℕ → Decimal
  least_out quote slippage_bps =
      let c = p.context in
      c.mul quote (c.div (c.sub (of_int c 10000) (of_int c slippage_bps)) (of_int c 10000))

  -- The branch of `_evaluate_rule` with `wallet.execute` off.
  dry_run_rule : RuleConfig → RuleDecision → Instant → Details → Action Report
  unfolding log_run
  dry_run_rule r d now details = do
    transact p.net.failure (
        save_rule_state r.id
          (record { baseline_price = d.next_baseline_price; last_action_at = some now }))
    log_run r dry_run d.reason details

  -- The result of the last `reconcile_execution`, which has a journal to read.
  returned : Option Report → Outcome Report
  returned (some r) = ok r
  returned none = raised (exn "TypeError" "'NoneType' object is not subscriptable")

  submit : RuleConfig → RuleDecision → Details → PreparedSwap → Action Report
  unfolding returned
  submit r d details prepared = do
    now ← utc_now p
    transact p.net.failure
        (begin_execution r.id prepared d.next_baseline_price d.reason details now)
    result ← reconcile_execution p true none
    lift (returned result)

  -- What follows the attempt to sign.
  submit_signed : RuleConfig → RuleDecision → Details → Attempt PreparedSwap → Action Report
  unfolding submit log_run
  submit_signed r d details (failed_with e) =
      log_run r failed submission_failed (insert "error" (text e.message) details)
  submit_signed r d details (worked swap) = submit r d details swap

  -- The branch with `wallet.execute` on: sign, write down, submit.
  execute_rule :
      Client → RuleConfig → PairSnapshot → RuleDecision → Decimal → Details → Action Report
  unfolding submit_signed
  execute_rule client r s d least details = do
    prepared ← attempt (DexClient.prepare_swap p client s r.action least)
    submit_signed r d details prepared

  -- What follows the attempt to quote.
  act_on_quote :
      AutomationConfig
      → Client
      → RuleConfig
      → PairSnapshot
      → RuleDecision
      → Instant
      → Attempt Decimal
      → Action Report
  unfolding dry_run_rule execute_rule log_run
  act_on_quote c client r s d now (failed_with e) =
      log_run r failed quote_failed (insert "error" (text e.message) (evaluation_details c s d))
  act_on_quote c client r s d now (worked quote) =
      let least = least_out quote r.action.max_slippage_bps in
      let details = with_quote (evaluation_details c s d) r quote least in
      if c.wallet.execute
      then execute_rule client r s d least details
      else dry_run_rule r d now details

  -- `_evaluate_rule` from the quote on, for a decision to execute.
  act :
      AutomationConfig → Client → RuleConfig → PairSnapshot → RuleDecision → Instant → Action Report
  unfolding act_on_quote
  act c client r s d now = do
    quoted ← attempt (DexClient.quote_exact_in p client s r.action.src r.action.amount_in)
    act_on_quote c client r s d now quoted

  decide : AutomationConfig → Client → RuleConfig → PairSnapshot → Action Report
  unfolding keep_baseline act
  decide c client r s = do
    now ← utc_now p
    state ← reads (get_rule_state r.id)
    d ← lift (evaluate_price_move p.context r s state now)
    if d.should_execute then act c client r s d now else (do
      keep_baseline r state d.next_baseline_price
      pure (report (some r.id) skipped d.reason (evaluation_details c s d)))

  -- `_evaluate_rule`.
  pub evaluate_rule : AutomationConfig → Client → RuleConfig → PairSnapshot → Action Report
  unfolding decide
  evaluate_rule c client r s = do
    held ← reconcile_uncertain_rule p r.id
    if held then pure (report (some r.id) skipped rule_outcome_unknown []) else decide c client r s
