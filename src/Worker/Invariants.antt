-- ===== src/Worker/Invariants.antt =====
-- What the evaluation of a rule keeps, for any predicate on the calls that recovery keeps.
use xian_dex_automation.Base.{String, true, ◌≢◌, arith, Option, none, some, List, ◌≡◌}
use xian_dex_automation.Outcome.{Exn}
use xian_dex_automation.Decimal.{Decimal}
use xian_dex_automation.Time.{Instant}
use xian_dex_automation.Report.{Details, Status, pending, dry_run, failed, Reason}
use xian_dex_automation.Config.{AutomationConfig, RuleConfig}
use xian_dex_automation.Dex.{PairSnapshot}
use xian_dex_automation.Rules.{RuleRuntimeState, RuleDecision}
use xian_dex_automation.Submission.{PreparedSwap}
use xian_dex_automation.Storage.{Transaction}
use xian_dex_automation.Storage.Consistency.Phases.{IsMethod, append, save_state, begin}
use xian_dex_automation.Runtime.{
  World, Call, Platform, Attempt, worked, failed_with, transact, utc_now,
}
use xian_dex_automation.Runtime.Keeps.{
  Keeps, keeps_rules, Keeps-Silent, Keeps-attempt, Keeps-bind, Keeps-lift, Keeps-pure, Keeps-if_eq,
  IsQuiet,
}
use xian_dex_automation.Planning.{Client}
use xian_dex_automation.DexClient.Silence.{quote_exact_in-Keeps, prepare_swap-Keeps}
use xian_dex_automation.Execution.{reconcile_execution, reconcile_uncertain_rule}
use xian_dex_automation.Worker.{
  log_run, keep_baseline, dry_run_rule, submit, submit_signed, execute_rule, act_on_quote, act,
  decide, evaluate_rule,
}

module _ (p : Platform) {P : World → Type 0} (q : IsQuiet P)
    (writes : (A : Type 0) (failure : List Call → Option Exn) (t : Transaction A)
      → IsMethod A t
      → Keeps P (transact failure t))
    (rechecks : (id : String) → Keeps P (reconcile_uncertain_rule p id)) (c : AutomationConfig)
    (recovers : c.wallet.execute ≡ true → Keeps P (reconcile_execution p true none)) where
  utc_now-Keeps : Keeps P (utc_now p)
  unfolding utc_now
  utc_now-Keeps = Keeps-Silent q _ _ tt

  log_run-Keeps :
      (r : RuleConfig) (s : Status) (why : Reason) (d : Details)
      → s ≢ pending
      → Keeps P (log_run p r s why d)
  unfolding log_run
  log_run-Keeps r s why d ns =
      Keeps-bind _ _ utc_now-Keeps
        (λ now. Keeps-bind _ _ (writes _ _ _ (append r.id s why none d now ns)) (λ _. Keeps-pure _))

  keep_baseline-Keeps :
      (r : RuleConfig) (s : RuleRuntimeState) (o : Option Decimal) → Keeps P (keep_baseline p r s o)
  unfolding keep_baseline
  keep_baseline-Keeps r s none = search keeps_rules
  keep_baseline-Keeps r s (some price) = writes _ _ _ (save_state _ _)

  dry_run_rule-Keeps :
      (r : RuleConfig) (d : RuleDecision) (now : Instant) (ds : Details)
      → Keeps P (dry_run_rule p r d now ds)
  unfolding dry_run_rule
  dry_run_rule-Keeps r d now ds =
      Keeps-bind _ _ (writes _ _ _ (save_state _ _))
        (λ _. log_run-Keeps r dry_run _ _ (λ e. ground arith))

  submit-Keeps :
      (r : RuleConfig) (d : RuleDecision) (ds : Details) (s : PreparedSwap)
      → c.wallet.execute ≡ true
      → Keeps P (submit p r d ds s)
  unfolding submit
  submit-Keeps r d ds s e = Keeps-bind _ _ utc_now-Keeps (λ now.
      Keeps-bind _ _ (writes _ _ _ (begin _ _ _ _ _ _))
        (λ _. Keeps-bind _ _ (recovers e) (λ result. Keeps-lift _)))

  submit_signed-Keeps :
      (r : RuleConfig) (d : RuleDecision) (ds : Details) (a : Attempt PreparedSwap)
      → c.wallet.execute ≡ true
      → Keeps P (submit_signed p r d ds a)
  unfolding submit_signed
  submit_signed-Keeps r d ds (worked s) e = submit-Keeps r d ds s e
  submit_signed-Keeps r d ds (failed_with x) e = log_run-Keeps r failed _ _ (λ e. ground arith)

  execute_rule-Keeps :
      (client : Client) (r : RuleConfig) (s : PairSnapshot) (d : RuleDecision) (least : Decimal)
      (ds : Details)
      → c.wallet.execute ≡ true
      → Keeps P (execute_rule p client r s d least ds)
  unfolding execute_rule
  execute_rule-Keeps client r s d least ds e =
      Keeps-bind _ _ (Keeps-attempt _ (prepare_swap-Keeps q p client s r.action least))
        (λ a. submit_signed-Keeps r d ds a e)

  act_on_quote-Keeps :
      (client : Client) (r : RuleConfig) (s : PairSnapshot) (d : RuleDecision) (now : Instant)
      (a : Attempt Decimal)
      → Keeps P (act_on_quote p c client r s d now a)
  unfolding act_on_quote
  act_on_quote-Keeps client r s d now (failed_with x) =
      log_run-Keeps r failed _ _ (λ e. ground arith)
  act_on_quote-Keeps client r s d now (worked quote) =
      Keeps-if_eq c.wallet.execute _ _ (λ e. execute_rule-Keeps client r s d _ _ e)
        (λ _. dry_run_rule-Keeps r d now _)

  act-Keeps :
      (client : Client) (r : RuleConfig) (s : PairSnapshot) (d : RuleDecision) (now : Instant)
      → Keeps P (act p c client r s d now)
  unfolding act
  act-Keeps client r s d now =
      Keeps-bind _ _
        (Keeps-attempt _ (quote_exact_in-Keeps q p client s r.action.src r.action.amount_in))
        (act_on_quote-Keeps client r s d now)

  decide-Keeps :
      (client : Client) (r : RuleConfig) (s : PairSnapshot) → Keeps P (decide p c client r s)
  unfolding decide
  decide-Keeps client r s =
      search (keeps_rules, utc_now-Keeps, act-Keeps, keep_baseline-Keeps) depth 10

  pub evaluate_rule-Keeps :
      (client : Client) (r : RuleConfig) (s : PairSnapshot) → Keeps P (evaluate_rule p c client r s)
  unfolding evaluate_rule
  evaluate_rule-Keeps client r s = search (keeps_rules, rechecks, decide-Keeps)
