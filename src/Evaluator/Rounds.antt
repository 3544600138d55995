-- ===== src/Evaluator/Rounds.antt =====
-- What the entry points of the worker keep, if recovery keeps it (worker.py).
use xian_dex_automation.Base.{ℕ, zero, suc, Bool, true, Option, none, some, List}
use xian_dex_automation.Outcome.{Exn}
use xian_dex_automation.Report.{Report}
use xian_dex_automation.Storage.{Transaction}
use xian_dex_automation.Storage.Consistency.Phases.{IsMethod}
use xian_dex_automation.Runtime.{Platform, Action, World, Call, transact}
use xian_dex_automation.Runtime.Keeps.{
  Keeps, Keeps-bind, Keeps-if, Keeps-pure, Keeps-lift, Keeps-reads, IsQuiet,
}
use xian_dex_automation.Planning.{Client}
use xian_dex_automation.DexClient.Silence.{enter-Keeps}
use xian_dex_automation.Execution.{reconcile_execution}
use xian_dex_automation.Execution.Invariants.{reconcile_uncertain_rule-Keeps}
use xian_dex_automation.Evaluator.Invariants.{
  evaluate_pair-Keeps, evaluate_pair_locked-Keeps, ask_lock-Keeps,
}
use xian_dex_automation.Evaluator.{
  AutomationWorker, recover_once, evaluate_pair, unless_recovered, evaluate_pair_once, keep_waiting,
  wait_for_execution, evaluate_event_pair,
}

module _ (p : Platform) {P : World → Type 0} (q : IsQuiet P)
    (writes : (A : Type 0) (failure : List Call → Option Exn) (t : Transaction A)
      → IsMethod A t
      → Keeps P (transact failure t))
    (recovers : (allow : Bool) → Keeps P (reconcile_execution p allow none)) where
  evaluate_any_pair-Keeps :
      (worker : AutomationWorker) (client : Client) (n : ℕ)
      → Keeps P (evaluate_pair p worker client n)
  evaluate_any_pair-Keeps worker client n = evaluate_pair-Keeps p q worker client n (
      evaluate_pair_locked-Keeps p q writes (reconcile_uncertain_rule-Keeps p q writes)
        worker.config (λ _. recovers true) (recovers worker.config.wallet.execute) client n)

  pub recover_once-Keeps : (worker : AutomationWorker) → Keeps P (recover_once p worker)
  unfolding recover_once
  recover_once-Keeps worker = Keeps-bind _ _ (ask_lock-Keeps p q _ _ tt) (λ claimed.
      Keeps-bind _ _ (Keeps-reads _) (λ config. Keeps-if _ _ _ (Keeps-pure _) (
        Keeps-bind _ _ (ask_lock-Keeps p q _ _ tt)
          (λ admitted. Keeps-if _ _ _ (Keeps-pure _) (recovers _)))))

  unless_recovered-Keeps :
      (worker : AutomationWorker) (n : ℕ) (r : Option Report)
      → Keeps P (unless_recovered p worker n r)
  unfolding unless_recovered
  unless_recovered-Keeps worker n (some r) = Keeps-pure _
  unless_recovered-Keeps worker n none =
      Keeps-bind _ _ (enter-Keeps q p worker.config)
        (λ client. evaluate_any_pair-Keeps worker client n)

  pub evaluate_pair_once-Keeps :
      (worker : AutomationWorker) (n : ℕ) → Keeps P (evaluate_pair_once p worker n)
  unfolding evaluate_pair_once
  evaluate_pair_once-Keeps worker n = Keeps-bind _ _ (recover_once-Keeps worker) (λ r.
      Keeps-bind _ _ (Keeps-reads _)
        (λ c. Keeps-bind _ _ (Keeps-reads _) (λ g. unless_recovered-Keeps _ n r)))

  keep_waiting-Keeps :
      (again : Action Bool) (r : Option Report) → Keeps P again → Keeps P (keep_waiting p again r)
  unfolding keep_waiting
  keep_waiting-Keeps again none h = Keeps-pure _
  keep_waiting-Keeps again (some r) h = Keeps-if _ _ _ h (Keeps-pure _)

  wait_for_execution-Keeps :
      (polls : ℕ) (worker : AutomationWorker) → Keeps P (wait_for_execution p polls worker)
  unfolding wait_for_execution
  wait_for_execution-Keeps zero worker = Keeps-pure _
  wait_for_execution-Keeps (suc polls) worker =
      Keeps-bind _ _ (recover_once-Keeps worker)
        (λ r. keep_waiting-Keeps _ r (wait_for_execution-Keeps polls worker))

  pub evaluate_event_pair-Keeps :
      (rounds : ℕ) (worker : AutomationWorker) (client : Client) (n : ℕ)
      → Keeps P (evaluate_event_pair p rounds worker client n)
  unfolding evaluate_event_pair
  evaluate_event_pair-Keeps zero worker client n = Keeps-pure _
  evaluate_event_pair-Keeps (suc rounds) worker client n =
      Keeps-bind _ _ (evaluate_any_pair-Keeps worker client n) (λ rs.
        Keeps-if _ _ _ (Keeps-lift _) (
          Keeps-if _ _ _ (wait_for_execution-Keeps rounds worker)
            (Keeps-if _ _ _ (evaluate_event_pair-Keeps rounds worker client n) (Keeps-pure _))))
