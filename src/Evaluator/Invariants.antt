-- ===== src/Evaluator/Invariants.antt =====
-- What the evaluation of a pair keeps (worker.py).
use xian_dex_automation.Base.{ℕ, String, Bool, true, not, Option, none, List, [], ◌∷◌, ◌≡◌}
use xian_dex_automation.Outcome.{Exn}
use xian_dex_automation.Config.{AutomationConfig, RuleConfig}
use xian_dex_automation.Dex.{PairSnapshot}
use xian_dex_automation.Storage.{Transaction}
use xian_dex_automation.Storage.Consistency.Phases.{IsMethod}
use xian_dex_automation.Runtime.{World, Call, Platform, Request, transact}
use xian_dex_automation.Runtime.Keeps.{
  Keeps, keeps_rules, Keeps-Silent, Keeps-bind, Keeps-if, Keeps-pure, Keeps-reads, IsQuiet, Silent,
}
use xian_dex_automation.Planning.{Client}
use xian_dex_automation.DexClient.Silence.{get_pair_snapshot-Keeps}
use xian_dex_automation.Execution.{reconcile_execution, reconcile_uncertain_rule}
use xian_dex_automation.Worker.Invariants.{evaluate_rule-Keeps}
use xian_dex_automation.Evaluator.{
  AutomationWorker, ask_lock, evaluate_rules, evaluate_pair_locked, evaluate_pair, matching_rules,
  is_pending, blocked_recovery,
}

module _ (p : Platform) {P : World → Type 0} (q : IsQuiet P)
    (writes : (A : Type 0) (failure : List Call → Option Exn) (t : Transaction A)
      → IsMethod A t
      → Keeps P (transact failure t))
    (rechecks : (id : String) → Keeps P (reconcile_uncertain_rule p id)) (c : AutomationConfig)
    (recovers : c.wallet.execute ≡ true → Keeps P (reconcile_execution p true none))
    (starts : Keeps P (reconcile_execution p c.wallet.execute none)) where
  evaluate_rules-Keeps :
      (client : Client) (s : PairSnapshot) (rs : List RuleConfig)
      → Keeps P (evaluate_rules p c client s rs)
  unfolding evaluate_rules
  evaluate_rules-Keeps client s [] = search keeps_rules
  evaluate_rules-Keeps client s (r ∷ rs) =
      Keeps-bind _ _ (evaluate_rule-Keeps p q writes rechecks c recovers client r s) (λ result.
        Keeps-if (is_pending result.status) _ _ (Keeps-pure _)
          (Keeps-bind _ _ (evaluate_rules-Keeps client s rs) (λ results. Keeps-pure _)))

  pub evaluate_pair_locked-Keeps :
      (client : Client) (n : ℕ) → Keeps P (evaluate_pair_locked p c client n)
  unfolding evaluate_pair_locked
  evaluate_pair_locked-Keeps client n = Keeps-bind _ _ starts (λ recovered.
      Keeps-if (blocked_recovery p recovered) _ _ (Keeps-pure _) (
        Keeps-bind _ _ (get_pair_snapshot-Keeps q p n) (λ s.
          Keeps-bind _ _ (evaluate_rules-Keeps client s (matching_rules c.rules n))
            (λ results. Keeps-pure _))))

module _ (p : Platform) {P : World → Type 0} (q : IsQuiet P) where
  pub ask_lock-Keeps : (r : Request) (f : List Call → Bool) → Silent r → Keeps P (ask_lock p r f)
  unfolding ask_lock
  ask_lock-Keeps r f s = Keeps-Silent q r _ s

  -- The locks and the revision check send nothing.
  pub evaluate_pair-Keeps :
      (worker : AutomationWorker) (client : Client) (n : ℕ)
      → Keeps P (evaluate_pair_locked p worker.config client n)
      → Keeps P (evaluate_pair p worker client n)
  unfolding evaluate_pair
  evaluate_pair-Keeps worker client n h = Keeps-bind _ _ (ask_lock-Keeps _ _ tt) (λ admitted.
      Keeps-if (not admitted) _ _ (Keeps-pure _) (
        Keeps-bind _ _ (ask_lock-Keeps _ _ tt) (λ acquired.
          Keeps-bind _ _ (Keeps-reads _) (λ changed.
            Keeps-if (not acquired) _ _ (Keeps-pure _) (Keeps-if changed _ _ (Keeps-pure _) h)))))
