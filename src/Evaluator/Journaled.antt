-- ===== src/Evaluator/Journaled.antt =====
-- What the worker sends, and the journal on disk at that moment (worker.py, execution.py).
use xian_dex_automation.Base.{ℕ, none}
use xian_dex_automation.Runtime.{Platform, World}
use xian_dex_automation.Planning.{Client}
use xian_dex_automation.Execution.Journaled.{
  AllBacked, AllBacked-quiet, transact-AllBacked, reconcile_execution-Keeps-AllBacked,
}
use xian_dex_automation.Evaluator.Rounds.{evaluate_pair_once-Keeps, evaluate_event_pair-Keeps}
use xian_dex_automation.Evaluator.{AutomationWorker, evaluate_pair_once, evaluate_event_pair}

module _ (p : Platform) where
  -- If each broadcast so far was made while the journal's slot held a row with the broadcast
  -- transaction's hash, marked as attempted, then this is still so after `evaluate_pair_once`,
  -- whatever the rules, the journal and the answers of the network and of the commits.
  pub evaluate_pair_once-AllBacked :
      (worker : AutomationWorker) (n : ℕ) (w : World)
      → AllBacked w
      → AllBacked (evaluate_pair_once p worker n w).1
  evaluate_pair_once-AllBacked worker n w h =
      (evaluate_pair_once-Keeps p AllBacked-quiet (λ A f t _. transact-AllBacked f t)
          (λ allow. reconcile_execution-Keeps-AllBacked p allow none) worker n).at
        w h

  -- If each broadcast so far was made while the journal's slot held a row with the broadcast
  -- transaction's hash, marked as attempted, then this is still so after `_evaluate_event_pair`,
  -- for any number of rounds, whatever the rules, the journal and the answers of the network and of
  -- the commits.
  pub evaluate_event_pair-AllBacked :
      (rounds : ℕ) (worker : AutomationWorker) (client : Client) (n : ℕ) (w : World)
      → AllBacked w
      → AllBacked (evaluate_event_pair p rounds worker client n w).1
  evaluate_event_pair-AllBacked rounds worker client n w h =
      (evaluate_event_pair-Keeps p AllBacked-quiet (λ A f t _. transact-AllBacked f t)
          (λ allow. reconcile_execution-Keeps-AllBacked p allow none) rounds worker client n).at
        w h
