-- ===== src/Evaluator/Fuel.antt =====
-- The number of rounds of the worker's loops (worker.py).
use xian_dex_automation.Base.{ℕ, zero, suc, Bool, true, false, ◌≡◌, ◌≢◌, refl, Option, none, some}
use xian_dex_automation.Outcome.{ok}
use xian_dex_automation.Report.{Report}
use xian_dex_automation.Runtime.{Platform, Action, World, pure}
use xian_dex_automation.Runtime.Agrees.{Agrees, Agrees-refl, Agrees-if, Agrees-bind}
use xian_dex_automation.Planning.{Client}
use xian_dex_automation.Evaluator.{
  AutomationWorker, any, is_change, is_submission, execution_blocked, keep_waiting,
  wait_for_execution, evaluate_event_pair,
}

pub out_of_rounds : (n : Action Bool) → Agrees (pure false) n
unfolding pure
out_of_rounds n = record { at = λ w h. absurd (h refl) }

module _ (p : Platform) where
  keep_waiting-Agrees :
      (m n : Action Bool) (r : Option Report)
      → Agrees m n
      → Agrees (keep_waiting p m r) (keep_waiting p n r)
  unfolding keep_waiting
  keep_waiting-Agrees m n none k = Agrees-refl _
  keep_waiting-Agrees m n (some r) k =
      Agrees-if (execution_blocked r) _ _ _ _ k (Agrees-refl (pure true))

  wait_for_execution-Agrees :
      (polls : ℕ) (worker : AutomationWorker)
      → Agrees (wait_for_execution p polls worker) (wait_for_execution p (suc polls) worker)
  unfolding wait_for_execution
  wait_for_execution-Agrees zero worker = out_of_rounds _
  wait_for_execution-Agrees (suc polls) worker =
      Agrees-bind _ _ _ (λ r. keep_waiting-Agrees _ _ r (wait_for_execution-Agrees polls worker))

  evaluate_event_pair-Agrees :
      (rounds : ℕ) (worker : AutomationWorker) (client : Client) (n : ℕ)
      → Agrees
          (evaluate_event_pair p rounds worker client n)
          (evaluate_event_pair p (suc rounds) worker client n)
  unfolding evaluate_event_pair
  evaluate_event_pair-Agrees zero worker client n = out_of_rounds _
  evaluate_event_pair-Agrees (suc rounds) worker client n = Agrees-bind _ _ _ (λ rs.
      Agrees-if (any (λ r. is_change r.reason) rs) _ _ _ _ (Agrees-refl _) (
        Agrees-if (any (λ r. is_submission r.reason) rs) _ _ _ _
          (wait_for_execution-Agrees rounds worker)
          (Agrees-if (any execution_blocked rs) _ _ _ _
            (evaluate_event_pair-Agrees rounds worker client n) (Agrees-refl (pure true)))))

  -- Where `_evaluate_event_pair` does not run out of its rounds, one round more gives the same
  -- result, the same database and the same calls.
  pub evaluate_event_pair-suc :
      (rounds : ℕ) (worker : AutomationWorker) (client : Client) (n : ℕ) (w : World)
      → (evaluate_event_pair p rounds worker client n w).0 ≢ ok false
      → evaluate_event_pair p (suc rounds) worker client n w
        ≡ evaluate_event_pair p rounds worker client n w
  evaluate_event_pair-suc rounds worker client n w h =
      (evaluate_event_pair-Agrees rounds worker client n).at w h
