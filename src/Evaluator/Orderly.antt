-- ===== src/Evaluator/Orderly.antt =====
-- The store at every call of the worker, and the phases of its journal (worker.py, execution.py,
-- storage.py).
use xian_dex_automation.Base.{ℕ, Bool, Option, none, String}
use xian_dex_automation.Submission.{PreparedSwap}
use xian_dex_automation.Runtime.{Platform, World}
use xian_dex_automation.Runtime.Keeps.{Keeps, Keeps-ask, Keeps-bind, Keeps-lift}
use xian_dex_automation.Runtime.Orderly.{Orderly, Orderly-quiet, transact-Orderly, called-Orderly}
use xian_dex_automation.Transport
use xian_dex_automation.Transport.Silence.{check_chain-Keeps}
use xian_dex_automation.Planning.{Client}
use xian_dex_automation.Execution.{reconcile_execution}
use xian_dex_automation.Execution.Invariants.{reconcile_execution-Keeps}
use xian_dex_automation.Evaluator.Rounds.{evaluate_event_pair-Keeps}
use xian_dex_automation.Evaluator.{AutomationWorker, evaluate_event_pair}

module _ (p : Platform) where
  broadcast-Keeps-Orderly : (s : PreparedSwap) → Keeps Orderly (Transport.broadcast p s)
  unfolding Transport.broadcast
  broadcast-Keeps-Orderly s =
      Keeps-bind _ _ (check_chain-Keeps Orderly-quiet p s)
        (λ _. Keeps-bind _ _ (Keeps-ask _ _ (called-Orderly _)) (λ r. Keeps-lift _))

  pub reconcile_execution-Keeps-Orderly :
      (allow : Bool) (url : Option String) → Keeps Orderly (reconcile_execution p allow url)
  reconcile_execution-Keeps-Orderly allow url =
      reconcile_execution-Keeps p Orderly-quiet transact-Orderly allow
        (λ on. broadcast-Keeps-Orderly) url

  -- If the store is consistent, was so at each call so far, and the journal made one step from each
  -- call to the next, then all this is still so after `_evaluate_event_pair`, for any number of
  -- rounds, whatever the network and the commits answered: at each of its calls, which is where
  -- the process may die, the journal's swap has its pending run and no other run is pending, and a
  -- journal that holds a swap is given no other before it is empty.
  pub evaluate_event_pair-Orderly :
      (rounds : ℕ) (worker : AutomationWorker) (client : Client) (n : ℕ) (w : World)
      → Orderly w
      → Orderly (evaluate_event_pair p rounds worker client n w).1
  evaluate_event_pair-Orderly rounds worker client n w h =
      (evaluate_event_pair-Keeps p Orderly-quiet transact-Orderly
          (λ allow. reconcile_execution-Keeps-Orderly allow none) rounds worker client n).at
        w h
