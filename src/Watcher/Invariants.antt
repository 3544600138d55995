-- ===== src/Watcher/Invariants.antt =====
-- What the worker's watch keeps (worker.py).
use xian_dex_automation.Base.{
  ℕ, zero, suc, String, Bool, not, Option, none, some, List, [], ◌∷◌, is_none,
}
use xian_dex_automation.Outcome.{Exn}
use xian_dex_automation.Storage.{Transaction}
use xian_dex_automation.Storage.Consistency.Phases.{IsMethod, save_at}
use xian_dex_automation.Runtime.{Platform, World, Call, transact}
use xian_dex_automation.Runtime.Keeps.{
  Keeps, Keeps-bind, Keeps-if, Keeps-pure, Keeps-lift, Keeps-reads, Keeps-queries, IsQuiet,
}
use xian_dex_automation.Runtime.Orderly.{Orderly, Orderly-quiet, transact-Orderly}
use xian_dex_automation.Planning.{Client}
use xian_dex_automation.DexClient.Silence.{enter-Keeps}
use xian_dex_automation.Execution.{reconcile_execution}
use xian_dex_automation.Execution.Journaled.{
  AllBacked, AllBacked-quiet, transact-AllBacked, reconcile_execution-Keeps-AllBacked,
}
use xian_dex_automation.Evaluator.{AutomationWorker}
use xian_dex_automation.Evaluator.Invariants.{ask_lock-Keeps}
use xian_dex_automation.Evaluator.Rounds.{recover_once-Keeps, evaluate_event_pair-Keeps}
use xian_dex_automation.Evaluator.Orderly.{reconcile_execution-Keeps-Orderly}
use xian_dex_automation.Watcher.{
  PairsEvent, evaluate_pairs, save_position, watch_event, watch_all, watch_events, settle_pending,
  run_configuration,
}

module _ (p : Platform) {P : World → Type 0} (q : IsQuiet P)
    (writes : (A : Type 0) (failure : List Call → Option Exn) (t : Transaction A)
      → IsMethod A t
      → Keeps P (transact failure t))
    (recovers : (allow : Bool) → Keeps P (reconcile_execution p allow none)) where
  evaluate_pairs-Keeps :
      (rounds : ℕ) (worker : AutomationWorker) (client : Client) (ns : List ℕ)
      → Keeps P (evaluate_pairs p rounds worker client ns)
  unfolding evaluate_pairs
  evaluate_pairs-Keeps rounds worker client [] = Keeps-pure _
  evaluate_pairs-Keeps rounds worker client (n ∷ ns) =
      Keeps-bind _ _ (evaluate_event_pair-Keeps p q writes recovers rounds worker client n)
        (λ done. Keeps-if done _ _ (evaluate_pairs-Keeps rounds worker client ns) (Keeps-pure _))

  save_position-Keeps : (name : String) (n : Option ℕ) → Keeps P (save_position p name n)
  unfolding save_position
  save_position-Keeps name none = Keeps-pure _
  save_position-Keeps name (some n) = writes _ _ _ (save_at name n)

  watch_event-Keeps :
      (rounds : ℕ) (worker : AutomationWorker) (client : Client) (event : PairsEvent)
      → Keeps P (watch_event p rounds worker client event)
  unfolding watch_event
  watch_event-Keeps rounds worker client event =
      Keeps-bind _ _ (evaluate_pairs-Keeps rounds worker client _) (λ done.
        Keeps-if (not done) _ _ (Keeps-pure _) (
          Keeps-bind _ _ (Keeps-reads _) (λ changed.
            Keeps-bind _ _ (Keeps-lift _)
              (λ _. Keeps-bind _ _ (save_position-Keeps _ event.id) (λ _. Keeps-pure _)))))

  watch_all-Keeps :
      (rounds : ℕ) (worker : AutomationWorker) (client : Client) (events : List PairsEvent)
      → Keeps P (watch_all p rounds worker client events)
  unfolding watch_all
  watch_all-Keeps rounds worker client [] = Keeps-pure _
  watch_all-Keeps rounds worker client (event ∷ events) =
      Keeps-bind _ _ (watch_event-Keeps rounds worker client event)
        (λ done. Keeps-if done _ _ (watch_all-Keeps rounds worker client events) (Keeps-pure _))

  settle_pending-Keeps :
      (rounds : ℕ) (worker : AutomationWorker) → Keeps P (settle_pending p rounds worker)
  unfolding settle_pending
  settle_pending-Keeps zero worker = Keeps-pure _
  settle_pending-Keeps (suc rounds) worker = Keeps-bind _ _ (Keeps-queries _) (λ left.
      Keeps-if (is_none left) _ _ (Keeps-pure _) (
        Keeps-bind _ _ (recover_once-Keeps p q writes recovers worker)
          (λ _. settle_pending-Keeps rounds worker)))

  run_configuration-Keeps :
      (rounds : ℕ) (worker : AutomationWorker) (events : Option ℕ → List PairsEvent)
      → Keeps P (run_configuration p rounds worker events)
  unfolding run_configuration watch_events
  run_configuration-Keeps rounds worker events =
      Keeps-bind _ _ (settle_pending-Keeps rounds worker) (λ settled.
        Keeps-if settled _ _
          (Keeps-bind _ _ (Keeps-reads _) (λ cursor.
            Keeps-bind _ _ (ask_lock-Keeps p q _ _ tt) (λ admitted.
              Keeps-bind _ _ (Keeps-reads _) (λ changed. Keeps-bind _ _ (Keeps-lift _) (λ _.
                Keeps-bind _ _ (enter-Keeps q p worker.config)
                  (λ client. watch_all-Keeps rounds worker client (events cursor)))))))
          (Keeps-pure _))

module _ (p : Platform) where
  -- If the store is consistent, was so at each call so far, and the journal made one step from each
  -- call to the next, and if each broadcast so far was made while the journal's slot held a row with
  -- the broadcast transaction's hash, marked as attempted, then all this is still so after
  -- `_run_configuration` on any events, for any number of rounds of its loops, with the cursor that
  -- it saves after each event.
  pub run_configuration-Orderly :
      (rounds : ℕ) (worker : AutomationWorker) (events : Option ℕ → List PairsEvent) (w : World)
      → Orderly w
      → AllBacked w
      → Orderly (run_configuration p rounds worker events w).1
        × AllBacked (run_configuration p rounds worker events w).1
  run_configuration-Orderly rounds worker events w o b = (
    (run_configuration-Keeps p Orderly-quiet transact-Orderly
          (λ allow. reconcile_execution-Keeps-Orderly p allow none) rounds worker events).at
        w o,
    (run_configuration-Keeps p AllBacked-quiet (λ A f t _. transact-AllBacked f t)
          (λ allow. reconcile_execution-Keeps-AllBacked p allow none) rounds worker events).at
        w b,
  )
