-- ===== src/Evaluator/DryRun.antt =====
-- The number of broadcasts of an evaluation (worker.py, execution.py).
use xian_dex_automation.Base.{
  ℕ, String, suc, ◌≡◌, refl, ◌∙◌, false, Option, none, List, [], ◌∷◌, subst, sym, arith,
}
use xian_dex_automation.Outcome.{Exn}
use xian_dex_automation.Storage.{Transaction}
use xian_dex_automation.Runtime.{World, Call, Platform, Request, transact}
use xian_dex_automation.Runtime.Keeps.{Keeps, IsQuiet, Silent, Keeps-commit}
use xian_dex_automation.Planning.{Client}
use xian_dex_automation.Execution.{reconcile_execution}
use xian_dex_automation.Execution.Invariants.{
  reconcile_execution-Keeps, reconcile_uncertain_rule-Keeps,
}
use xian_dex_automation.Evaluator.{AutomationWorker, evaluate_pair}
use xian_dex_automation.Evaluator.Invariants.{evaluate_pair-Keeps, evaluate_pair_locked-Keeps}

abbrev pub add_if_sent : Request → ℕ → ℕ
add_if_sent (Request.broadcast url tx) n = suc n
add_if_sent _ n = n

-- The number of broadcasts so far.
abbrev pub sent : List Call → ℕ
sent [] = 0
sent (c ∷ cs) = add_if_sent c.request (sent cs)

pub record HasSent (n : ℕ) (w : World) : Type 0 where
  pub count : sent w.calls ≡ n

Silent-sent : (r : Request) (n : ℕ) → Silent r → add_if_sent r n ≡ n
Silent-sent (Request.broadcast url tx) n h = absurd h
Silent-sent _ n h = refl

pub HasSent-quiet : (n : ℕ) → IsQuiet (HasSent n)
HasSent-quiet n = record {
  after = λ r s w h. record { count = Silent-sent r (sent w.calls) s ∙ h.count };
}

pub transact-HasSent :
    (n : ℕ) (A : Type 0) (failure : List Call → Option Exn) (t : Transaction A)
    → Keeps (HasSent n) (transact failure t)
transact-HasSent n A failure t =
    Keeps-commit (HasSent-quiet n) failure t (λ w a db h e. record { count = h.count })

module _ (p : Platform) (n : ℕ) where
  reconcile_execution-Keeps-HasSent :
      (url : Option String) → Keeps (HasSent n) (reconcile_execution p false url)
  reconcile_execution-Keeps-HasSent url =
      reconcile_execution-Keeps p (HasSent-quiet n) (λ A f t _. transact-HasSent n A f t) false
        (λ on. ground arith) url

  evaluate_pair-Keeps-HasSent :
      (worker : AutomationWorker) (client : Client) (pair_id : ℕ)
      → worker.config.wallet.execute ≡ false
      → Keeps (HasSent n) (evaluate_pair p worker client pair_id)
  evaluate_pair-Keeps-HasSent worker client pair_id off =
      evaluate_pair-Keeps p (HasSent-quiet n) worker client pair_id (
        evaluate_pair_locked-Keeps p (HasSent-quiet n) (λ A f t _. transact-HasSent n A f t)
          (reconcile_uncertain_rule-Keeps p (HasSent-quiet n) (λ A f t _. transact-HasSent n A f t))
          worker.config (λ on. absurd (cc (off, on)))
          (subst (λ b. Keeps (HasSent n) (reconcile_execution p b none)) (sym off)
            (reconcile_execution-Keeps-HasSent none))
          client pair_id)

module _ (p : Platform) where
  -- `reconcile_execution` without permission to broadcast leaves the number of broadcasts as it
  -- was, whatever stands in the journal and whatever the network answers.
  pub reconcile_execution-sent :
      (url : Option String) (w : World)
      → sent (reconcile_execution p false url w).1.calls ≡ sent w.calls
  reconcile_execution-sent url w =
      ((reconcile_execution-Keeps-HasSent p (sent w.calls) url).at w
        (record { count = refl })).count

  -- With `wallet.execute` off in the worker's configuration, `evaluate_pair` leaves the number of
  -- broadcasts as it was, whatever the rules, the journal and the answers of the network.
  pub evaluate_pair-sent :
      (worker : AutomationWorker) (client : Client) (pair_id : ℕ) (w : World)
      → worker.config.wallet.execute ≡ false
      → sent (evaluate_pair p worker client pair_id w).1.calls ≡ sent w.calls
  evaluate_pair-sent worker client pair_id w off =
      ((evaluate_pair-Keeps-HasSent p (sent w.calls) worker client pair_id off).at w
        (record { count = refl })).count
