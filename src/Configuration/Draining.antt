-- ===== src/Configuration/Draining.antt =====
-- What the drain before a new configuration sends.
use xian_dex_automation.Base.{
  ℕ, zero, suc, String, Bool, true, false, ◌≡◌, refl, sym, subst, Option, none, some, List, [], ◌∷◌,
  is_none, arith,
}
use xian_dex_automation.Outcome.{Outcome, Exn}
use xian_dex_automation.Config.{AutomationConfig}
use xian_dex_automation.Submission.{PendingExecution}
use xian_dex_automation.Storage.{Transaction}
use xian_dex_automation.Storage.Consistency.Phases.{IsMethod, save_config}
use xian_dex_automation.Runtime.{World, Call, Platform, transact, Request}
use xian_dex_automation.Runtime.Keeps.{
  Keeps, Keeps-Silent, Keeps-bind, Keeps-if, Keeps-pure, Keeps-lift, Keeps-reads, Keeps-queries,
  IsQuiet,
}
use xian_dex_automation.Execution.{reconcile_execution}
use xian_dex_automation.Execution.Invariants.{reconcile_execution-Keeps}
use xian_dex_automation.Execution.Journaled.{
  AllBacked, AllBacked-quiet, transact-AllBacked, reconcile_execution-Keeps-AllBacked,
}
use xian_dex_automation.Evaluator.DryRun.{sent, HasSent, HasSent-quiet, transact-HasSent}
use xian_dex_automation.Configuration.{
  Publication, rpc_urls, drain_urls, drain_pending, drain, after, publish, publish_if_idle,
  update_rounds, update,
}

module _ (p : Platform) {P : World → Type 0} (q : IsQuiet P)
    (writes : (A : Type 0) (failure : List Call → Option Exn) (t : Transaction A)
      → IsMethod A t
      → Keeps P (transact failure t))
    (u : Publication) (current target : AutomationConfig)
    (recovers : (url : Option String)
      → Keeps P (reconcile_execution p target.wallet.execute url)) where
  drain_urls-Keeps : (urls : List String) → Keeps P (drain_urls p target.wallet.execute urls)
  unfolding drain_urls
  drain_urls-Keeps [] = Keeps-pure _
  drain_urls-Keeps (url ∷ urls) = Keeps-bind _ _ (recovers (some url)) (λ r.
      Keeps-bind _ _ (Keeps-queries _)
        (λ left. Keeps-if (is_none left) _ _ (Keeps-pure _) (drain_urls-Keeps urls)))

  drain_pending-Keeps : (e : Option PendingExecution) → Keeps P (drain_pending p target e)
  unfolding drain_pending
  drain_pending-Keeps none = Keeps-pure _
  drain_pending-Keeps (some e) = drain_urls-Keeps (rpc_urls target e)

  pub drain-Keeps : Keeps P (drain p target)
  unfolding drain
  drain-Keeps = Keeps-bind _ _ (Keeps-queries _) drain_pending-Keeps

  after-Keeps : (callback : Option (List Call → Outcome (Unit {0}))) → Keeps P (after p callback)
  unfolding after
  after-Keeps none = Keeps-pure _
  after-Keeps (some callback) = Keeps-Silent q Request.after_save callback tt

  publish-Keeps : Keeps P (publish p u current target)
  unfolding publish
  publish-Keeps = Keeps-bind _ _ (Keeps-reads _) (λ previous.
      Keeps-bind _ _ (Keeps-Silent q Request.save_config u.commit tt)
        (λ _. Keeps-bind _ _ (writes _ _ _ (save_config _ _)) (λ _. after-Keeps u.after_commit)))

  pub publish_if_idle-Keeps : (idle : Bool) → Keeps P (publish_if_idle p u current target idle)
  unfolding publish_if_idle
  publish_if_idle-Keeps false = Keeps-pure _
  publish_if_idle-Keeps true = Keeps-bind _ _ drain-Keeps (λ _.
      Keeps-bind _ _ (Keeps-queries _) (λ left.
        Keeps-if (is_none left) _ _ (Keeps-bind _ _ publish-Keeps (λ _. Keeps-pure _))
          (Keeps-pure _)))

  pub update_rounds-Keeps : (rounds : ℕ) → Keeps P (update_rounds p rounds u current target)
  unfolding update_rounds
  update_rounds-Keeps zero = Keeps-pure _
  update_rounds-Keeps (suc rounds) = Keeps-bind _ _ (Keeps-Silent q _ _ tt) (λ idle.
      Keeps-bind _ _ (publish_if_idle-Keeps idle) (λ published.
        Keeps-if published _ _ (Keeps-pure _)
          (Keeps-bind _ _ (Keeps-queries _) (λ left. update_rounds-Keeps rounds))))

  pub update-Keeps : (rounds : ℕ) → Keeps P (update p rounds u current target)
  unfolding update
  update-Keeps rounds = Keeps-bind _ _ (Keeps-lift _) (λ _.
      Keeps-bind _ _ (Keeps-Silent q _ _ tt)
        (λ claimed. Keeps-bind _ _ (Keeps-lift _) (λ _. update_rounds-Keeps rounds)))

module _ (p : Platform) (rounds : ℕ) (u : Publication) (current target : AutomationConfig)
    (w : World) where
  -- If each broadcast so far was made while the journal's slot held a row with the broadcast
  -- transaction's hash, marked as attempted, then this is still so after `update`, its drain over
  -- the new and the old endpoint included, for any number of rounds.
  pub update-AllBacked : AllBacked w → AllBacked (update p rounds u current target w).1
  update-AllBacked h =
      (update-Keeps p AllBacked-quiet (λ A f t _. transact-AllBacked f t) u current target
          (reconcile_execution-Keeps-AllBacked p target.wallet.execute) rounds).at
        w h

  -- `update` to a configuration with `wallet.execute` off leaves the number of broadcasts as it
  -- was, its drain included, for any number of rounds.
  pub update-sent :
      target.wallet.execute ≡ false
      → sent (update p rounds u current target w).1.calls ≡ sent w.calls
  update-sent off =
      ((update-Keeps p (HasSent-quiet (sent w.calls))
          (λ A f t _. transact-HasSent (sent w.calls) A f t) u current target
          (λ url.
            subst (λ b. Keeps (HasSent (sent w.calls)) (reconcile_execution p b url)) (sym off)
              (reconcile_execution-Keeps p (HasSent-quiet (sent w.calls))
                (λ A f t _. transact-HasSent (sent w.calls) A f t) false (λ on. ground arith) url))
          rounds).at
        w (record { count = refl })).count
