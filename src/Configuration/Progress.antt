-- ===== src/Configuration/Progress.antt =====
-- That a change of configuration ends, and what it takes (configuration.py).
use xian_dex_automation.Base.{
  ℕ, zero, suc, true, false, not, ◌≡◌, ◌≢◌, refl, ap, sym, subst, ◌∙◌, Option, none, some, List,
}
use xian_dex_automation.Outcome.{Outcome, ok, raise_if, value_error}
use xian_dex_automation.Config.{AutomationConfig}
use xian_dex_automation.Runtime.{
  pure, lift, queries, reads, ask, transact, Request, Platform, World, Call,
}
use xian_dex_automation.Runtime.Keeps.{called}
use xian_dex_automation.Runtime.Ends.{EndsIn, step, step-EndsIn, transact-ok}
use xian_dex_automation.Runtime.Agrees.{Agrees, Agrees-refl, Agrees-if, Agrees-bind}
use xian_dex_automation.Storage.{Database, active_config}
use xian_dex_automation.Storage.Journal.{pending_execution, from_slot}
use xian_dex_automation.Storage.Markets.{save_active_config}
use xian_dex_automation.Evaluator.Fuel.{out_of_rounds}
use xian_dex_automation.Configuration.Published.{HasSaved, save_active_config-Saved}
use xian_dex_automation.Configuration.{
  Publication, update, update_rounds, publish_if_idle, publish, drain, drain_pending, after,
}

saved-ok :
    (target previous : AutomationConfig) (db : Database)
    → (db' : Database) × (save_active_config target previous db ≡ ok (tt, db'))
      × HasSaved target db db'
unfolding save_active_config
saved-ok target previous db = (_, refl, save_active_config-Saved target previous db)

-- The configuration is the active one, and the journal is empty.
abbrev pub IsActive : AutomationConfig → World → Type 0
IsActive target w =
    ((default : AutomationConfig) → active_config default w.store ≡ target) × (w.store.slot ≡ none)

-- A callback that does not fail.
abbrev pub Works : Option (List Call → Outcome (Unit {0})) → Type 0
Works none = Unit
Works (some f) = (h : List Call) → f h ≡ ok tt

module _ (p : Platform) (u : Publication) (current target : AutomationConfig) where
  update_rounds-Agrees :
      (rounds : ℕ)
      → Agrees
          (update_rounds p rounds u current target)
          (update_rounds p (suc rounds) u current target)
  unfolding update_rounds
  update_rounds-Agrees zero = out_of_rounds _
  update_rounds-Agrees (suc rounds) = Agrees-bind _ _ _ (λ idle. Agrees-bind _ _ _ (λ published.
      Agrees-if published _ _ _ _ (Agrees-refl (pure true)) (
        Agrees-bind (queries (pending_execution p.sdk)) _ _ (λ left. update_rounds-Agrees rounds))))

  update-Agrees :
      (rounds : ℕ)
      → Agrees (update p rounds u current target) (update p (suc rounds) u current target)
  unfolding update
  update-Agrees rounds =
      Agrees-bind _ _ _
        (λ _. Agrees-bind _ _ _ (λ claimed. Agrees-bind _ _ _ (λ _. update_rounds-Agrees rounds)))

  -- Where `update` does not run out of its rounds, one round more gives the same result, the same
  -- database and the same calls.
  pub update-suc :
      (rounds : ℕ) (w : World)
      → (update p rounds u current target w).0 ≢ ok false
      → update p (suc rounds) u current target w ≡ update p rounds u current target w
  update-suc rounds w h = (update-Agrees rounds).at w h

  -- A journal with nothing in it.
  reads_empty : (w : World) → w.store.slot ≡ none → pending_execution p.sdk w.store ≡ ok none
  unfolding pending_execution from_slot
  reads_empty w e = ap (λ x. from_slot p.sdk x w.store.runs) e

  drain_empty : (w : World) → w.store.slot ≡ none → drain p target w ≡ (ok tt, w)
  unfolding drain drain_pending queries pure
  drain_empty w e = step _ (drain_pending p target) none w w (ap (λ o. (o, w)) (reads_empty w e))

  after-Ends :
      (w : World) (f : Option (List Call → Outcome (Unit {0})))
      → Works f
      → IsActive target w
      → EndsIn (IsActive target) tt (after p f) w
  unfolding after pure ask
  after-Ends w none h k = (w, refl, k)
  after-Ends w (some f) h k =
      (called Request.after_save w, ap (λ o. (o, called Request.after_save w)) (h w.calls), k)

  module _ (commits : (h : List Call) → u.commit h ≡ ok tt) (works : Works u.after_commit)
      (sound : (h : List Call) → p.net.failure h ≡ none) where
    -- The transaction, from the world that follows the write of the file.
    saved-Ends :
        (previous : AutomationConfig) (w : World)
        → w.store.slot ≡ none
        → EndsIn
            (IsActive target)
            tt
            (transact p.net.failure (save_active_config target previous))
            w
    saved-Ends previous w empty =
        let (db, e, saved) = saved-ok target previous w.store in
        (
          record (called Request.commit w) { store = db },
          transact-ok p.net.failure (save_active_config target previous) w tt db e (sound w.calls),
          (saved.active, saved.slot ∙ empty),
        )

    publish-Ends :
        (w : World)
        → w.store.slot ≡ none
        → EndsIn (IsActive target) tt (publish p u current target) w
    unfolding publish reads ask transact
    publish-Ends w empty =
        let previous = active_config current w.store in
        let w' = called Request.save_config w in
        let (v, t, k) = saved-Ends previous w' empty in
        step-EndsIn _ _ _ previous tt w w refl (
          step-EndsIn _ _ _ tt tt w w' (ap (λ o. (o, w')) (commits w.calls))
            (step-EndsIn _ _ _ tt tt w' v t (after-Ends v u.after_commit works k)))

    publish_if_idle-Ends :
        (w : World)
        → w.store.slot ≡ none
        → EndsIn (IsActive target) true (publish_if_idle p u current target true) w
    unfolding publish_if_idle queries pure
    publish_if_idle-Ends w e =
        let (v, published, k) = publish-Ends w e in
        step-EndsIn _ _ _ tt true w w (drain_empty w e) (
          step-EndsIn _ _ _ none true w w (ap (λ o. (o, w)) (reads_empty w e))
            (step-EndsIn _ _ _ tt true w v published (v, refl, k)))

    update_rounds-Ends :
        (rounds : ℕ) (w : World)
        → w.store.slot ≡ none
        → ((h : List Call) → p.net.execution_lock h ≡ true)
        → EndsIn (IsActive target) true (update_rounds p (suc rounds) u current target) w
    unfolding update_rounds ask pure
    update_rounds-Ends rounds w e free =
        let w' = called Request.execution_lock w in
        let (v, done, k) = publish_if_idle-Ends w' e in
        step-EndsIn _ _ _ true true w w' (ap (λ b. (ok b, w')) (free w.calls))
          (step-EndsIn _ _ _ true true w' v done (v, refl, k))

  -- With an empty journal, both locks to be had, a target whose database is the store's, callbacks
  -- that do not fail and commits that work, `update` with at least one round returns true, and then
  -- the target is the active configuration of the store, and the journal is empty.
  pub update-Ends :
      (rounds : ℕ) (w : World)
      → w.store.slot ≡ none
      → u.is_store_path target.database_path ≡ true
      → ((h : List Call) → p.net.configuration_lock h ≡ true)
      → ((h : List Call) → p.net.execution_lock h ≡ true)
      → ((h : List Call) → u.commit h ≡ ok tt)
      → Works u.after_commit
      → ((h : List Call) → p.net.failure h ≡ none)
      → ((update p (suc rounds) u current target w).0 ≡ ok true)
        × IsActive target (update p (suc rounds) u current target w).1
  unfolding update lift ask
  update-Ends rounds w e path claimed free commits works sound =
      let w' = called Request.configuration_lock w in
      let refused = value_error "database_path changes require an offline database migration" in
      let (x, h, k) =
        step-EndsIn (IsActive target) _ _ tt true w w (ap (λ b. (raise_if (not b) refused, w)) path)
          (step-EndsIn _ _ _ true true w w' (ap (λ b. (ok b, w')) (claimed w.calls)) (
            step-EndsIn _ _ _ tt true w' w' refl
              (update_rounds-Ends commits works sound rounds w' e free))) in
      (ap (λ r. r.0) h, subst (λ r. IsActive target r.1) (sym h) k)
