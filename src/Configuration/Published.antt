-- ===== src/Configuration/Published.antt =====
-- What a change of configuration has done when it returns (configuration.py).
use xian_dex_automation.Base.{
  ℕ, zero, suc, Bool, true, false, ◌≡◌, ◌≢◌, refl, Option, none, some, is_none, ap, ◌∙◌, sym, subst,
  Option-cases, Bool-cases, inl, inr, String, arith, List,
}
use xian_dex_automation.Outcome.{ok, Outcome, Outcome-cases}
use xian_dex_automation.Config.{AutomationConfig}
use xian_dex_automation.Report.{pending}
use xian_dex_automation.Submission.{Sdk, PendingExecution}
use xian_dex_automation.Storage.{Database}
use xian_dex_automation.Storage.Journal.{from_slot, joined, pending_execution, execution_from_row}
use xian_dex_automation.Storage.Tables.{Run, PendingRow, UncertainRow, find_run}
use xian_dex_automation.Storage.Markets.{
  active_config, save_active_config, reset_changed_markets, market_changed,
}
use xian_dex_automation.Storage.Consistency.{IsConsistent, Consistent, entry}
use xian_dex_automation.Runtime.{Platform, World, Call, Request}
use xian_dex_automation.Runtime.Keeps.{
  Keeps, Keeps-Silent, Keeps-pure, Keeps-lift, Keeps-queries, IsQuiet, Keeps-reads,
}
use xian_dex_automation.Runtime.Yields.{Leads-queries}
use xian_dex_automation.Runtime.Returns.{
  Returns, Returns-bind, Returns-from, Returns-Keeps, Returns-pure, Returns-if, Returns-transact,
  Returns-with, Returns-at,
}
use xian_dex_automation.Runtime.Orderly.{Orderly, Orderly-quiet, transact-Orderly}
use xian_dex_automation.Evaluator.Orderly.{reconcile_execution-Keeps-Orderly}
use xian_dex_automation.Configuration.{
  Publication, after, publish, publish_if_idle, update_rounds, update,
}
use xian_dex_automation.Configuration.Draining.{drain-Keeps, publish_if_idle-Keeps}

-- The new configuration is the active one, the journal is empty, and no run is pending.
pub record IsPublished (target : AutomationConfig) (w : World) : Type 0 where
  pub active : (default : AutomationConfig) → active_config default w.store ≡ target
  pub empty : w.store.slot ≡ none
  pub settled : (n : ℕ) (hash : Option String) → entry n w.store.runs ≢ some (pending, hash)

module _ (sdk : Sdk) where
  -- A journal that reads as empty is empty, in a consistent store.
  empty_slot :
      (k : ℕ) (runs : List Run) (slot : Option PendingRow) (us : List UncertainRow)
      → Consistent k runs slot us
      → from_slot sdk slot runs ≡ ok none
      → slot ≡ none
  unfolding from_slot joined
  empty_slot k runs none us c e = refl
  empty_slot k runs (some p) us c e = elim (Option-cases (find_run p.run_id runs)) [
    | inl missing ↦ ground (arith, c.journal)
    | inr (r, found) ↦
        elim (Outcome-cases (
          execution_from_row sdk p.run_id p.rpc_url p.chain_id p.tx_json p.tx_hash
            p.broadcast_attempted r)) [
              | inl (x, read) ↦ ground (arith, c.journal)
              | inr (inl stopped) ↦ ground (arith, c.journal)
              | inr (inr (x, failed)) ↦ ground (arith, c.journal)
            ]
  ]

-- The journal is idle, in a consistent store.
record IsIdle (w : World) : Type 0 where
  consistent : IsConsistent w.store
  empty : w.store.slot ≡ none

-- The same journal and runs, and this configuration.
pub record HasSaved (target : AutomationConfig) (db db' : Database) : Type 0 where
  pub slot : db'.slot ≡ db.slot
  runs : db'.runs ≡ db.runs
  same_ids : db'.sequence ≡ db.sequence
  pub active : (d : AutomationConfig) → active_config d db' ≡ target

abbrev pub Saved : AutomationConfig → Database → Outcome (Unit {0} × Database) → Type 0
Saved target db (ok (_, db')) = HasSaved target db db'
Saved target db _ = Unit

pub save_active_config-Saved :
    (target previous : AutomationConfig) (db : Database)
    → Saved target db (save_active_config target previous db)
unfolding save_active_config active_config reset_changed_markets
save_active_config-Saved target previous db = elim (Bool-cases (market_changed previous target)) [
  | inl e ↦ record {
    slot = rw e refl;
    runs = rw e refl;
    same_ids = rw e refl;
    active = λ d. rw e refl;
  }
  | inr e ↦ record {
    slot = rw e refl;
    runs = rw e refl;
    same_ids = rw e refl;
    active = λ d. rw e refl;
  }
]

none_pending :
    (k : ℕ) (runs : List Run) (us : List UncertainRow)
    → Consistent k runs none us
    → (n : ℕ) (hash : Option String) → entry n runs ≢ some (pending, hash)
none_pending k runs us c n hash e = ground (arith, c.only n hash e)

module _ (p : Platform) (u : Publication) (current target : AutomationConfig) where
  IsIdle-quiet : IsQuiet IsIdle
  IsIdle-quiet = record { after = λ r s w h. record { consistent = h.consistent; empty = h.empty } }

  IsPublished-quiet : IsQuiet (IsPublished target)
  IsPublished-quiet = record {
    after = λ r s w h. record { active = h.active; empty = h.empty; settled = h.settled };
  }

  after_publication :
      (callback : Option (List Call → Outcome (Unit {0})))
      → Keeps (IsPublished target) (after p callback)
  unfolding after
  after_publication none = Keeps-pure _
  after_publication (some callback) = Keeps-Silent IsPublished-quiet Request.after_save callback tt

  -- An orderly world whose journal reads as empty is idle.
  IsIdle-world :
      (e : Option PendingExecution) (w : World)
      → is_none e ≡ true
      → Orderly w × (pending_execution p.sdk w.store ≡ ok e)
      → IsIdle w
  unfolding pending_execution
  IsIdle-world none w n (o, read) = record {
    consistent = o.consistent;
    empty =
        empty_slot p.sdk w.store.sequence w.store.runs w.store.slot w.store.uncertain o.consistent
          read;
  }
  IsIdle-world (some e) w n h = ground arith

  saved-IsPublished :
      (previous : AutomationConfig) (w v : World)
      → IsIdle w
      → HasSaved target w.store v.store
      → IsPublished target v
  saved-IsPublished previous w v h s = record {
    active = s.active;
    empty = s.slot ∙ h.empty;
    settled = λ n hash e.
        none_pending w.store.sequence w.store.runs w.store.uncertain
          (subst (λ x. Consistent w.store.sequence w.store.runs x w.store.uncertain) h.empty
            h.consistent)
          n hash (ap (entry n) (sym s.runs) ∙ e);
  }

  publish-Returns : Returns IsIdle (λ _. IsPublished target) (publish p u current target)
  unfolding publish
  publish-Returns =
      Returns-bind (λ _. IsIdle) _ _ _ (Returns-Keeps _ (Keeps-reads _))
        (λ previous.
          Returns-bind (λ _. IsIdle) _ _ _
            (Returns-Keeps _ (Keeps-Silent IsIdle-quiet Request.save_config u.commit tt))
            (λ _.
              Returns-bind (λ _. IsPublished target) _ _ _
                (Returns-transact _ _ _ (λ w a db h e. saved-IsPublished previous w _ h (
                  subst (Saved target w.store) e
                    (save_active_config-Saved target previous w.store))))
                (λ _. Returns-Keeps _ (after_publication u.after_commit))))

  publish_if_idle-Returns :
      (idle : Bool)
      → Returns Orderly
          (λ b w. b ≡ true → IsPublished target w)
          (publish_if_idle p u current target idle)
  unfolding publish_if_idle
  publish_if_idle-Returns false = Returns-pure _ false (λ w h e. ground arith)
  publish_if_idle-Returns true =
      Returns-bind (λ _. Orderly) _ _ _
        (Returns-Keeps _ (
          drain-Keeps p Orderly-quiet transact-Orderly u current target
            (reconcile_execution-Keeps-Orderly p target.wallet.execute)))
        (λ _.
          Returns-bind (λ e w. Orderly w × (pending_execution p.sdk w.store ≡ ok e)) _ _ _
            (Leads-queries _ (λ w h. tt))
            (λ e.
              Returns-if _ (is_none e) _ _
                (λ none_left.
                  Returns-bind (λ _. IsPublished target) _ _ _
                    (Returns-from IsIdle _ _ (λ w h. IsIdle-world e w none_left h) publish-Returns)
                    (λ _. Returns-pure _ true (λ w h _. h)))
                (λ _. Returns-pure _ false (λ w h e. ground arith))))

  update_rounds-Returns :
      (rounds : ℕ)
      → Returns Orderly
          (λ b w. b ≡ true → IsPublished target w)
          (update_rounds p rounds u current target)
  unfolding update_rounds
  update_rounds-Returns zero = Returns-pure _ false (λ w h e. ground arith)
  update_rounds-Returns (suc rounds) =
      Returns-bind (λ _. Orderly) _ _ _ (Returns-Keeps _ (Keeps-Silent Orderly-quiet _ _ tt))
        (λ idle.
          Returns-bind (λ b w. Orderly w × (b ≡ true → IsPublished target w)) _ _ _
            (Returns-with _ _
              (publish_if_idle-Keeps p Orderly-quiet transact-Orderly u current target
                (reconcile_execution-Keeps-Orderly p target.wallet.execute) idle)
              (publish_if_idle-Returns idle))
            (λ published.
              Returns-if _ published _ _ (λ yes. Returns-pure _ true (λ w h e. h.1 yes))
                (λ no.
                  Returns-bind (λ _. Orderly) _ _ _
                    (Returns-from Orderly _ _ (λ w h. h.0) (Returns-Keeps _ (Keeps-queries _)))
                    (λ _. update_rounds-Returns rounds))))

  update-Returns :
      (rounds : ℕ)
      → Returns Orderly (λ b w. b ≡ true → IsPublished target w) (update p rounds u current target)
  unfolding update
  update-Returns rounds =
      Returns-bind (λ _. Orderly) _ _ _ (Returns-Keeps _ (Keeps-lift _))
        (λ _.
          Returns-bind (λ _. Orderly) _ _ _ (Returns-Keeps _ (Keeps-Silent Orderly-quiet _ _ tt))
            (λ claimed.
              Returns-bind (λ _. Orderly) _ _ _ (Returns-Keeps _ (Keeps-lift _))
                (λ _. update_rounds-Returns rounds)))

  -- If the store is consistent, was so at each call so far, and the journal made one step from each
  -- call to the next, and `update` ends with the configuration published, for any number of rounds,
  -- then the new configuration is the active one, the journal is empty and no run is pending.
  pub update-IsPublished :
      (rounds : ℕ) (w : World)
      → Orderly w
      → (update p rounds u current target w).0 ≡ ok true
      → IsPublished target (update p rounds u current target w).1
  update-IsPublished rounds w h e = Returns-at _ _ w true (update-Returns rounds) h e refl
