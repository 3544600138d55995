-- ===== src/Configuration.antt =====
-- The replacement of the configuration while the worker runs
-- (src/xian_dex_automation/configuration.py).
pub mod Draining
pub mod Orderly
pub mod Published
pub mod Progress
use xian_dex_automation.Base.{
  ℕ, zero, suc, String, Bool, true, false, not, Option, none, some, List, [], ◌∷◌, str_eq, is_none,
  if◌then◌else◌,
}
use xian_dex_automation.Outcome.{Outcome, raised, ok, exn, value_error, raise_if}
use xian_dex_automation.Config.{AutomationConfig}
use xian_dex_automation.Submission.{PendingExecution}
use xian_dex_automation.Storage.{pending_execution, active_config, save_active_config}
use xian_dex_automation.Runtime.{
  Action, Call, ask, pure, lift, reads, queries, transact, ◌>>=◌, ◌>>◌, Request, Platform,
}
use xian_dex_automation.Planning.{chain_allowed}
use xian_dex_automation.Execution.{reconcile_execution}

-- The two callbacks of `update`, and what it knows of the store's file: whether a path is its path.
pub record Publication : Type 0 where
  pub commit : List Call → Outcome (Unit {0})
  pub after_commit : Option (List Call → Outcome (Unit {0}))
  pub is_store_path : String → Bool

-- `rpc_urls` of `_drain`: the new endpoint, then the old one, without a repetition; only the old
-- one if the chain changes.
unfoldable pub rpc_urls : AutomationConfig → PendingExecution → List String
rpc_urls target e =
    if chain_allowed target.network.chain_id e.prepared.chain_id
    then (if str_eq target.network.rpc_url e.prepared.rpc_url
        then target.network.rpc_url ∷ []
        else target.network.rpc_url ∷ e.prepared.rpc_url ∷ [])
    else e.prepared.rpc_url ∷ []

module _ (p : Platform) where
  -- The loop of `_drain`, which ends when the journal is empty.
  unfoldable pub drain_urls : Bool → List String → Action (Unit {0})
  drain_urls allow_broadcast [] = pure tt
  drain_urls allow_broadcast (url ∷ urls) =
      let rest = drain_urls allow_broadcast urls in
      do
        reconcile_execution p allow_broadcast (some url)
        left ← queries (pending_execution p.sdk)
        if is_none left then pure tt else rest

  unfoldable pub drain_pending : AutomationConfig → Option PendingExecution → Action (Unit {0})
  unfolding rpc_urls drain_urls
  drain_pending target none = pure tt
  drain_pending target (some e) = drain_urls target.wallet.execute (rpc_urls target e)

  -- `_drain`.
  unfoldable pub drain : AutomationConfig → Action (Unit {0})
  unfolding drain_pending
  drain target = do e ← queries (pending_execution p.sdk); drain_pending target e

  unfoldable pub after : Option (List Call → Outcome (Unit {0})) → Action (Unit {0})
  after none = pure tt
  after (some callback) = ask Request.after_save callback

  -- `_publish`; `current` is the worker's configuration.
  unfoldable pub publish : Publication → AutomationConfig → AutomationConfig → Action (Unit {0})
  unfolding after
  publish u current target = do
    previous ← reads (active_config current)
    ask Request.save_config u.commit
    transact p.net.failure (save_active_config target previous)
    after u.after_commit

  -- The inside of the loop, under the execution lock: whether the configuration was published.
  unfoldable pub publish_if_idle :
      Publication → AutomationConfig → AutomationConfig → Bool → Action Bool
  unfolding drain publish
  publish_if_idle u current target false = pure false
  publish_if_idle u current target true = do
    drain target
    left ← queries (pending_execution p.sdk)
    if is_none left then (do publish u current target; pure true) else pure false

  -- The loop of `update`, for a number of rounds; `false` if they were not enough. The read of the
  -- journal that chooses the delay may raise.
  unfoldable pub update_rounds : ℕ → Publication → AutomationConfig → AutomationConfig → Action Bool
  unfolding publish_if_idle
  update_rounds zero u current target = pure false
  update_rounds (suc rounds) u current target =
      let again = update_rounds rounds u current target in
      do
        idle ← ask Request.execution_lock (λ h. ok (p.net.execution_lock h))
        published ← publish_if_idle u current target idle
        if published then pure true else (do left ← queries (pending_execution p.sdk); again)

  -- `update`.
  unfoldable pub update : ℕ → Publication → AutomationConfig → AutomationConfig → Action Bool
  unfolding update_rounds
  update rounds u current target = do
    lift (
        raise_if (not (u.is_store_path target.database_path))
          (value_error "database_path changes require an offline database migration"))
    claimed ← ask Request.configuration_lock (λ h. ok (p.net.configuration_lock h))
    lift (
        raise_if (not claimed)
          (exn "ConfigurationBusy" "another configuration change is draining execution"))
    update_rounds rounds u current target
