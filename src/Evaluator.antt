-- ===== src/Evaluator.antt =====
-- The entry points of the worker (src/xian_dex_automation/worker.py): recovery, the evaluation of a
-- pair under the locks, and the handling of an event.
pub mod Invariants
pub mod Rounds
pub mod Fuel
pub mod Journaled
pub mod Orderly
pub mod DryRun
use xian_dex_automation.Base.{
  ℕ, zero, suc, String, Bool, true, false, not, ◌&&◌, ◌||◌, Option, none, some, List, [], ◌∷◌, ◌++◌,
  select, ◌==◌, leb, if◌then◌else◌,
}
use xian_dex_automation.Outcome.{Outcome, ok, raised, exn}
use xian_dex_automation.Report.{
  Report, Status, pending, submitted, failed, dry_run, skipped, outcome_unknown, Reason,
  execution_busy, configuration_draining, configuration_changed, recovery_pending,
  submission_pending,
}
use xian_dex_automation.Config.{AutomationConfig, RuleConfig}
use xian_dex_automation.Dex.{PairSnapshot}
use xian_dex_automation.Storage.{
  Database, active_config, config_generation, get_cursor, save_cursor,
}
use xian_dex_automation.Runtime.{
  Action, Call, ask, pure, lift, reads, transact, ◌>>=◌, ◌>>◌, Request, Platform,
}
use xian_dex_automation.Planning.{Client}
use xian_dex_automation.DexClient
use xian_dex_automation.Execution.{reconcile_execution}
use xian_dex_automation.Worker.{evaluate_rule, skip}

-- `AutomationWorker`, as far as its methods read it.
pub record AutomationWorker : Type 0 where
  pub config : AutomationConfig
  pub config_generation : ℕ

-- The reasons by which results are told apart.
unfoldable pub is_blocking : Reason → Bool
is_blocking execution_busy = true
is_blocking configuration_draining = true
is_blocking _ = false

unfoldable pub is_pending : Status → Bool
is_pending pending = true
is_pending _ = false

-- `_execution_blocked`.
unfoldable pub execution_blocked : Report → Bool
execution_blocked r = is_pending r.status || is_blocking r.reason

unfoldable pub is_change : Reason → Bool
is_change configuration_changed = true
is_change _ = false

is_submission : Reason → Bool
is_submission submission_pending = true
is_submission _ = false

unfoldable pub any : (Report → Bool) → List Report → Bool
any f [] = false
any f (r ∷ rs) = f r || any f rs

-- `_matching_rules`.
unfoldable pub matching_rules : List RuleConfig → ℕ → List RuleConfig
matching_rules rules pair_id = select (λ r. r.enabled && r.trigger.pair_id == pair_id) rules

-- A set of pair ids, sorted, with one more.
insert_sorted : ℕ → List ℕ → List ℕ
insert_sorted n [] = n ∷ []
insert_sorted n (m ∷ ms) =
    if n == m then m ∷ ms else if leb n m then n ∷ m ∷ ms else m ∷ insert_sorted n ms

enabled_pairs : List RuleConfig → List ℕ
enabled_pairs [] = []
enabled_pairs (r ∷ rs) =
    let rest = enabled_pairs rs in if r.enabled then insert_sorted r.trigger.pair_id rest else rest

-- `_pair_ids_from_event`, given the pair that the event names.
unfoldable pub pair_ids_from_event : List RuleConfig → Option ℕ → List ℕ
unfolding insert_sorted enabled_pairs
pair_ids_from_event rules (some pair_id) = pair_id ∷ []
pair_ids_from_event rules none = enabled_pairs rules

module _ (p : Platform) where
  unfoldable pub ask_lock : Request → (List Call → Bool) → Action Bool
  ask_lock r answer = ask r (λ h. ok (answer h))

  -- `recover_once`.
  pub recover_once : AutomationWorker → Action (Option Report)
  unfolding ask_lock
  recover_once worker = do
    claimed ← ask_lock Request.execution_lock p.net.execution_lock
    config ← reads (active_config worker.config)
    if not claimed then pure (some (skip execution_busy)) else (do
      admitted ← ask_lock Request.configuration_lock p.net.configuration_lock
      if not admitted
          then pure (some (skip configuration_draining))
          else reconcile_execution p config.wallet.execute none)

  -- `_configuration_changed`.
  unfoldable pub configuration_changed_since : AutomationWorker → Database → Bool
  configuration_changed_since worker db =
      not (config_generation db == worker.config_generation)
      || not (p.same_config (active_config worker.config db) worker.config)

  -- The loop over the matching rules, which ends at the first pending result.
  evaluate_rules : AutomationConfig → Client → PairSnapshot → List RuleConfig → Action (List Report)
  evaluate_rules c client s [] = pure []
  evaluate_rules c client s (r ∷ rs) =
      let rest = evaluate_rules c client s rs in
      do
        result ← evaluate_rule p c client r s
        if is_pending result.status
            then pure (result ∷ [])
            else (do results ← rest; pure (result ∷ results))

  abbrev from_recovery : Option Report → List Report
  from_recovery none = []
  from_recovery (some r) = r ∷ []

  abbrev blocked_recovery : Option Report → Bool
  blocked_recovery none = false
  blocked_recovery (some r) = is_pending r.status

  abbrev as_recovery : Option Report → List Report
  as_recovery none = []
  as_recovery (some r) = record r { reason = recovery_pending } ∷ []

  -- `_evaluate_pair_locked`.
  pub evaluate_pair_locked : AutomationConfig → Client → ℕ → Action (List Report)
  unfolding evaluate_rules
  evaluate_pair_locked c client pair_id = do
    recovered ← reconcile_execution p c.wallet.execute none
    if blocked_recovery recovered then pure (as_recovery recovered) else (do
      snapshot ← DexClient.get_pair_snapshot p pair_id
      results ← evaluate_rules c client snapshot (matching_rules c.rules pair_id)
      pure (from_recovery recovered ++ results))

  -- `evaluate_pair`: the two locks of `evaluation_lock`, the revision check, then the evaluation.
  unfoldable pub evaluate_pair : AutomationWorker → Client → ℕ → Action (List Report)
  unfolding ask_lock configuration_changed_since
  evaluate_pair worker client pair_id = do
    admitted ← ask_lock Request.configuration_lock p.net.configuration_lock
    if not admitted then pure (skip configuration_draining ∷ []) else (do
      acquired ← ask_lock Request.execution_lock p.net.execution_lock
      changed ← reads (configuration_changed_since worker)
      if not acquired
          then pure (skip execution_busy ∷ [])
          else if changed
          then pure (skip configuration_changed ∷ [])
          else evaluate_pair_locked worker.config client pair_id)

  unless_recovered : AutomationWorker → ℕ → Option Report → Action (List Report)
  unless_recovered worker pair_id (some r) = pure (r ∷ [])
  unless_recovered worker pair_id none = do
    client ← DexClient.enter p worker.config
    evaluate_pair worker client pair_id

  -- `evaluate_pair_once`.
  pub evaluate_pair_once : AutomationWorker → ℕ → Action (List Report)
  unfolding unless_recovered
  evaluate_pair_once worker pair_id = do
    recovered ← recover_once worker
    config ← reads (active_config worker.config)
    generation ← reads config_generation
    unless_recovered (record { config = config; config_generation = generation }) pair_id recovered

  keep_waiting : Action Bool → Option Report → Action Bool
  keep_waiting again none = pure true
  keep_waiting again (some r) = if execution_blocked r then again else pure true

  -- `_wait_for_execution`, for a number of polls; `false` if they were not enough.
  wait_for_execution : ℕ → AutomationWorker → Action Bool
  unfolding keep_waiting
  wait_for_execution zero worker = pure false
  wait_for_execution (suc polls) worker =
      let again = wait_for_execution polls worker in
      do result ← recover_once worker; keep_waiting again result

  -- `_evaluate_event_pair`, for a number of rounds; `false` if they were not enough.
  unfoldable pub evaluate_event_pair : ℕ → AutomationWorker → Client → ℕ → Action Bool
  unfolding any is_change is_submission wait_for_execution
  evaluate_event_pair zero worker client pair_id = pure false
  evaluate_event_pair (suc rounds) worker client pair_id =
      let again = evaluate_event_pair rounds worker client pair_id in
      do
        results ← evaluate_pair worker client pair_id
        if any (λ r. is_change r.reason) results
            then lift (raised (exn "ConfigurationChanged" ""))
            else if any (λ r. is_submission r.reason) results
            then wait_for_execution rounds worker
            else if any execution_blocked results
            then again
            else pure true
