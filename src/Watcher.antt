-- ===== src/Watcher.antt =====
-- The worker's watch over the pairs' events (src/xian_dex_automation/worker.py, `_run_configuration`
-- and `_watch_events`). The events are what the event client yields after a cursor; `_recovery_loop`,
-- which runs beside the watch and only recovers under the execution lock, is left out.
pub mod Invariants
use xian_dex_automation.Base.{
  ℕ, zero, suc, String, Bool, true, false, not, ◌||◌, Option, none, some, List, [], ◌∷◌, is_none,
  text_append, if◌then◌else◌,
}
use xian_dex_automation.Outcome.{raise_if, Exn, exn}
use xian_dex_automation.Config.{AutomationConfig}
use xian_dex_automation.Storage.{pending_execution, get_cursor, save_cursor}
use xian_dex_automation.Runtime.{
  Action, pure, lift, reads, queries, transact, ◌>>=◌, ◌>>◌, Request, Platform,
}
use xian_dex_automation.Planning.{Client}
use xian_dex_automation.DexClient
use xian_dex_automation.Evaluator.{
  AutomationWorker, ask_lock, configuration_changed_since, recover_once, evaluate_event_pair,
  pair_ids_from_event,
}

-- An event: its id, and the pair that its data names.
pub record PairsEvent : Type 0 where
  pub id : Option ℕ
  pub pair : Option ℕ

abbrev changed_error : Exn
changed_error = exn "ConfigurationChanged" ""

abbrev cursor_name : AutomationWorker → String
cursor_name worker = text_append worker.config.dex.pairs_contract ":Sync"

module _ (p : Platform) where
  -- The pairs of an event, one after the other; `false` if the rounds were not enough for one.
  evaluate_pairs : ℕ → AutomationWorker → Client → List ℕ → Action Bool
  evaluate_pairs rounds worker client [] = pure true
  evaluate_pairs rounds worker client (n ∷ ns) =
      let rest = evaluate_pairs rounds worker client ns in
      do done ← evaluate_event_pair p rounds worker client n; if done then rest else pure false

  save_position : String → Option ℕ → Action (Unit {0})
  save_position name none = pure tt
  save_position name (some n) = transact p.net.failure (save_cursor name n)

  -- One event.
  watch_event : ℕ → AutomationWorker → Client → PairsEvent → Action Bool
  unfolding evaluate_pairs save_position
  watch_event rounds worker client event = do
    done ← evaluate_pairs rounds worker client (pair_ids_from_event worker.config.rules event.pair)
    if not done then pure false else (do
      changed ← reads (configuration_changed_since p worker)
      lift (raise_if changed changed_error)
      save_position (cursor_name worker) event.id
      pure true)

  watch_all : ℕ → AutomationWorker → Client → List PairsEvent → Action Bool
  unfolding watch_event
  watch_all rounds worker client [] = pure true
  watch_all rounds worker client (event ∷ events) =
      let rest = watch_all rounds worker client events in
      do done ← watch_event rounds worker client event; if done then rest else pure false

  -- `_watch_events`, given the events that come after each cursor.
  pub watch_events : ℕ → AutomationWorker → (Option ℕ → List PairsEvent) → Action Bool
  unfolding watch_all
  watch_events rounds worker events = do
    cursor ← reads (get_cursor (cursor_name worker))
    admitted ← ask_lock p Request.configuration_lock p.net.configuration_lock
    changed ← reads (configuration_changed_since p worker)
    lift (raise_if (not admitted || changed) changed_error)
    client ← DexClient.enter p worker.config
    watch_all rounds worker client (events cursor)

  -- The loop at the start of `_run_configuration`; `false` if the rounds were not enough.
  settle_pending : ℕ → AutomationWorker → Action Bool
  settle_pending zero worker = pure false
  settle_pending (suc rounds) worker =
      let again = settle_pending rounds worker in
      do
        left ← queries (pending_execution p.sdk)
        if is_none left then pure true else (do recover_once p worker; again)

  -- `_run_configuration`.
  pub run_configuration : ℕ → AutomationWorker → (Option ℕ → List PairsEvent) → Action Bool
  unfolding settle_pending watch_events
  run_configuration rounds worker events = do
    settled ← settle_pending rounds worker
    if settled then watch_events rounds worker events else pure false
