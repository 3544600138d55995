-- ===== src/Execution.antt =====
-- Recovery of a journaled swap (src/xian_dex_automation/execution.py), under the execution lock.
pub mod Journaled
pub mod Settles
pub mod Invariants
use xian_dex_automation.Base.{
  String, Bool, true, false, not, Option, none, some, insert, if◌then◌else◌,
}
use xian_dex_automation.Outcome.{Outcome, ok, Exn, describe}
use xian_dex_automation.Time.{Instant}
use xian_dex_automation.Report.{Report, text}
use xian_dex_automation.Submission.{PreparedSwap, PendingExecution, pending_result, make_swap}
use xian_dex_automation.Storage
use xian_dex_automation.Storage.{
  release_consumed_execution, resolve_uncertain_execution, mark_broadcast_attempted,
  note_execution_error, finish_execution,
}
use xian_dex_automation.Runtime.{
  Action, ask, pure, lift, queries, transact, try_except, ◌>>=◌, ◌>>◌, Request, Platform, Receipt,
  utc_now,
}
use xian_dex_automation.Transport

module _ (p : Platform) where
  -- `_finish_receipt`.
  finish_receipt : PendingExecution → Receipt → Action Report
  finish_receipt e receipt = do
    now ← utc_now p
    transact p.net.failure (finish_execution e.run_id receipt.success now receipt.message)

  -- `_lookup_receipt`: a lookup that raises counts as no receipt.
  pub lookup_receipt : PreparedSwap → Action (Option Receipt)
  lookup_receipt s = try_except (Transport.lookup p s) (λ _. pure none)

  received : PendingExecution → Option Receipt → Action Report
  unfolding finish_receipt
  received e none = pure (pending_result e)
  received e (some r) = finish_receipt e r

  -- The lookup after a broadcast.
  look_again : PendingExecution → PreparedSwap → Action Report
  unfolding received
  look_again e s = do receipt ← Transport.lookup p s; received e receipt

  -- Only the rejection of a first attempt is definitive.
  after_broadcast : PendingExecution → PreparedSwap → Option String → Action Report
  unfolding look_again
  after_broadcast e s none = look_again e s
  after_broadcast e s (some rejected) =
      if not e.broadcast_attempted
      then (do
        now ← utc_now p
        transact p.net.failure (finish_execution e.run_id false now (some rejected)))
      else look_again e s

  -- The part of `_reconcile` that may broadcast.
  resend : PendingExecution → PreparedSwap → Bool → Action Report
  unfolding after_broadcast
  resend e s false = pure (pending_result e)
  resend e s true = do
    transact p.net.failure (mark_broadcast_attempted e.run_id)
    rejected ← Transport.broadcast p s
    after_broadcast e s rejected

  -- What follows the lookup of an execution that was attempted before.
  without_receipt : PendingExecution → PreparedSwap → Bool → Action Report
  unfolding resend
  without_receipt e s allow_broadcast = do
    used ← Transport.nonce_consumed p s
    if used
        then transact p.net.failure (release_consumed_execution e.run_id)
        else resend e s allow_broadcast

  with_lookup : PendingExecution → PreparedSwap → Bool → Option Receipt → Action Report
  unfolding without_receipt finish_receipt
  with_lookup e s allow_broadcast none = without_receipt e s allow_broadcast
  with_lookup e s allow_broadcast (some r) = finish_receipt e r

  -- The part of `_reconcile` for an execution that was attempted before.
  settle_attempted : PendingExecution → PreparedSwap → Bool → Action Report
  unfolding with_lookup lookup_receipt
  settle_attempted e s allow_broadcast = do
    receipt ← lookup_receipt s
    with_lookup e s allow_broadcast receipt

  -- `_reconcile`, inside the transport's session.
  reconcile : PendingExecution → PreparedSwap → Bool → Action Report
  unfolding settle_attempted
  reconcile e s allow_broadcast = do
    Transport.enter p s
    if e.broadcast_attempted
        then settle_attempted e s allow_broadcast
        else resend e s allow_broadcast

  -- The handler of `reconcile_execution`: it notes the error in the run, and reports the execution
  -- as pending.
  note_failure : PendingExecution → Exn → Action (Option Report)
  note_failure e exc = do
    transact p.net.failure (note_execution_error e.run_id (describe exc))
    pure (
        some (record (pending_result e) {
          details = insert "recovery_error" (text (describe exc)) e.details;
        }))

  -- `replace(prepared, rpc_url=rpc_url)`, which checks the chain again.
  redirect : Option String → PreparedSwap → Outcome PreparedSwap
  redirect none s = ok s
  redirect (some url) s = make_swap p.sdk url s.chain_id s.transaction

  reconcile_pending : Bool → Option String → Option PendingExecution → Action (Option Report)
  unfolding reconcile note_failure redirect
  reconcile_pending allow_broadcast rpc_url none = pure none
  reconcile_pending allow_broadcast rpc_url (some e) = do
    s ← lift (redirect rpc_url e.prepared)
    try_except (do r ← reconcile e s allow_broadcast; pure (some r)) (note_failure e)

  pub reconcile_execution : Bool → Option String → Action (Option Report)
  unfolding reconcile_pending
  reconcile_execution allow_broadcast rpc_url = do
    e ← queries (Storage.pending_execution p.sdk)
    reconcile_pending allow_broadcast rpc_url e

  -- A receipt that was found settles the uncertain execution.
  settle_uncertain : PendingExecution → Option Receipt → Action Bool
  settle_uncertain e none = pure true
  settle_uncertain e (some r) = do
    now ← utc_now p
    transact p.net.failure (resolve_uncertain_execution e.run_id r.success r.message now)
    pure false

  look_up_uncertain : Option PendingExecution → Action Bool
  unfolding settle_uncertain
  look_up_uncertain none = pure false
  look_up_uncertain (some e) =
      try_except
        (do
          Transport.enter p e.prepared
          receipt ← Transport.lookup p e.prepared
          settle_uncertain e receipt)
        (λ _. pure true)

  -- Whether the rule remains held.
  pub reconcile_uncertain_rule : String → Action Bool
  unfolding look_up_uncertain
  reconcile_uncertain_rule rule_id = do
    e ← queries (Storage.uncertain_execution p.sdk rule_id)
    look_up_uncertain e
