-- ===== src/Storage/Journal.antt =====
-- The journal of submissions (src/xian_dex_automation/storage.py): writing a signed swap down, and
-- reading it back.
pub mod Reading
pub mod RoundTrip
use xian_dex_automation.Base.{
  ℕ, String, Bool, true, false, not, Option, none, some, List, [], ◌∷◌, str_eq, if◌then◌else◌,
}
use xian_dex_automation.Outcome.{Outcome, ok, raised, exn, value_error, raise_if, ◌>>=◌, ◌>>◌}
use xian_dex_automation.Decimal.{Decimal}
use xian_dex_automation.Time.{Instant}
use xian_dex_automation.Report.{Details, pending, Reason}
use xian_dex_automation.Submission.{Sdk, PreparedSwap, make_swap, PendingExecution}
use xian_dex_automation.Storage.Tables.{
  Run, PendingRow, UncertainRow, Database, Transaction, find_run, append_row,
}

-- The row that `begin_execution` inserts into the journal.
abbrev pub journal_row : ℕ → PreparedSwap → Option Decimal → PendingRow
journal_row run_id prepared next = record {
  run_id = run_id;
  rpc_url = prepared.rpc_url;
  chain_id = prepared.chain_id;
  tx_json = prepared.transaction.json_bytes;
  tx_hash = prepared.transaction.tx_hash;
  next_baseline_price = next;
  broadcast_attempted = false;
}

-- The insert into the singleton table, which fails where the slot is taken.
unfoldable pub insert_slot : Option PendingRow → PendingRow → Database → Outcome Database
insert_slot none row db = ok (record db { slot = some row })
insert_slot (some old) row db =
    raised (exn "IntegrityError" "UNIQUE constraint failed: pending_execution.slot")

unfoldable pub begin_execution :
    String
    → PreparedSwap
    → Option Decimal
    → Reason
    → Details
    → Instant
    → Transaction PendingExecution
unfolding append_row insert_slot
begin_execution rule_id prepared next reason details now db =
    let tx_hash = some prepared.transaction.tx_hash in
    let (run_id, db') = append_row rule_id pending reason tx_hash details now db in
    do
      db'' ← insert_slot db'.slot (journal_row run_id prepared next) db'
      ok (
        record {
          run_id = run_id;
          rule_id = rule_id;
          prepared = prepared;
          broadcast_attempted = false;
          reason = reason;
          details = details;
        },
        db'',
      )

module _ (sdk : Sdk) where
  -- `_execution_from_row`, over the columns of a journal row and of its run.
  unfoldable pub execution_from_row :
      ℕ → String → String → String → String → Bool → Run → Outcome PendingExecution
  execution_from_row run_id rpc_url chain_id tx_json tx_hash attempted run = do
    transaction ← sdk.prepare_transaction tx_json
    raise_if (not (str_eq transaction.tx_hash tx_hash))
        (value_error "persisted transaction hash mismatch")
    prepared ← make_swap sdk rpc_url chain_id transaction
    ok (record {
      run_id = run_id;
      rule_id = run.rule_id;
      prepared = prepared;
      broadcast_attempted = attempted;
      reason = run.reason;
      details = run.details;
    })

  unfoldable pub joined : PendingRow → Option Run → Outcome (Option PendingExecution)
  joined p none = ok none
  joined p (some run) = do
    e ←
        execution_from_row p.run_id p.rpc_url p.chain_id p.tx_json p.tx_hash p.broadcast_attempted
          run
    ok (some e)

  unfoldable pub from_slot : Option PendingRow → List Run → Outcome (Option PendingExecution)
  unfolding joined
  from_slot none runs = ok none
  from_slot (some p) runs = joined p (find_run p.run_id runs)

  unfoldable pub pending_execution : Database → Outcome (Option PendingExecution)
  unfolding from_slot
  pending_execution db = from_slot db.slot db.runs

  -- Whether the run belongs to the rule, and the row with it if so.
  of_rule : String → UncertainRow → Option Run → Option (UncertainRow × Run)
  of_rule rule_id u none = none
  of_rule rule_id u (some r) = if str_eq r.rule_id rule_id then some (u, r) else none

  uncertain_of : String → List UncertainRow → List Run → Option (UncertainRow × Run)
  unfolding of_rule
  uncertain_of rule_id [] runs = none
  uncertain_of rule_id (u ∷ us) runs = elim (of_rule rule_id u (find_run u.run_id runs)) [
    | some found ↦ some found
    | none ↦ uncertain_of rule_id us runs
  ]

  uncertain_found : Option (UncertainRow × Run) → Outcome (Option PendingExecution)
  uncertain_found none = ok none
  uncertain_found (some (u, r)) = do
    e ← execution_from_row u.run_id u.rpc_url u.chain_id u.tx_json u.tx_hash true r
    ok (some e)

  pub uncertain_execution : String → Database → Outcome (Option PendingExecution)
  unfolding uncertain_of uncertain_found
  uncertain_execution rule_id db = uncertain_found (uncertain_of rule_id db.uncertain db.runs)
