-- ===== src/Storage/Settlement.antt =====
-- What becomes of a journaled submission (src/xian_dex_automation/storage.py).
pub mod Marking
use xian_dex_automation.Base.{
  ℕ, String, Bool, true, false, Option, none, some, List, [], ◌∷◌, ◌++◌, Dict, insert, erase,
  text_or, ◌==◌, if◌then◌else◌,
}
use xian_dex_automation.Outcome.{Outcome, ok, raised, exn, value_error, ◌>>=◌}
use xian_dex_automation.Decimal.{Decimal}
use xian_dex_automation.Time.{Instant}
use xian_dex_automation.Report.{
  Details, Json, boolean, text, Report, submitted, failed, outcome_unknown, Reason,
  submission_failed, nonce_consumed_receipt_missing, receipt_recovered,
}
use xian_dex_automation.Rules.{RuleRuntimeState}
use xian_dex_automation.Storage.Tables.{
  Run, PendingRow, UncertainRow, Database, Transaction, find_run, update_run, find_uncertain,
  delete_uncertain,
}

-- `_execution_result`.
unfoldable pub execution_result :
    String → Option String → Reason → Details → Bool → Option String → Report
execution_result rule_id tx_hash reason details true error = record {
  rule_id = some rule_id;
  status = submitted;
  reason = reason;
  tx_hash = tx_hash;
  details = erase "recovery_error" details;
}
execution_result rule_id tx_hash reason details false error = record {
  rule_id = some rule_id;
  status = failed;
  reason = submission_failed;
  tx_hash = tx_hash;
  details =
      insert "error" (text (text_or error "swap execution failed"))
        (erase "recovery_error" details);
}

-- The journal row of a run, joined with the run: `where p.run_id = ?`.
unfoldable pub row_and_run : PendingRow → Option Run → Outcome (PendingRow × Run)
row_and_run p none = raised (value_error "no matching active execution")
row_and_run p (some r) = ok (p, r)

unfoldable pub slot_row : ℕ → Option PendingRow → List Run → Outcome (PendingRow × Run)
unfolding row_and_run
slot_row n none runs = raised (value_error "no matching active execution")
slot_row n (some p) runs =
    if p.run_id == n
    then row_and_run p (find_run n runs)
    else raised (value_error "no matching active execution")

unfoldable pub active_row : ℕ → Database → Outcome (PendingRow × Run)
unfolding slot_row
active_row n db = slot_row n db.slot db.runs

abbrev pub to_uncertain : PendingRow → UncertainRow
to_uncertain p = record {
  run_id = p.run_id;
  rpc_url = p.rpc_url;
  chain_id = p.chain_id;
  tx_json = p.tx_json;
  tx_hash = p.tx_hash;
}

-- The result of a release: the details lose the recovery error and gain `nonce_consumed`.
abbrev pub released : PendingRow → Run → Report
released p r = record {
  rule_id = some r.rule_id;
  status = outcome_unknown;
  reason = nonce_consumed_receipt_missing;
  tx_hash = some p.tx_hash;
  details = insert "nonce_consumed" (boolean true) (erase "recovery_error" r.details);
}

unfoldable pub insert_uncertain : PendingRow → List UncertainRow → Outcome (List UncertainRow)
unfolding find_uncertain
insert_uncertain p us = elim (find_uncertain p.run_id us) [
  | none ↦ ok (us ++ to_uncertain p ∷ [])
  | some _ ↦ raised (exn "IntegrityError" "UNIQUE constraint failed: uncertain_executions.run_id")
]

unfoldable pub release_consumed_execution : ℕ → Transaction Report
unfolding active_row insert_uncertain
release_consumed_execution n db = do
  (p, r) ← active_row n db
  held ← insert_uncertain p db.uncertain
  ok (
    released p r,
    record db {
      uncertain = held;
      runs =
          update_run n (released p r).status (released p r).reason (released p r).details db.runs;
      slot = none;
    },
  )

unfoldable pub uncertain_run : Option UncertainRow → Option Run → Outcome Run
uncertain_run (some u) (some r) = ok r
uncertain_run _ _ = raised (value_error "no matching uncertain execution")

unfoldable pub resolve_uncertain_execution :
    ℕ → Bool → Option String → Instant → Transaction (Unit {0})
unfolding uncertain_run find_uncertain
resolve_uncertain_execution n success error now db = do
  r ← uncertain_run (find_uncertain n db.uncertain) (find_run n db.runs)
  let result = execution_result r.rule_id r.tx_hash r.reason r.details success error
  ok (
    tt,
    record db {
      runs = update_run n result.status receipt_recovered result.details db.runs;
      rule_state =
          insert r.rule_id (record { baseline_price = none; last_action_at = some now })
            db.rule_state;
      uncertain = delete_uncertain n db.uncertain;
    },
  )

unfoldable pub mark_slot : ℕ → Option PendingRow → Outcome PendingRow
mark_slot n none = raised (value_error "no matching active execution")
mark_slot n (some p) =
    if p.run_id == n
    then ok (record p { broadcast_attempted = true })
    else raised (value_error "no matching active execution")

unfoldable pub mark_broadcast_attempted : ℕ → Transaction (Unit {0})
unfolding mark_slot
mark_broadcast_attempted n db = do p ← mark_slot n db.slot; ok (tt, record db { slot = some p })

-- `update runs set details_json = json_set(...) where id = ?`
unfoldable pub set_details : ℕ → String → Json → List Run → List Run
set_details n k v [] = []
set_details n k v (r ∷ rs) =
    (if r.id == n then record r { details = insert k v r.details } else r) ∷ set_details n k v rs

unfoldable pub slot_holds : ℕ → Option PendingRow → Bool
slot_holds n none = false
slot_holds n (some p) = p.run_id == n

unfoldable pub note_execution_error : ℕ → String → Transaction (Unit {0})
unfolding set_details slot_holds
note_execution_error n error db = ok (
  tt,
  record db {
    runs =
        if slot_holds n db.slot
        then set_details n "recovery_error" (text error) db.runs
        else db.runs;
  },
)

-- The rule state that a finished execution leaves; `Decimal("None")` raises.
unfoldable pub finished_state :
    Bool
    → String
    → Option Decimal
    → Instant
    → Dict RuleRuntimeState
    → Outcome (Dict RuleRuntimeState)
finished_state false rule_id next now states = ok states
finished_state true rule_id none now states =
    raised (exn "InvalidOperation" "[<class 'decimal.ConversionSyntax'>]")
finished_state true rule_id (some price) now states =
    ok (insert rule_id (record { baseline_price = some price; last_action_at = some now }) states)

unfoldable pub finish_execution : ℕ → Bool → Instant → Option String → Transaction Report
unfolding active_row finished_state
finish_execution n success now error db = do
  (p, r) ← active_row n db
  let result = execution_result r.rule_id (some p.tx_hash) r.reason r.details success error
  states ← finished_state success r.rule_id p.next_baseline_price now db.rule_state
  ok (
    result,
    record db {
      rule_state = states;
      runs = update_run n result.status result.reason result.details db.runs;
      slot = none;
    },
  )
