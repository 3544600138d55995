-- ===== src/Storage/Journal/RoundTrip.antt =====
-- Writing a signed swap into the journal and reading it back (storage.py).
use xian_dex_automation.Base.{
  false, ◌∷◌, eq_refl, String, ◌≡◌, refl, Option, none, some, arith, eq_iff, suc,
}
use xian_dex_automation.Outcome.{ok}
use xian_dex_automation.Decimal.{Decimal}
use xian_dex_automation.Time.{Instant}
use xian_dex_automation.Report.{Reason, Details, pending}
use xian_dex_automation.Submission.{Sdk, Payload, PreparedSwap, PendingExecution, make_swap}
use xian_dex_automation.Storage.Tables.{Run, Database, find_run, append_row}
use xian_dex_automation.Storage.Journal.{
  begin_execution, pending_execution, journal_row, execution_from_row, joined, from_slot,
  insert_slot,
}

module _ (sdk : Sdk) (rule_id : String) (s : PreparedSwap) (next : Option Decimal) (why : Reason)
    (d : Details) (now : Instant) (db : Database) where
  -- A swap whose bytes the SDK reads back, and whose chain is the one it was signed for.
  abbrev pub IsReadable : Payload → Type 0
  IsReadable payload =
      (sdk.prepare_transaction s.transaction.json_bytes ≡ ok s.transaction)
      × (sdk.payload s.transaction.json_bytes ≡ ok payload)
      × (payload.chain_id ≡ s.chain_id)

  abbrev entered : PendingExecution
  entered = record {
    run_id = suc db.sequence;
    rule_id = rule_id;
    prepared = s;
    broadcast_attempted = false;
    reason = why;
    details = d;
  }

  abbrev entered_run : Run
  entered_run = record {
    id = suc db.sequence;
    rule_id = rule_id;
    status = pending;
    reason = why;
    tx_hash = some s.transaction.tx_hash;
    details = d;
    created_at = now;
  }

  abbrev written : Database
  written = record db {
    sequence = suc db.sequence;
    runs = entered_run ∷ db.runs;
    slot = some (journal_row (suc db.sequence) s next);
  }

  begin_execution-written :
      db.slot ≡ none → begin_execution rule_id s next why d now db ≡ ok (entered, written)
  unfolding begin_execution append_row insert_slot
  begin_execution-written empty = ground arith

  pending_execution-written :
      (payload : Payload) → IsReadable payload → pending_execution sdk written ≡ ok (some entered)
  unfolding pending_execution from_slot joined execution_from_row make_swap find_run
  pending_execution-written payload (prepare, loads, chain) =
      ground (arith, eq_refl s.transaction.tx_hash, eq_iff payload.chain_id s.chain_id)

  -- With an empty slot `begin_execution` succeeds on a readable swap: it returns an execution with
  -- the rule, swap, reason and details that it was given and not yet attempted, and on the database
  -- that it leaves `pending_execution` returns that execution; its run stands first in `runs`, has
  -- the same rule, reason and details, is pending and names the swap's hash.
  pub begin-pending_execution :
      (payload : Payload)
      → IsReadable payload
      → db.slot ≡ none
      → (e : PendingExecution) × (db' : Database) × (run : Run) × (begin_execution rule_id s next
            why d now db
          ≡ ok (e, db'))
        × (pending_execution sdk db' ≡ ok (some e))
        × (e.rule_id ≡ rule_id)
        × (e.prepared ≡ s)
        × (e.reason ≡ why)
        × (e.details ≡ d)
        × (e.broadcast_attempted ≡ false)
        × (db'.runs ≡ run ∷ db.runs)
        × (run.id ≡ e.run_id)
        × (run.rule_id ≡ rule_id)
        × (run.reason ≡ why)
        × (run.details ≡ d)
        × (run.status ≡ pending)
        × (run.tx_hash ≡ some s.transaction.tx_hash)
  begin-pending_execution payload readable empty = (
    entered,
    written,
    entered_run,
    begin_execution-written empty,
    pending_execution-written payload readable,
    refl,
    refl,
    refl,
    refl,
    refl,
    refl,
    refl,
    refl,
    refl,
    refl,
    refl,
    refl,
  )
