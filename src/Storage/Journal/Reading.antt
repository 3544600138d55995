-- ===== src/Storage/Journal/Reading.antt =====
-- What a reading of the journal says of its row.
use xian_dex_automation.Base.{String, ◌≡◌, some, arith, eq_iff, Option-cases, inl, inr}
use xian_dex_automation.Outcome.{Outcome-cases, ok}
use xian_dex_automation.Submission.{
  Sdk, PendingExecution, PreparedSwap, PreparedTransaction, make_swap,
}
use xian_dex_automation.Storage.Tables.{Database, PendingRow, Run, find_run}
use xian_dex_automation.Storage.Journal.{execution_from_row, joined, from_slot, pending_execution}

-- The row that an execution was read from.
pub record IsReadFrom (e : PendingExecution) (row : PendingRow) : Type 0 where
  pub run : e.run_id ≡ row.run_id
  pub hash : e.prepared.transaction.tx_hash ≡ row.tx_hash
  pub chain : e.prepared.chain_id ≡ row.chain_id
  pub url : e.prepared.rpc_url ≡ row.rpc_url
  pub attempted : e.broadcast_attempted ≡ row.broadcast_attempted

-- A swap over the same transaction and chain.
pub make_swap-transaction :
    (sdk : Sdk) (url chain : String) (t : PreparedTransaction) (s : PreparedSwap)
    → make_swap sdk url chain t ≡ ok s
    → (s.transaction ≡ t) × (s.chain_id ≡ chain) × (s.rpc_url ≡ url)
unfolding make_swap
make_swap-transaction sdk url chain t s h = ground arith

-- The checks of `execution_from_row` after the SDK has read the bytes.
from_transaction-IsReadFrom :
    (sdk : Sdk) (row : PendingRow) (run : Run) (t : PreparedTransaction) (e : PendingExecution)
    → sdk.prepare_transaction row.tx_json ≡ ok t
    → execution_from_row sdk row.run_id row.rpc_url row.chain_id row.tx_json row.tx_hash
        row.broadcast_attempted run
      ≡ ok e
    → IsReadFrom e row
unfolding execution_from_row make_swap
from_transaction-IsReadFrom sdk row run t e p h = ground (arith, eq_iff t.tx_hash row.tx_hash)

execution_from_row-IsReadFrom :
    (sdk : Sdk) (row : PendingRow) (run : Run) (e : PendingExecution)
    → execution_from_row sdk row.run_id row.rpc_url row.chain_id row.tx_json row.tx_hash
        row.broadcast_attempted run
      ≡ ok e
    → IsReadFrom e row
unfolding execution_from_row make_swap
execution_from_row-IsReadFrom sdk row run e h =
    elim (Outcome-cases (sdk.prepare_transaction row.tx_json)) [
      | inl (t, p) ↦ from_transaction-IsReadFrom sdk row run t e p h
      | inr (inl c) ↦ ground arith
      | inr (inr (x, r)) ↦ ground arith
    ]

-- An execution that the journal returns was read from the row in the slot.
pub pending_execution-IsReadFrom :
    (sdk : Sdk) (db : Database) (e : PendingExecution)
    → pending_execution sdk db ≡ ok (some e)
    → (row : PendingRow) × (db.slot ≡ some row) × IsReadFrom e row
unfolding pending_execution from_slot joined
pending_execution-IsReadFrom sdk db e h = elim (Option-cases db.slot) [
  | inl empty ↦ ground arith
  | inr (row, at_slot) ↦ elim (Option-cases (find_run row.run_id db.runs)) [
    | inl missing ↦ ground arith
    | inr (run, found) ↦ (row, at_slot, execution_from_row-IsReadFrom sdk row run e (ground arith))
  ]
]
