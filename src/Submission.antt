-- ===== src/Submission.antt =====
-- The identity of a signed swap (src/xian_dex_automation/submission.py, the data classes).
-- The SDK's transaction format is a parameter.
use xian_dex_automation.Base.{ℕ, String, Bool, some, str_eq, not}
use xian_dex_automation.Outcome.{Outcome, ok, value_error, raise_if, ◌>>=◌, ◌>>◌}
use xian_dex_automation.Report.{Details, Report, Reason, pending, submission_pending}

-- `xian_py.transaction.PreparedTransaction`.
pub record PreparedTransaction : Type 0 where
  pub json_bytes : String
  pub tx_hash : String

-- `json.loads(json_bytes)["payload"]`, the keys that the service reads.
pub record Payload : Type 0 where
  pub chain_id : String
  pub sender : String
  pub nonce : ℕ

-- The functions of `xian_py.transaction` over signed bytes.
pub record Sdk : Type 0 where
  pub prepare_transaction : String → Outcome PreparedTransaction
  pub payload : String → Outcome Payload

pub record PreparedSwap : Type 0 where
  pub rpc_url : String
  pub chain_id : String
  pub transaction : PreparedTransaction

-- `PreparedSwap(...)`, with `__post_init__`.
unfoldable pub make_swap : Sdk → String → String → PreparedTransaction → Outcome PreparedSwap
make_swap sdk rpc_url chain_id transaction = do
  payload ← sdk.payload transaction.json_bytes
  raise_if (not (str_eq payload.chain_id chain_id))
      (value_error "persisted transaction chain ID mismatch")
  ok (record { rpc_url = rpc_url; chain_id = chain_id; transaction = transaction })

pub record PendingExecution : Type 0 where
  pub run_id : ℕ
  pub rule_id : String
  pub prepared : PreparedSwap
  pub broadcast_attempted : Bool
  pub reason : Reason
  pub details : Details

-- `PendingExecution.result`.
abbrev pub pending_result : PendingExecution → Report
pending_result p = record {
  rule_id = some p.rule_id;
  status = pending;
  reason = submission_pending;
  tx_hash = some p.prepared.transaction.tx_hash;
  details = p.details;
}
