-- ===== src/Tests/Settling.antt =====
-- The theorem on a receipt that is found, at a store that a crash left after the broadcast.
use xian_dex_automation.Base.{ℕ, String, true, false, ◌≡◌, refl, Option, some, none, [], arith}
use xian_dex_automation.Base.Int.{pos}
use xian_dex_automation.Outcome.{ok}
use xian_dex_automation.Report.{Report, pending, submitted, price_move_threshold_reached}
use xian_dex_automation.Submission.{PendingExecution, make_swap}
use xian_dex_automation.Storage.{PendingRow}
use xian_dex_automation.Storage.Tables.{find_run, find_uncertain}
use xian_dex_automation.Storage.Journal.{pending_execution, from_slot, joined, execution_from_row}
use xian_dex_automation.Storage.Consistency.{IsConsistent, entry, slot_id}
use xian_dex_automation.Runtime.{Platform, World, Receipt}
use xian_dex_automation.Execution.{reconcile_execution}
use xian_dex_automation.Execution.Settles.{reconcile_execution-Settled}
use xian_dex_automation.Tests.Sending.{platform, network, crashed, crashed_row}

abbrev receipt : Receipt
receipt = record { tx_hash = "AB12"; success = true; message = none }

abbrev settling : Platform
settling = record platform {
  net = record network { wait_for_tx = λ h url hash. ok (some receipt) };
}

abbrev sent_row : PendingRow
sent_row = record crashed_row { broadcast_attempted = true }

abbrev sent : World
sent = record { store = record crashed { slot = some sent_row }; calls = [] }

abbrev execution : PendingExecution
execution = record {
  run_id = 1;
  rule_id = "buy-dip";
  prepared = record {
    rpc_url = "http://127.0.0.1:26657";
    chain_id = "xian-1";
    transaction = record { json_bytes = "signed"; tx_hash = "AB12" };
  };
  broadcast_attempted = true;
  reason = price_move_threshold_reached;
  details = [];
}

sent-only :
    (n : ℕ) (hash : Option String)
    → entry n sent.store.runs ≡ some (pending, hash)
    → slot_id sent.store.slot ≡ some n
unfolding find_run
sent-only n hash e = ground arith

sent-IsConsistent : IsConsistent sent.store
unfolding find_run find_uncertain
sent-IsConsistent = record {
  given = (omega arith, tt);
  journal = refl;
  only = sent-only;
  held = λ n u e. ground arith;
}

sent-read : pending_execution settling.sdk sent.store ≡ ok (some execution)
unfolding pending_execution from_slot joined find_run execution_from_row make_swap
sent-read = refl

reconcile_execution-Settled_example :
    (result : Report) × (v : World) × (reconcile_execution settling false none sent
      ≡ (ok (some result), v))
    × (result.status ≡ submitted)
    × (v.store.slot ≡ none)
reconcile_execution-Settled_example =
    reconcile_execution-Settled settling false sent sent_row execution receipt (pos 2000)
      sent-IsConsistent refl refl refl sent-read (λ h. refl) (λ h. refl) (λ h. refl) refl
      (λ h. refl)
