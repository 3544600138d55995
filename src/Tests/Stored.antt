-- ===== src/Tests/Stored.antt =====
-- The theorems on the store, at small databases.
use xian_dex_automation.Base.{String, true, false, ◌≡◌, refl, some, [], ◌∷◌, suc}
use xian_dex_automation.Base.Int.{pos}
use xian_dex_automation.Outcome.{ok}
use xian_dex_automation.Report.{pending, price_move_threshold_reached}
use xian_dex_automation.Submission.{PreparedSwap, PendingExecution, make_swap}
use xian_dex_automation.Storage.{
  Database, new_database, Run, begin_execution, save_active_config, get_rule_state, active_config,
  config_generation,
}
use xian_dex_automation.Storage.Journal.{pending_execution, execution_from_row}
use xian_dex_automation.Storage.Journal.RoundTrip.{begin-pending_execution}
use xian_dex_automation.Storage.Markets.Resets.{save_active_config-states, Forgets}
use xian_dex_automation.Storage.Tables.{find_run}
use xian_dex_automation.Storage.Settlement.{mark_broadcast_attempted}
use xian_dex_automation.Tests.{config}
use xian_dex_automation.Tests.Sending.{platform, crashed, crashed_row}

abbrev swap : PreparedSwap
swap = record {
  rpc_url = "http://127.0.0.1:26657";
  chain_id = "xian-1";
  transaction = record { json_bytes = "signed"; tx_hash = "AB12" };
}

begin-pending_execution_example :
    (e : PendingExecution) × (db' : Database) × (run : Run) × (begin_execution "buy-dip" swap
        (some (pos 2000))
        price_move_threshold_reached
        []
        5
        new_database
      ≡ ok (e, db'))
    × (pending_execution platform.sdk db' ≡ ok (some e))
    × (e.rule_id ≡ "buy-dip")
    × (e.prepared ≡ swap)
    × (e.reason ≡ price_move_threshold_reached)
    × (e.details ≡ [])
    × (e.broadcast_attempted ≡ false)
    × (db'.runs ≡ run ∷ [])
    × (run.id ≡ e.run_id)
    × (run.rule_id ≡ "buy-dip")
    × (run.reason ≡ price_move_threshold_reached)
    × (run.details ≡ [])
    × (run.status ≡ pending)
    × (run.tx_hash ≡ some "AB12")
begin-pending_execution_example =
    begin-pending_execution platform.sdk "buy-dip" swap (some (pos 2000))
      price_move_threshold_reached [] 5 new_database
      (record { chain_id = "xian-1"; sender = "keeper"; nonce = 1 }) (refl, refl, refl) refl

save_active_config-states_example :
    (db' : Database) × (save_active_config (config true) (config false) new_database ≡ ok (tt, db'))
    × (active_config (config false) db' ≡ config true)
    × (config_generation db' ≡ suc (config_generation new_database))
    × ((k : String)
        → Forgets
            (config false)
            (config true)
            k
            (get_rule_state k new_database)
            (get_rule_state k db'))
save_active_config-states_example =
    save_active_config-states (config true) (config false) (config false) new_database

abbrev read_back : PendingExecution
read_back = record {
  run_id = 1;
  rule_id = "buy-dip";
  prepared = swap;
  broadcast_attempted = false;
  reason = price_move_threshold_reached;
  details = [];
}

pending_execution-crashed : pending_execution platform.sdk crashed ≡ ok (some read_back)
unfolding pending_execution execution_from_row make_swap find_run
pending_execution-crashed = refl

abbrev marked : Database
marked = record crashed { slot = some (record crashed_row { broadcast_attempted = true }) }

mark-crashed : mark_broadcast_attempted 1 crashed ≡ ok (tt, marked)
unfolding mark_broadcast_attempted
mark-crashed = refl
