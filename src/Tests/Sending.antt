-- ===== src/Tests/Sending.antt =====
-- The theorems on what is sent, at a store with a journaled swap and a network that accepts it.
use xian_dex_automation.Base.{Bool, true, false, ◌≡◌, refl, none, some, [], ◌∷◌}
use xian_dex_automation.Base.Int.{pos}
use xian_dex_automation.Outcome.{ok, raised, value_error}
use xian_dex_automation.Decimal.Fixed.{fixed}
use xian_dex_automation.Report.{pending, price_move_threshold_reached}
use xian_dex_automation.Storage.{Database, new_database, PendingRow}
use xian_dex_automation.Runtime.{Platform, Network, World, integer, absent}
use xian_dex_automation.Planning.{Client}
use xian_dex_automation.Execution.{reconcile_execution}
use xian_dex_automation.Execution.Journaled.{AllBacked, reconcile_execution-AllBacked}
use xian_dex_automation.Evaluator.{AutomationWorker, evaluate_pair, evaluate_event_pair}
use xian_dex_automation.Evaluator.Journaled.{evaluate_event_pair-AllBacked}
use xian_dex_automation.Evaluator.DryRun.{sent, evaluate_pair-sent}
use xian_dex_automation.Configuration.{Publication, update}
use xian_dex_automation.Configuration.Draining.{update-sent}
use xian_dex_automation.Tests.{config}

-- A network that answers each request, and knows no receipt.
abbrev pub network : Network
network = record {
  connect = λ h url. ok tt;
  chain_id = λ h url. ok "xian-1";
  get_state = λ h url key. ok (integer (pos 0));
  broadcast = λ h url tx.
      ok (record { has_error = false; code = some (pos 0); hash = some tx.tx_hash; log = none });
  wait_for_tx = λ h url hash. ok none;
  pair_state = λ h pair field. ok absent;
  trade_fee = λ h who. ok 30;
  node_status = λ h. ok none;
  estimate_chi = λ h plan. ok 1000;
  next_nonce = λ h who. ok 1;
  clock = λ h. 300000000;
  failure = λ h. none;
  execution_lock = λ h. true;
  configuration_lock = λ h. true;
}

abbrev pub platform : Platform
platform = record {
  context = fixed;
  sdk = record {
    prepare_transaction = λ bytes. ok (record { json_bytes = bytes; tx_hash = "AB12" });
    payload = λ bytes. ok (record { chain_id = "xian-1"; sender = "keeper"; nonce = 1 });
  };
  net = network;
  str = record {
    strip = λ s. s;
    upper = λ s. s;
    lower = λ s. s;
    to_decimal = λ s. raised (value_error "not a number");
  };
  secrets = record { environ = λ name. some "key"; read_text = λ path. ok "key" };
  public_key = λ key. ok "keeper";
  sign = λ key chain plan nonce chi. ok (record { json_bytes = "signed"; tx_hash = "AB12" });
  same_config = λ a b. true;
}

abbrev pub crashed_row : PendingRow
crashed_row = record {
  run_id = 1;
  rpc_url = "http://127.0.0.1:26657";
  chain_id = "xian-1";
  tx_json = "signed";
  tx_hash = "AB12";
  next_baseline_price = some (pos 2000);
  broadcast_attempted = false;
}

-- What a process leaves that dies between the journal and the broadcast.
abbrev pub crashed : Database
crashed = record new_database {
  sequence = 1;
  runs =
      record {
        id = 1;
        rule_id = "buy-dip";
        status = pending;
        reason = price_move_threshold_reached;
        tx_hash = some "AB12";
        details = [];
        created_at = 0;
      }
      ∷ [];
  slot = some crashed_row;
}

abbrev pub world : World
world = record { store = crashed; calls = [] }

abbrev pub worker : Bool → AutomationWorker
worker execute = record { config = config execute; config_generation = 0 }

abbrev pub client : Bool → Client
client execute = record {
  config = config execute;
  key = some "key";
  wallet_address = some "keeper";
}

evaluate_event_pair-AllBacked_example :
    AllBacked (evaluate_event_pair platform 3 (worker true) (client true) 1 world).1
evaluate_event_pair-AllBacked_example =
    evaluate_event_pair-AllBacked platform 3 (worker true) (client true) 1 world
      (record { backed = tt })

reconcile_execution-AllBacked_example : AllBacked (reconcile_execution platform true none world).1
reconcile_execution-AllBacked_example =
    reconcile_execution-AllBacked platform true none world (record { backed = tt })

evaluate_pair-sent_example :
    sent (evaluate_pair platform (worker false) (client false) 1 world).1.calls ≡ 0
evaluate_pair-sent_example = evaluate_pair-sent platform (worker false) (client false) 1 world refl

abbrev pub publication : Publication
publication = record { commit = λ h. ok tt; after_commit = none; is_store_path = λ path. true }

update-sent_example :
    sent (update platform 2 publication (config true) (config false) world).1.calls ≡ 0
update-sent_example = update-sent platform 2 publication (config true) (config false) world refl
