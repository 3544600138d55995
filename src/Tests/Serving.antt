-- ===== src/Tests/Serving.antt =====
-- The theorems on the service, at a service that is idle.
use xian_dex_automation.Base.{
  true, false, ◌≡◌, ◌≢◌, refl, some, none, arith, [], All, lookup, select, insert, eq_iff, ◌↔◌,
}
use xian_dex_automation.Outcome.{ok, raised, Exn}
use xian_dex_automation.Config.{AutomationConfig, direct_wallet, RuleConfig}
use xian_dex_automation.Storage.{new_database}
use xian_dex_automation.Storage.Tables.{find_run, find_uncertain}
use xian_dex_automation.Storage.Consistency.{IsConsistent}
use xian_dex_automation.Runtime.{Platform, World}
use xian_dex_automation.Runtime.Orderly.{Orderly}
use xian_dex_automation.Execution.Journaled.{AllBacked}
use xian_dex_automation.Configuration.{
  update, update_rounds, publish_if_idle, drain, drain_pending, publish, after,
}
use xian_dex_automation.Config.Validation.{
  validate_config, validate_network, validate_custody, validate_rules, validate_rule,
  validate_trigger, validate_action, validate_strategy_rules,
}
use xian_dex_automation.Config.Paths.{
  resolve_optional_relative_path, parse_config_text, normalize_config_paths, resolve_relative_path,
}
use xian_dex_automation.Storage.Journal.{pending_execution, from_slot}
use xian_dex_automation.Storage.Markets.{
  active_config, save_active_config, reset_changed_markets, market_changed,
}
use xian_dex_automation.Service
use xian_dex_automation.Runtime
use xian_dex_automation.Service.{Host, Server}
use xian_dex_automation.Service.Changes.{
  validated_update, normalized_for_persist, wallet_address, current_config, persist_config,
  check_keeper, writable,
}
use xian_dex_automation.Service.Routes.{
  by_id, values, upserted, without_rule, wallet_reply, Route, once_saved, serve, Reply,
  put_config_yaml, upsert_rule, remove_rule, manage_key,
}
use xian_dex_automation.Service.Wallet.{
  WalletPayload, wallet_payload, payload_of, persist_wallet_key, wallet_key_path, default_key_path,
  key_path_from, wallet_with_key, write_private_key_file, wallet_key_source_changed,
}
use xian_dex_automation.Service.Effects.{SameSource, put_config_yaml-SameSource}
use xian_dex_automation.Service.RuleChanges.{
  IsDisabled, upsert_rule-lookup, remove_rule-lookup, manage_key-execute,
}
use xian_dex_automation.Service.Admission.{HttpRequest, require_admin_token}
use xian_dex_automation.Service.Admission.Admitted.{
  IsAdmitted, require_admin_token_iff, serve-refused,
}
use xian_dex_automation.Service.Invariants.{serve-Orderly, serve-AllBacked}
use xian_dex_automation.Credentials.{
  resolve_private_key, read_source, credential_source, env_or_file, file_source,
}
use xian_dex_automation.Configuration.Published.{IsPublished, update-IsPublished}
use xian_dex_automation.Tests.{config, rule}
use xian_dex_automation.Tests.Sending.{platform, publication}

abbrev pub served : AutomationConfig
served = record (config true) { custody = record { mode = direct_wallet; vault = none } }

abbrev host : Host
host = record {
  config_path = some "/etc/dex/config.yaml";
  admin_token = some "secret";
  store_path = "dex.sqlite3";
  paths = record {
    resolve = λ path. path;
    parent = λ path. "/etc/dex";
    join = λ base path. path;
    is_absolute = λ path. true;
    expanduser = λ path. path;
  };
  exists = λ h path. false;
  read_key = λ h path. ok "";
  write_key = λ h path key. ok tt;
  read_yaml = λ body. ok served;
  render_config = λ c. "";
  save_config = λ h c path. ok tt;
  new_key = ok "key";
}

-- No variable of the environment is set.
abbrev pub bare : Platform
bare = record platform { secrets = record { environ = λ name. none; read_text = λ path. ok "key" } }

abbrev pub server : Server
server = record {
  config = served;
  worker = record { config = served; config_generation = 0 };
  has_worker_task = true;
  last_error = none;
  world = record { store = new_database; calls = [] };
}

new_database-IsConsistent : IsConsistent new_database
unfolding find_run find_uncertain
new_database-IsConsistent = record {
  given = tt;
  journal = tt;
  only = λ n hash e. ground arith;
  held = λ n u e. ground arith;
}

pub server-Orderly : Orderly server.world
server-Orderly = record { consistent = new_database-IsConsistent; always = tt; history = tt }

put_config_yaml-server : (put_config_yaml bare host 1 "rules: []" server).0 ≡ ok Reply.saved
unfolding put_config_yaml update Service.◌>>=◌ Runtime.◌>>=◌ persist_config check_keeper
    parse_config_text validate_config validate_network validate_custody validate_rules validate_rule
    validate_trigger validate_action validate_strategy_rules normalize_config_paths
    resolve_relative_path current_config active_config wallet_key_source_changed update_rounds
    publish_if_idle drain drain_pending publish after pending_execution from_slot save_active_config
    reset_changed_markets market_changed once_saved writable
put_config_yaml-server = refl

put_config_yaml-SameSource_example :
    SameSource
      (current_config server)
      (current_config (put_config_yaml bare host 1 "rules: []" server).1)
put_config_yaml-SameSource_example =
    put_config_yaml-SameSource bare host 1 "rules: []" server Reply.saved server-Orderly
      put_config_yaml-server (λ e. ground arith)

abbrev cheaper : RuleConfig
cheaper = record rule { enabled = false }

upsert_rule-server :
    (upsert_rule bare host 1 "buy-dip" cheaper server).0 ≡ ok (Reply.rule_of cheaper)
unfolding upsert_rule validated_update normalized_for_persist upserted by_id values insert update
    Service.◌>>=◌ Runtime.◌>>=◌ persist_config check_keeper validate_config validate_network
    validate_custody validate_rules validate_rule validate_trigger validate_action
    validate_strategy_rules normalize_config_paths resolve_relative_path current_config
    active_config update_rounds publish_if_idle drain drain_pending publish after pending_execution
    from_slot save_active_config reset_changed_markets market_changed once_saved writable
upsert_rule-server = refl

upsert_rule-lookup_example :
    lookup "buy-dip"
      (by_id [] (current_config (upsert_rule bare host 1 "buy-dip" cheaper server).1).rules)
    ≡ some cheaper
upsert_rule-lookup_example =
    upsert_rule-lookup bare host 1 server (Reply.rule_of cheaper) "buy-dip" "buy-dip" cheaper
      server-Orderly refl upsert_rule-server (λ e. ground arith)

remove_rule-server : (remove_rule bare host 1 "buy-dip" server).0 ≡ ok (Reply.deleted "buy-dip")
unfolding remove_rule validated_update normalized_for_persist without_rule select update
    Service.◌>>=◌ Runtime.◌>>=◌ persist_config check_keeper validate_config validate_network
    validate_custody validate_rules validate_rule validate_trigger validate_action
    validate_strategy_rules normalize_config_paths resolve_relative_path current_config
    active_config update_rounds publish_if_idle drain drain_pending publish after pending_execution
    from_slot save_active_config reset_changed_markets market_changed once_saved writable
remove_rule-server = refl

remove_rule-lookup_example :
    All
      (λ (x : RuleConfig). x.id ≢ "buy-dip")
      (current_config (remove_rule bare host 1 "buy-dip" server).1).rules
    × (lookup "sell" (by_id [] (current_config (remove_rule bare host 1 "buy-dip" server).1).rules)
        ≡ lookup "sell" (by_id [] (current_config server).rules))
remove_rule-lookup_example =
    remove_rule-lookup bare host 1 server (Reply.deleted "buy-dip") "buy-dip" "sell"
      (λ e. ground (arith, (eq_iff "buy-dip" "sell").1 e)) server-Orderly remove_rule-server
      (λ e. ground arith)

abbrev keyed : WalletPayload
keyed = record {
  execute_enabled = false;
  private_key_env = "KEY";
  private_key_file = some "wallet.key";
  private_key_file_env = "KEY_FILE";
  private_key_source = some "wallet.key";
  address = some "keeper";
  recipient = none;
  custody_mode = direct_wallet;
  keeper_matches_config = none;
}

manage_key-server : (manage_key bare host 1 (ok "key") false server).0 ≡ ok (Reply.wallet_of keyed)
unfolding manage_key persist_wallet_key wallet_key_path default_key_path key_path_from
    wallet_with_key write_private_key_file wallet_reply wallet_payload payload_of wallet_address
    resolve_private_key read_source credential_source env_or_file file_source
    resolve_optional_relative_path validated_update normalized_for_persist update Service.◌>>=◌
    Runtime.◌>>=◌ persist_config check_keeper validate_config validate_network validate_custody
    validate_rules validate_rule validate_trigger validate_action validate_strategy_rules
    normalize_config_paths resolve_relative_path current_config active_config update_rounds
    publish_if_idle drain drain_pending publish after pending_execution from_slot save_active_config
    reset_changed_markets market_changed once_saved writable
manage_key-server = refl

manage_key-execute_example :
    IsDisabled
      (current_config server)
      (current_config (manage_key bare host 1 (ok "key") false server).1)
manage_key-execute_example =
    manage_key-execute bare host 1 server (Reply.wallet_of keyed) (ok "key") false server-Orderly
      manage_key-server (λ e. ground arith)

abbrev stranger : HttpRequest
stranger = record {
  method = "DELETE";
  scheme = "http";
  netloc = "127.0.0.1:8000";
  host = none;
  origin = none;
  sec_fetch_site = none;
  authorization = none;
}

serve-refused_example :
    (x : Exn) × (serve bare host 1 stranger (Route.delete_rule "buy-dip") server
      ≡ (raised x, server))
serve-refused_example =
    serve-refused bare host 1 stranger server (Route.delete_rule "buy-dip") (λ e. ground arith)
      (λ e. ground arith) (λ a. ground (arith, a.sent))

abbrev owner : HttpRequest
owner = record stranger { method = "POST"; authorization = some "Bearer secret" }

require_admin_token_iff_example :
    (require_admin_token bare.str (some "secret") owner ≡ ok tt)
    ↔ IsAdmitted bare.str (some "secret") owner
require_admin_token_iff_example = require_admin_token_iff bare.str (some "secret") owner

serve-Orderly_example : Orderly (serve bare host 1 owner (Route.evaluate 1) server).1.world
serve-Orderly_example = serve-Orderly bare host 1 owner (Route.evaluate 1) server server-Orderly

serve-AllBacked_example : AllBacked (serve bare host 1 owner (Route.evaluate 1) server).1.world
serve-AllBacked_example =
    serve-AllBacked bare host 1 owner (Route.evaluate 1) server (record { backed = tt })

pub update-published : (update bare 1 publication served served server.world).0 ≡ ok true
unfolding update Service.◌>>=◌ Runtime.◌>>=◌ persist_config check_keeper validate_config
    validate_network validate_custody validate_rules validate_rule validate_trigger validate_action
    validate_strategy_rules normalize_config_paths resolve_relative_path current_config
    active_config update_rounds publish_if_idle drain drain_pending publish after pending_execution
    from_slot save_active_config reset_changed_markets market_changed once_saved writable
update-published = refl

update-IsPublished_example :
    IsPublished served (update bare 1 publication served served server.world).1
update-IsPublished_example =
    update-IsPublished bare publication served served 1 server.world server-Orderly update-published
