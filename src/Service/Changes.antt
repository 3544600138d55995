-- ===== src/Service/Changes.antt =====
-- How the service changes its configuration (src/xian_dex_automation/service.py).
use xian_dex_automation.Base.{
  ℕ, String, Bool, true, not, Option, none, some, str_eq, opt_eq, List, if◌then◌else◌,
}
use xian_dex_automation.Outcome.{Outcome, ok, raised, Exn, raise_if, ◌>>=◌ as then_outcome}
use xian_dex_automation.Config.{AutomationConfig, StrategyVaultConfig}
use xian_dex_automation.Config.Validation.{validate_config}
use xian_dex_automation.Config.Paths.{normalize_config_paths}
use xian_dex_automation.Credentials.{truthy, resolve_private_key}
use xian_dex_automation.Storage.{active_config}
use xian_dex_automation.Runtime.{Call, Platform}
use xian_dex_automation.Configuration.{Publication, update}
use xian_dex_automation.Service.{
  Host, Server, Serving, http_error, give, run, looks, except_as, finally, ◌>>=◌, ◌>>◌,
}

-- `current_config`.
unfoldable pub current_config : Server → AutomationConfig
current_config s = active_config s.config s.world.store

-- `app.state.config = current_config()`.
unfoldable pub refresh : Server → Server
unfolding current_config
refresh s = record s { config = current_config s }

-- `_wallet_address`.
unfoldable pub wallet_address : (String → Outcome String) → Option String → Outcome (Option String)
wallet_address public_key none = ok none
wallet_address public_key (some key) = then_outcome (public_key key) (λ address. ok (some address))

abbrev pub bad_request : Exn → Exn
bad_request e = http_error "400" e.message

-- `except ConfigurationBusy as exc`.
unfoldable pub as_conflict : Exn → Exn
as_conflict e = if str_eq e.type_name "ConfigurationBusy" then http_error "409" e.message else e

-- The path to which changes are written.
unfoldable pub writable : Option String → String → Outcome String
writable none detail = raised (http_error "409" detail)
writable (some path) detail = ok path

module _ (p : Platform) (host : Host) where
  -- The address of the wallet that the configuration names.
  unfoldable pub configured_address : AutomationConfig → Outcome (Option String)
  configured_address c =
      then_outcome (resolve_private_key p.str.strip p.secrets c)
        (λ found. wallet_address p.public_key (truthy found.0))

  unfoldable pub keeper_matches : StrategyVaultConfig → Serving (Option String) → Serving (Unit {0})
  keeper_matches v address = do
    found ← except_as bad_request address
    give (
        raise_if (not (opt_eq found (some v.keeper_address))) (
          http_error "400"
            "execution requires a service wallet matching custody.strategy_vault.keeper_address"))

  -- The test of the wallet before a configuration that executes.
  unfoldable pub check_keeper :
      Bool → Option StrategyVaultConfig → AutomationConfig → Serving (Unit {0})
  unfolding configured_address keeper_matches
  check_keeper true (some v) new = keeper_matches v (give (configured_address new))
  check_keeper _ _ new = give (ok tt)

  -- The callbacks of `update`.
  abbrev pub publication :
      AutomationConfig → String → Option (List Call → Outcome (Unit {0})) → Publication
  publication new path after = record {
    commit = λ h. host.save_config h new path;
    after_commit = after;
    is_store_path = λ path. str_eq (host.paths.resolve path) host.store_path;
  }

  -- `persist_config`, for a number of rounds of `update`; `false` if they were not enough.
  unfoldable pub persist_config :
      ℕ → AutomationConfig → Option (List Call → Outcome (Unit {0})) → Serving Bool
  unfolding check_keeper writable refresh as_conflict
  persist_config rounds new after = do
    path ← give (writable host.config_path "config writes require a config path")
    give (
        raise_if (not (str_eq (host.paths.resolve new.database_path) host.store_path)) (
          http_error "409"
            "database_path changes require stopping the service and migrating its database"))
    check_keeper new.wallet.execute new.custody.vault new
    worker ← looks (λ s. s.worker)
    finally refresh (
        except_as as_conflict
          (run (update p rounds (publication new path after) worker.config new)))

  -- `normalized_for_persist`.
  unfoldable pub normalized_for_persist : AutomationConfig → Outcome AutomationConfig
  unfolding writable
  normalized_for_persist new =
      then_outcome (writable host.config_path "config writes require a config path")
        (λ path. ok (normalize_config_paths host.paths path new))

  -- `validated_update`, given the updated copy of the configuration.
  unfoldable pub validated_update : AutomationConfig → Serving AutomationConfig
  unfolding normalized_for_persist
  validated_update candidate = do
    except_as bad_request (give (validate_config candidate))
    give (normalized_for_persist candidate)
