-- ===== src/Service/Wallet.antt =====
-- The wallet's key behind the service (src/xian_dex_automation/service.py).
use xian_dex_automation.Base.{
  ℕ, String, Bool, false, not, ◌&&◌, ◌||◌, Option, none, some, str_eq, opt_eq, List, is_none,
  text_append, if◌then◌else◌,
}
use xian_dex_automation.Outcome.{Outcome, ok, raised, cancelled, raise_if, ◌>>=◌ as then_outcome}
use xian_dex_automation.Config.{AutomationConfig, StrategyVaultConfig, WalletConfig, CustodyMode}
use xian_dex_automation.Credentials.{truthy, resolve_private_key}
use xian_dex_automation.Runtime.{Call, Platform}
use xian_dex_automation.Service.{Host, Serving, http_error, give, looks, ◌>>=◌, ◌>>◌}
use xian_dex_automation.Service.Changes.{
  current_config, persist_config, validated_update, wallet_address, writable,
}

-- `_wallet_key_source_changed`.
unfoldable pub wallet_key_source_changed : AutomationConfig → AutomationConfig → Bool
wallet_key_source_changed current new =
    not (str_eq current.wallet.private_key_env new.wallet.private_key_env)
    || not (opt_eq current.wallet.private_key_file new.wallet.private_key_file)
    || not (str_eq current.wallet.private_key_file_env new.wallet.private_key_file_env)

-- The answer of `wallet_payload`.
pub record WalletPayload : Type 0 where
  pub execute_enabled : Bool
  pub private_key_env : String
  pub private_key_file : Option String
  pub private_key_file_env : String
  pub private_key_source : Option String
  pub address : Option String
  pub recipient : Option String
  pub custody_mode : CustodyMode
  pub keeper_matches_config : Option Bool

unfoldable pub keeper_matches_config : Option StrategyVaultConfig → Option String → Option Bool
keeper_matches_config (some v) (some address) = some (str_eq address v.keeper_address)
keeper_matches_config _ _ = none

-- The source of the key, if there is a key.
abbrev source_if : Option String → Option String → Option String
source_if none source = none
source_if (some key) source = source

module _ (p : Platform) (host : Host) where
  unfoldable pub payload_of : AutomationConfig → Outcome WalletPayload
  unfolding keeper_matches_config
  payload_of current = then_outcome (resolve_private_key p.str.strip p.secrets current) (λ found.
      then_outcome (wallet_address p.public_key (truthy found.0)) (λ address. ok (record {
        execute_enabled = current.wallet.execute;
        private_key_env = current.wallet.private_key_env;
        private_key_file = current.wallet.private_key_file;
        private_key_file_env = current.wallet.private_key_file_env;
        private_key_source = source_if (truthy found.0) found.1;
        address = address;
        recipient = current.wallet.recipient;
        custody_mode = current.custody.mode;
        keeper_matches_config = keeper_matches_config current.custody.vault address;
      })))

  -- `wallet_payload`.
  unfoldable pub wallet_payload : Serving WalletPayload
  unfolding payload_of current_config
  wallet_payload = do current ← looks current_config; give (payload_of current)

  -- The key file without its variable in the environment.
  unfoldable pub default_key_path : Option String → Outcome String
  unfolding writable
  default_key_path (some path) = ok path
  default_key_path none =
      then_outcome (writable host.config_path "wallet key file requires a config path")
        (λ path. ok (host.paths.join (host.paths.parent path) "wallet.key"))

  unfoldable pub key_path_from : Option String → Option String → Outcome String
  unfolding default_key_path
  key_path_from (some path) configured = ok (host.paths.resolve (host.paths.expanduser path))
  key_path_from none configured = default_key_path configured

  -- `wallet_key_path`.
  unfoldable pub wallet_key_path : AutomationConfig → Outcome String
  unfolding key_path_from
  wallet_key_path current =
      then_outcome
        (raise_if (not (is_none (truthy (p.secrets.environ current.wallet.private_key_env)))) (
          http_error "409"
            "active wallet key comes from an environment variable; unset it before managing a key file"))
        (λ _.
          key_path_from (truthy (p.secrets.environ current.wallet.private_key_file_env))
            current.wallet.private_key_file)

  -- Whether the file has a key that may not be written over.
  is_taken : Bool → Outcome String → Outcome Bool
  is_taken overwrite text =
      then_outcome text (λ key. ok (not (str_eq (p.str.strip key) "") && not overwrite))

  -- `_write_private_key_file`.
  unfoldable pub write_private_key_file : String → String → Bool → List Call → Outcome (Unit {0})
  unfolding is_taken
  write_private_key_file path key overwrite h =
      then_outcome
        (if host.exists h path then is_taken overwrite (host.read_key h path) else ok false)
        (λ taken.
          then_outcome (raise_if taken (http_error "409" "wallet key file already exists"))
            (λ _. host.write_key h path (text_append (p.str.strip key) "\n")))

  -- The wallet that names the key file, and does not execute.
  unfoldable pub wallet_with_key : WalletConfig → String → WalletConfig
  wallet_with_key w path = record w {
    execute = false;
    private_key_file =
        if is_none (p.secrets.environ w.private_key_file_env)
        then some path
        else w.private_key_file;
  }

  -- `persist_wallet_key`; `false` if the rounds were not enough.
  unfoldable pub persist_wallet_key : ℕ → String → Bool → Serving Bool
  unfolding current_config wallet_key_path write_private_key_file writable wallet_with_key
  persist_wallet_key rounds key overwrite = do
    give (writable host.config_path "wallet key writes require a config path")
    current ← looks current_config
    path ← give (wallet_key_path current)
    there ← looks (λ s. host.exists s.world.calls path)
    give (raise_if (there && not overwrite) (http_error "409" "wallet key file already exists"))
    new ← validated_update p host (record current { wallet = wallet_with_key current.wallet path })
    persist_config p host rounds new (some (write_private_key_file path key overwrite))

  -- `_validate_private_key`.
  known_key : String → Outcome String → Outcome String
  known_key key (ok address) = ok key
  known_key key (raised e) = raised (http_error "400" "invalid private key")
  known_key key cancelled = cancelled

  unfoldable pub validate_private_key : String → Outcome String
  unfolding known_key
  validate_private_key key =
      if str_eq (p.str.strip key) ""
      then raised (http_error "400" "private key is required")
      else known_key (p.str.strip key) (p.public_key (p.str.strip key))
