-- ===== src/Cli.antt =====
-- The command line (src/xian_dex_automation/cli.py), once `argparse` has read the arguments. Strings,
-- addresses and the reading of the configuration's file are parameters.
pub mod Refused
use xian_dex_automation.Base.{
  ℕ, String, Bool, true, false, not, ◌&&◌, Option, none, some, length, str_eq, is_none, text_append,
  if◌then◌else◌,
}
use xian_dex_automation.Outcome.{Outcome, ok, raised, Exn, exn, value_error, raise_if, ◌>>=◌, ◌>>◌}
use xian_dex_automation.Config.{AutomationConfig}
use xian_dex_automation.Runtime.{Text}
use xian_dex_automation.Service.Admission.{normalize_admin_token}

pub data Command : Type 0 where
  validate : Command
  run_worker : String → Command
  serving : String → ℕ → Bool → Command

pub record Invocation : Type 0 where
  pub config : String
  pub command : Command

-- What `main` starts, or prints: the numbers of the validation; the worker, with its log level; the
-- API, with whether the warning was printed, the host, the port and whether the worker runs too.
pub data Started : Type 0 where
  validated : ℕ → Bool → String → Started
  worker_started : String → AutomationConfig → Started
  api_started : Bool → AutomationConfig → String → ℕ → Bool → Started

-- `str.strip("[]")`, and `ip_address(value).is_loopback`, where `value` is an address.
pub record Addresses : Type 0 where
  pub strip_brackets : String → String
  pub is_loopback : String → Option Bool

abbrev pub admin_token_env : String
admin_token_env = "XIAN_DEX_AUTOMATION_ADMIN_TOKEN"

-- `parser.error(...)` prints to the standard error and exits with 2.
abbrev pub parser_error : String → Exn
parser_error = exn "SystemExit 2"

abbrev is_true : Option Bool → Bool
is_true none = false
is_true (some b) = b

abbrev or_empty : Option String → String
or_empty none = ""
or_empty (some host) = host

module _ (str : Text) (addresses : Addresses) where
  unfoldable pub is_loopback_host : Option String → Bool
  is_loopback_host host =
      let value = str.lower (addresses.strip_brackets (str.strip (or_empty host))) in
      if str_eq value "localhost" then true else is_true (addresses.is_loopback value)

  unfoldable pub validate_serve_host : Option String → String → Outcome (Unit {0})
  unfolding is_loopback_host
  validate_serve_host token host =
      raise_if (not (is_loopback_host (some host)) && is_none token)
        (value_error (text_append "non-loopback API binds require " admin_token_env))

  -- `except ValueError as exc: parser.error(str(exc))`.
  checked_host : Outcome (Unit {0}) → Outcome (Unit {0})
  checked_host (raised e) = raised (parser_error e.message)
  checked_host r = r

  -- `configured_admin_token`.
  unfoldable pub configured_admin_token : (String → Option String) → Option String
  configured_admin_token environ = normalize_admin_token str (environ admin_token_env)

  run :
      (String → Option String)
      → (String → Outcome AutomationConfig)
      → String
      → Command
      → Outcome Started
  unfolding checked_host validate_serve_host
  run environ load path validate = do
    config ← load path
    ok (validated (length config.rules) config.wallet.execute config.database_path)
  run environ load path (run_worker level) = do config ← load path; ok (worker_started level config)
  run environ load path (serving host port with_worker) = do
    checked_host (validate_serve_host (configured_admin_token environ) host)
    config ← load path
    ok (api_started (is_none (configured_admin_token environ)) config host port with_worker)

  unfoldable pub main :
      (String → Option String) → (String → Outcome AutomationConfig) → Invocation → Outcome Started
  unfolding run
  main environ load i = run environ load i.config i.command
