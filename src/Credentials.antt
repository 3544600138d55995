-- ===== src/Credentials.antt =====
-- Where the wallet's key comes from (src/xian_dex_automation/credentials.py, and
-- `_resolve_private_key` of src/xian_dex_automation/dex.py).
use xian_dex_automation.Base.{String, Option, none, some, str_eq, if◌then◌else◌}
use xian_dex_automation.Outcome.{Outcome, ok, raised, dex_error, ◌>>=◌}
use xian_dex_automation.Config.{AutomationConfig, WalletConfig}
use xian_dex_automation.Runtime.{Secrets}

pub data Kind : Type 0 where
  environment file : Kind

-- A text that is `None` or empty is false.
abbrev pub truthy : Option String → Option String
truthy none = none
truthy (some s) = if str_eq s "" then none else some s

abbrev or_else : Option String → Option String → Option String
or_else none b = b
or_else (some a) b = some a

unfoldable pub file_source : Option String → Option (Kind × String)
file_source none = none
file_source (some path) = some (file, path)

unfoldable pub env_or_file :
    Option String → WalletConfig → (String → Option String) → Option (Kind × String)
unfolding file_source
env_or_file (some key) w environ = some (environment, w.private_key_env)
env_or_file none w environ =
    file_source (or_else (truthy (environ w.private_key_file_env)) w.private_key_file)

-- The kind of the source, and the variable or the path.
unfoldable pub credential_source :
    AutomationConfig → (String → Option String) → Option (Kind × String)
unfolding env_or_file
credential_source c environ =
    env_or_file (truthy (environ c.wallet.private_key_env)) c.wallet environ

abbrev variable : Option String → String
variable none = ""
variable (some v) = v

unfoldable pub unreadable : Outcome String → Outcome String
unreadable (ok text) = ok text
unreadable _ = raised (dex_error "unable to read automation wallet key file")

unfoldable pub read_source :
    (String → String) → Secrets → Option (Kind × String) → Outcome (Option String × Option String)
unfolding unreadable
read_source strip secrets none = ok (none, none)
read_source strip secrets (some (environment, name)) =
    ok (some (strip (variable (secrets.environ name))), some name)
read_source strip secrets (some (file, path)) = do
  text ← unreadable (secrets.read_text path)
  ok (truthy (some (strip text)), some path)

-- `_resolve_private_key`: the key, and its source.
unfoldable pub resolve_private_key :
    (String → String) → Secrets → AutomationConfig → Outcome (Option String × Option String)
unfolding read_source
resolve_private_key strip secrets c =
    read_source strip secrets (credential_source c secrets.environ)
