-- ===== src/Tests/Started.antt =====
-- The theorems on starting the service, on its configuration's file and on its log.
use xian_dex_automation.Base.{
  String, text_append, true, false, ◌≡◌, ◌≢◌, ◌≤◌, refl, ◌↔◌, none, some, [], ◌∷◌, All, arith,
  lookup, insert, ltb, ◌==◌, ◌||◌, length, is_none, eq_iff, str_eq, if◌then◌else◌,
}
use xian_dex_automation.Outcome.{Outcome, ok, exn}
use xian_dex_automation.Config.Saving.{
  Files, Disk, FileSystem, edit, replace, save_text, save_config, load_config,
}
use xian_dex_automation.Config.Saving
use xian_dex_automation.Config.Saving.Whole.{StaysWhole, IsSaved, save_config-IsWhole}
use xian_dex_automation.Config.Saving.RoundTrip.{load-save_config}
use xian_dex_automation.Config.{AutomationConfig}
use xian_dex_automation.Config.Validation.{
  codes, validate_config, validate_network, validate_custody, validate_rules, validate_rule,
  validate_trigger, validate_action, validate_strategy_rules,
}
use xian_dex_automation.Runtime.{Platform, ◌>>=◌}
use xian_dex_automation.Runtime.Orderly.{Orderly}
use xian_dex_automation.Storage.{active_config}
use xian_dex_automation.Configuration.Progress.{update-Ends}
use xian_dex_automation.Startup.{adopt, adopt-active_config, bare_publication}
use xian_dex_automation.Cli.{Addresses, serving, api_started, main, configured_admin_token}
use xian_dex_automation.Cli.Refused.{MayServe, main-MayServe}
use xian_dex_automation.Logging.Line.{
  Unicode, text, nothing, one_line, one_line_text, safe_scalar, again,
}
use xian_dex_automation.Logging.Format.{Record, format, utf8_size}
use xian_dex_automation.Logging.Format.Bounded.{IsInline, format-IsInline}
use xian_dex_automation.Tests.{config}
use xian_dex_automation.Tests.Sending.{platform}
use xian_dex_automation.Tests.Serving.{bare, served, server, server-Orderly}
use xian_dex_automation.Tests.Bootstrapped.{paths}

-- A disk on which the third step fails.
abbrev disk : FileSystem
disk = record {
  failure =
      λ past. if length past == 2 then some (exn "OSError" "No space left on device") else none;
  new_name = λ past target. text_append target ".tmp";
  partial = λ past text. "netw";
}

abbrev files : Files
files = ("config.yaml", "old") ∷ []

is_fresh : disk.new_name [] (paths.resolve "config.yaml") ≢ paths.resolve "config.yaml"
is_fresh = λ e. ground (arith, eq_iff "config.yaml.tmp" "config.yaml")

save_config-IsWhole_example :
    let (r, d) =
      save_config disk paths
        (λ c. "new")
        (config true)
        "config.yaml"
        (record { files = files; past = [] }) in
    StaysWhole "config.yaml" "new" (lookup "config.yaml" files) d
    × IsSaved "config.yaml" "new" r d.files
save_config-IsWhole_example =
    save_config-IsWhole disk paths (λ c. "new") (config true) "config.yaml" files is_fresh

-- A disk on which every step works.
abbrev sound_disk : FileSystem
sound_disk = record disk { failure = λ past. none }

abbrev reads_yaml : String → Outcome AutomationConfig
reads_yaml s = if str_eq s "new" then ok served else ok (config true)

abbrev saved_disk : Disk
saved_disk =
    (save_config sound_disk paths (λ c. "new") served "config.yaml"
      (record { files = files; past = [] })).1

save_config-served :
    save_config sound_disk paths
      (λ c. "new")
      served
      "config.yaml"
      (record { files = files; past = [] })
    ≡ (ok tt, saved_disk)
unfolding save_config save_text edit replace Saving.◌>>=◌
save_config-served = refl

validate_config-served : validate_config served ≡ ok tt
unfolding validate_config validate_network validate_custody validate_rules validate_rule
    validate_trigger validate_action validate_strategy_rules
validate_config-served = refl

load-save_config_example : load_config paths reads_yaml "config.yaml" saved_disk.files ≡ ok served
load-save_config_example =
    load-save_config sound_disk paths (λ c. "new") reads_yaml served "config.yaml" files is_fresh
      refl validate_config-served refl tt save_config-served

abbrev addresses : Addresses
addresses = record {
  strip_brackets = λ host. host;
  is_loopback = λ host. if str_eq host "127.0.0.1" then some true else none;
}

main-MayServe_example :
    (main platform.str addresses
        (λ name. none)
        (λ path. ok (config true))
        (record { config = "config.yaml"; command = serving "0.0.0.0" 8787 true })
      ≡ ok (
          api_started
            (is_none (configured_admin_token platform.str addresses (λ name. none)))
            (config true)
            "0.0.0.0"
            8787
            true))
    ↔ MayServe platform.str addresses (λ name. none) "0.0.0.0"
main-MayServe_example =
    main-MayServe platform.str addresses (λ name. none) (λ path. ok (config true)) "config.yaml"
      "0.0.0.0" 8787 true (config true) refl

-- A comparison that finds every two configurations different.
abbrev strict : Platform
strict = record bare { same_config = λ a b. false }

adopt-served : (adopt strict 1 (λ path. true) served server.world).0 ≡ ok true
unfolding adopt ◌>>=◌
adopt-served =
    (update-Ends strict (bare_publication (λ path. true)) served served 0 server.world refl refl
      (λ h. refl) (λ h. refl) (λ h. refl) tt (λ h. refl)).0

adopt-active_config_example :
    let started = (adopt strict 1 (λ path. true) served server.world).1 in
    (active_config served started.store ≡ served) × Orderly started
adopt-active_config_example =
    adopt-active_config strict 1 (λ path. true) served server.world (λ a b e. absurd (ground arith))
      server-Orderly adopt-served

-- The control characters of ASCII, and its space.
abbrev ascii : Unicode
ascii = record { is_control = λ c. ltb c 32 || c == 127; is_space = λ c. c == 32 }

abbrev failure : Record
failure = record {
  level_name = text (codes "ERROR");
  name = text (codes "worker");
  message = text (10 ∷ b'|' ∷ codes "http://node:26657 failed");
  stamp = codes "2026-01-01T00:00:00.000Z";
  process = nothing;
  fields = ("rule_id", text (codes "buy dip")) ∷ [];
  exception = [];
}

format-IsInline_example :
    All (IsInline ascii) (format ascii (codes "dex-automation") failure)
    × (utf8_size (format ascii (codes "dex-automation") failure) ≤ 8192)
format-IsInline_example =
    format-IsInline ascii (codes "dex-automation") failure (λ c low high. ground arith)
      (omega arith) (omega arith)

-- The line break, the bar and the address do not come through.
formatted :
    format ascii (codes "dex-automation") failure
    ≡ codes
        "2026-01-01T00:00:00.000Z | ERROR | dex-automation/worker | \\n\\u007c<endpoint> failed | pid=None rule_id=\"buy dip\""
unfolding format one_line safe_scalar again one_line_text lookup insert
formatted = refl
