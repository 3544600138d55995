-- ===== src/Config/Saving/RoundTrip.antt =====
-- A configuration that was written to its file is read back (config.py, `save_config` and
-- `load_config`).
use xian_dex_automation.Base.{
  String, true, Option, none, some, [], lookup, ◌≡◌, ◌≢◌, refl, ap, subst, ◌∙◌,
}
use xian_dex_automation.Outcome.{Outcome, ok}
use xian_dex_automation.Config.{AutomationConfig}
use xian_dex_automation.Config.Validation.{validate_config}
use xian_dex_automation.Config.Paths.{
  PathRules, parse_config_text, normalize_config_paths, resolve_relative_path,
  resolve_optional_relative_path,
}
use xian_dex_automation.Config.Saving.{Files, Disk, FileSystem, save_config, load_config}
use xian_dex_automation.Config.Saving.Whole.{IsSaved, save_config-IsWhole}

-- What stands in the file is read back, with its relative paths resolved.
load-IsSaved :
    (paths : PathRules) (read : String → Outcome AutomationConfig) (config : AutomationConfig)
    (path rendered : String) (files : Files)
    → lookup (paths.resolve path) files ≡ some rendered
    → read rendered ≡ ok config
    → validate_config config ≡ ok tt
    → load_config paths read path files
      ≡ ok (normalize_config_paths paths (paths.resolve path) config)
unfolding load_config parse_config_text
load-IsSaved paths read config path rendered files stored readable valid =
    rw (stored, readable, valid) refl

-- The file of the key, if there is one, has an absolute path.
abbrev pub IsAbsolute : PathRules → Option String → Type 0
IsAbsolute paths none = Unit
IsAbsolute paths (some path) = paths.is_absolute path ≡ true

optional_path-absolute :
    (paths : PathRules) (base : String) (o : Option String)
    → IsAbsolute paths o
    → resolve_optional_relative_path paths base o ≡ o
unfolding resolve_optional_relative_path resolve_relative_path
optional_path-absolute paths base none h = refl
optional_path-absolute paths base (some path) h = rw (h) refl

normalize_config_paths-absolute :
    (paths : PathRules) (path : String) (config : AutomationConfig)
    → paths.is_absolute config.database_path ≡ true
    → IsAbsolute paths config.wallet.private_key_file
    → normalize_config_paths paths path config ≡ config
unfolding normalize_config_paths resolve_relative_path
normalize_config_paths-absolute paths path config database key =
    rw
      (
        database,
        optional_path-absolute paths (paths.parent (paths.resolve path))
            config.wallet.private_key_file key,
      )
      refl

-- If the temporary file's name differs from the configuration's, the rendering of the configuration
-- is read as that configuration, the validators accept it, and its paths, of the database and of the
-- key file if there is one, are absolute, then after a save that returned `load_config` of the same
-- path returns the configuration itself.
pub load-save_config :
    (fs : FileSystem) (paths : PathRules) (render : AutomationConfig → String)
    (read : String → Outcome AutomationConfig) (config : AutomationConfig) (path : String)
    (files : Files) {d : Disk}
    → fs.new_name [] (paths.resolve path) ≢ paths.resolve path
    → read (render config) ≡ ok config
    → validate_config config ≡ ok tt
    → paths.is_absolute config.database_path ≡ true
    → IsAbsolute paths config.wallet.private_key_file
    → save_config fs paths render config path (record { files = files; past = [] }) ≡ (ok tt, d)
    → load_config paths read path d.files ≡ ok config
load-save_config fs paths render read config path files fresh readable valid database key e =
    let (_, saved) = save_config-IsWhole fs paths render config path files fresh in
    let stored = subst (λ r. IsSaved (paths.resolve path) (render config) r.0 r.1.files) e saved in
    load-IsSaved paths read config path (render config) _ stored readable valid
    ∙ ap ok (normalize_config_paths-absolute paths (paths.resolve path) config database key)
