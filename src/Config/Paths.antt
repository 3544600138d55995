-- ===== src/Config/Paths.antt =====
-- Paths in a configuration, and its reading (src/xian_dex_automation/config.py).
use xian_dex_automation.Base.{String, Bool, Option, none, some, if◌then◌else◌}
use xian_dex_automation.Outcome.{Outcome, ok, ◌>>=◌, ◌>>◌}
use xian_dex_automation.Config.{AutomationConfig}
use xian_dex_automation.Config.Validation.{validate_config}

-- What the program uses of `pathlib`: `resolve`, `parent`, `/`, `is_absolute` and `expanduser`.
pub record PathRules : Type 0 where
  pub resolve : String → String
  pub parent : String → String
  pub join : String → String → String
  pub is_absolute : String → Bool
  pub expanduser : String → String

module _ (paths : PathRules) where
  -- `_resolve_relative_path`.
  unfoldable pub resolve_relative_path : String → String → String
  resolve_relative_path base_dir path =
      if paths.is_absolute path then path else paths.join base_dir path

  -- `_resolve_optional_relative_path`.
  unfoldable pub resolve_optional_relative_path : String → Option String → Option String
  unfolding resolve_relative_path
  resolve_optional_relative_path base_dir none = none
  resolve_optional_relative_path base_dir (some path) = some (resolve_relative_path base_dir path)

  unfoldable pub normalize_config_paths : String → AutomationConfig → AutomationConfig
  unfolding resolve_relative_path resolve_optional_relative_path
  normalize_config_paths config_path config =
      let config_dir = paths.parent (paths.resolve config_path) in
      record config {
        database_path = resolve_relative_path config_dir config.database_path;
        wallet = record config.wallet {
          private_key_file =
              resolve_optional_relative_path config_dir config.wallet.private_key_file;
        };
      }

  -- `parse_config_text`, over the reading of the text as a configuration's fields.
  unfoldable pub parse_config_text :
      (String → Outcome AutomationConfig) → String → String → Outcome AutomationConfig
  parse_config_text read config_path text = do
    config ← read text
    validate_config config
    ok (normalize_config_paths config_path config)
