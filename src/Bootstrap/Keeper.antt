-- ===== src/Bootstrap/Keeper.antt =====
-- The keeper's key file (scripts/bootstrap_strategy_vault.py, `_keeper_wallet`).
use xian_dex_automation.Base.{String, Bool, true, false, str_eq, if◌then◌else◌, text_append}
use xian_dex_automation.Outcome.{Outcome, ok, raised}
use xian_dex_automation.Runtime.{Platform}
use xian_dex_automation.Bootstrap.{
  Outside, Script, bootstrap_error, pure, lift, query, perform, ◌>>=◌, ◌>>◌, key_file,
}

module _ (p : Platform) (o : Outside) where
  -- The key in an existing file.
  stored_key : String → Outcome String
  stored_key text =
      let key = p.str.strip text in
      if str_eq key "" then raised (bootstrap_error "existing keeper key file is empty") else ok key

  unfoldable pub save_key : Bool → String → String → Script (Unit {0})
  save_key false path key = pure tt
  save_key true path key = perform o.write_file (key_file path (text_append key "\n"))

  unfoldable pub read_or_make_key : Bool → Bool → String → Script (String × Bool)
  unfolding stored_key save_key
  read_or_make_key true execute path = do
    text ← query (λ s. o.read_text s path)
    key ← lift (stored_key text)
    pure (key, false)
  read_or_make_key false execute path = do
    key ← query (λ s. ok (o.new_key s))
    save_key execute path key
    pure (key, true)

  -- The keeper's key, and whether it was generated.
  unfoldable pub keeper_wallet : Bool → String → Script (String × Bool)
  unfolding read_or_make_key
  keeper_wallet execute path = do
    found ← query (λ s. ok (o.exists s path))
    read_or_make_key found execute path
