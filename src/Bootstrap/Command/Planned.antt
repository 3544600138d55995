-- ===== src/Bootstrap/Command/Planned.antt =====
-- The bootstrap script without `--execute` (scripts/bootstrap_strategy_vault.py).
use xian_dex_automation.Base.{Bool, true, false, String, Option, ◌≡◌, refl}
use xian_dex_automation.Config.Paths.{PathRules}
use xian_dex_automation.Runtime.{Platform}
use xian_dex_automation.Bootstrap.{Arguments, Place, Outside}
use xian_dex_automation.Bootstrap.Keeps.{Keeps, steps_rules}
use xian_dex_automation.Bootstrap.Keeper.{keeper_wallet, read_or_make_key, save_key}
use xian_dex_automation.Bootstrap.Command.{Summary, main, execute_or_plan}

module _ (P : Place → Type 0) (p : Platform) (o : Outside) where
  read_or_make_key-Keeps :
      (found : Bool) (path : String) → Keeps P (read_or_make_key p o found false path)
  unfolding read_or_make_key save_key
  read_or_make_key-Keeps true path = search steps_rules
  read_or_make_key-Keeps false path = search steps_rules

  keeper_wallet-Keeps : (path : String) → Keeps P (keeper_wallet p o false path)
  unfolding keeper_wallet
  keeper_wallet-Keeps path = search (steps_rules, read_or_make_key-Keeps)

  execute_or_plan-Keeps :
      (paths : PathRules) (root contract_path : String) (a : Arguments) (chain_id : Option String)
      (payload : Summary)
      → Keeps P (execute_or_plan p o paths root contract_path false a chain_id payload)
  unfolding execute_or_plan
  execute_or_plan-Keeps paths root contract_path a chain_id payload = search steps_rules

-- Without `--execute`, `main` changes nothing, whatever it is answered and however it ends: it makes
-- no write and no call of the DEX client.
pub main-planned :
    (p : Platform) (o : Outside) (paths : PathRules) (root contract_path : String) (a : Arguments)
    (s : Place)
    → a.execute ≡ false
    → (main p o paths root contract_path a s).1 ≡ s
unfolding main
main-planned p o paths root contract_path a s off = main-Same.at s refl
  where
    main-Same : Keeps (λ t. t ≡ s) (main p o paths root contract_path a)
    main-Same = rw off (
        search
          (
            steps_rules,
            keeper_wallet-Keeps (λ t. t ≡ s) p o,
            execute_or_plan-Keeps (λ t. t ≡ s) p o paths root contract_path a,
          )
          depth 14)
