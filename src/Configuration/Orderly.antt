-- ===== src/Configuration/Orderly.antt =====
-- The store at every call of a change of configuration (configuration.py, storage.py).
use xian_dex_automation.Base.{ℕ}
use xian_dex_automation.Config.{AutomationConfig}
use xian_dex_automation.Runtime.{Platform, World}
use xian_dex_automation.Runtime.Orderly.{Orderly, Orderly-quiet, transact-Orderly}
use xian_dex_automation.Evaluator.Orderly.{reconcile_execution-Keeps-Orderly}
use xian_dex_automation.Configuration.{Publication, update}
use xian_dex_automation.Configuration.Draining.{update-Keeps}

module _ (p : Platform) where
  -- If the store is consistent, was so at each call so far, and the journal made one step from each
  -- call to the next, then all this is still so after `update`, its drain and its publication
  -- included, for any number of rounds, whatever the network, the locks, the callbacks and the
  -- commits answered.
  pub update-Orderly :
      (rounds : ℕ) (u : Publication) (current target : AutomationConfig) (w : World)
      → Orderly w
      → Orderly (update p rounds u current target w).1
  update-Orderly rounds u current target w h =
      (update-Keeps p Orderly-quiet transact-Orderly u current target
          (reconcile_execution-Keeps-Orderly p target.wallet.execute) rounds).at
        w h
