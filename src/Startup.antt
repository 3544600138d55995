-- ===== src/Startup.antt =====
-- What the service and the worker do with their configuration when they start
-- (src/xian_dex_automation/service.py, `lifespan`, and src/xian_dex_automation/cli.py, `run_worker`).
use xian_dex_automation.Base.{ℕ, String, Bool, true, ◌≡◌, none, inl, inr, Bool-cases, if◌then◌else◌}
use xian_dex_automation.Outcome.{ok}
use xian_dex_automation.Config.{AutomationConfig}
use xian_dex_automation.Storage.{active_config}
use xian_dex_automation.Runtime.{World, Action, pure, reads, ◌>>=◌, Platform}
use xian_dex_automation.Runtime.Orderly.{Orderly}
use xian_dex_automation.Configuration.{Publication, update}
use xian_dex_automation.Configuration.Orderly.{update-Orderly}
use xian_dex_automation.Configuration.Published.{update-IsPublished}

-- `lambda: None` as the callback, and no other; `is_store_path` tells the store's own path.
abbrev pub bare_publication : (String → Bool) → Publication
bare_publication is_store_path = record {
  commit = λ h. ok tt;
  after_commit = none;
  is_store_path = is_store_path;
}

-- The worker is created with the same configuration. The number of rounds is that of `update`;
-- `false` says that they were not enough.
unfoldable pub adopt : Platform → ℕ → (String → Bool) → AutomationConfig → Action Bool
adopt p rounds is_store_path config = do
  active ← reads (active_config config)
  if p.same_config active config
      then pure true
      else update p rounds (bare_publication is_store_path) config config

-- Where the comparison of configurations accepts only equal ones, in a consistent store with an
-- orderly history: if a start with a configuration gets through, for any number of rounds, then this
-- configuration is the active one, and the store and its history are still so.
pub adopt-active_config :
    (p : Platform) (rounds : ℕ) (is_store_path : String → Bool) (config : AutomationConfig)
    (w : World)
    → ((a b : AutomationConfig) → p.same_config a b ≡ true → a ≡ b)
    → Orderly w
    → (adopt p rounds is_store_path config w).0 ≡ ok true
    → let started = (adopt p rounds is_store_path config w).1 in
      (active_config config started.store ≡ config) × Orderly started
unfolding adopt ◌>>=◌
adopt-active_config p rounds is_store_path config w reflects orderly done =
    elim (Bool-cases (p.same_config (active_config config w.store) config)) [
      | inl e ↦ rw e (reflects (active_config config w.store) config e, orderly)
      | inr e ↦
          let updated : (update p rounds (bare_publication is_store_path) config config w).0
              ≡ ok true =
            rw e at done in
          let published =
            update-IsPublished p (bare_publication is_store_path) config config rounds w orderly
              updated in
          rw e (
            published.active config,
            update-Orderly p rounds (bare_publication is_store_path) config config w orderly,
          )
    ]
