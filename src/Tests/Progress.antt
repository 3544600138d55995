-- ===== src/Tests/Progress.antt =====
-- The theorems on the rounds of the loops and on the log, at small inputs.
use xian_dex_automation.Base.{ℕ, ◌+◌, true, ◌≡◌, refl, Option, List, some, [], ◌∷◌}
use xian_dex_automation.Outcome.{ok}
use xian_dex_automation.Configuration.{update}
use xian_dex_automation.Configuration.Progress.{IsActive, update-Ends}
use xian_dex_automation.Logging.{fails, recovers, hear_all, new_reporter}
use xian_dex_automation.Logging.Accounts.{accounted, IsSpaced, hear_all-report}
use xian_dex_automation.Runtime.Orderly.{Orderly}
use xian_dex_automation.Execution.Journaled.{AllBacked}
use xian_dex_automation.Watcher.{PairsEvent, run_configuration}
use xian_dex_automation.Watcher.Invariants.{run_configuration-Orderly}
use xian_dex_automation.Tests.Consistent.{world-Orderly}
use xian_dex_automation.Tests.Sending.{publication, platform, worker, world}
use xian_dex_automation.Tests.Serving.{bare, served, server}

abbrev one_event : Option ℕ → List PairsEvent
one_event cursor = record { id = some 5; pair = some 1 } ∷ []

update-Ends_example :
    ((update bare 1 publication served served server.world).0 ≡ ok true)
    × IsActive served (update bare 1 publication served served server.world).1
update-Ends_example =
    update-Ends bare publication served served 0 server.world refl refl (λ h. refl) (λ h. refl)
      (λ h. refl) tt (λ h. refl)

hear_all-report_example :
    (accounted
          (hear_all (fails 0 ∷ fails 30000000 ∷ fails 60000000 ∷ recovers ∷ []) new_reporter []).1
        + (hear_all
            (fails 0 ∷ fails 30000000 ∷ fails 60000000 ∷ recovers ∷ [])
            new_reporter
            []).0.suppressed
      ≡ 3)
    × IsSpaced
        (hear_all (fails 0 ∷ fails 30000000 ∷ fails 60000000 ∷ recovers ∷ []) new_reporter []).1
hear_all-report_example =
    hear_all-report (fails 0 ∷ fails 30000000 ∷ fails 60000000 ∷ recovers ∷ [])

run_configuration-Orderly_example :
    Orderly (run_configuration platform 3 (worker true) one_event world).1
    × AllBacked (run_configuration platform 3 (worker true) one_event world).1
run_configuration-Orderly_example =
    run_configuration-Orderly platform 3 (worker true) one_event world world-Orderly
      (record { backed = tt })
