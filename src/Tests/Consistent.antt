-- ===== src/Tests/Consistent.antt =====
-- The theorems on the consistency of the store, at a store with a journaled swap.
use xian_dex_automation.Base.{ℕ, String, true, ◌≡◌, refl, Option, some, arith}
use xian_dex_automation.Outcome.{ok}
use xian_dex_automation.Report.{pending}
use xian_dex_automation.Storage.{Database}
use xian_dex_automation.Storage.Tables.{find_run, find_uncertain}
use xian_dex_automation.Storage.Consistency.{IsConsistent, entry, slot_id}
use xian_dex_automation.Storage.Consistency.Phases.{Follows, mark}
use xian_dex_automation.Storage.Consistency.Methods.{IsMethod-Follows}
use xian_dex_automation.Storage.Settlement.{mark_slot, mark_broadcast_attempted}
use xian_dex_automation.Runtime.Orderly.{Orderly}
use xian_dex_automation.Evaluator.{evaluate_event_pair}
use xian_dex_automation.Evaluator.Orderly.{evaluate_event_pair-Orderly}
use xian_dex_automation.Tests.Sending.{platform, crashed, crashed_row, world, worker, client}

crashed-only :
    (n : ℕ) (hash : Option String)
    → entry n crashed.runs ≡ some (pending, hash)
    → slot_id crashed.slot ≡ some n
unfolding find_run
crashed-only n hash e = ground arith

crashed-IsConsistent : IsConsistent crashed
unfolding find_run find_uncertain
crashed-IsConsistent = record {
  given = (omega arith, tt);
  journal = refl;
  only = crashed-only;
  held = λ n u e. ground arith;
}

pub world-Orderly : Orderly world
world-Orderly = record { consistent = crashed-IsConsistent; always = tt; history = tt }

abbrev marked : Database
marked = record crashed { slot = some (record crashed_row { broadcast_attempted = true }) }

mark-crashed : mark_broadcast_attempted 1 crashed ≡ ok (tt, marked)
unfolding mark_broadcast_attempted mark_slot
mark-crashed = refl

IsMethod-Follows_example : Follows crashed marked
IsMethod-Follows_example =
    IsMethod-Follows (Unit {0}) (mark_broadcast_attempted 1) (mark 1) crashed tt marked
      crashed-IsConsistent mark-crashed

evaluate_event_pair-Orderly_example :
    Orderly (evaluate_event_pair platform 3 (worker true) (client true) 1 world).1
evaluate_event_pair-Orderly_example =
    evaluate_event_pair-Orderly platform 3 (worker true) (client true) 1 world world-Orderly
