-- ===== src/Storage/Settlement/Marking.antt =====
-- The mark that precedes a broadcast.
use xian_dex_automation.Base.{ℕ, true, ◌≡◌, some, arith, Option-cases, inl, inr}
use xian_dex_automation.Outcome.{ok}
use xian_dex_automation.Storage.Tables.{Database, PendingRow}
use xian_dex_automation.Storage.Settlement.{mark_broadcast_attempted, mark_slot}

-- `mark_broadcast_attempted` succeeds only on the run in the journal, and changes only the mark.
pub mark_broadcast_attempted-slot :
    (n : ℕ) (db db' : Database)
    → mark_broadcast_attempted n db ≡ ok (tt, db')
    → (row : PendingRow) × (db.slot ≡ some row)
      × (row.run_id ≡ n)
      × (db' ≡ record db { slot = some (record row { broadcast_attempted = true }) })
unfolding mark_broadcast_attempted mark_slot
mark_broadcast_attempted-slot n db db' h = elim (Option-cases db.slot) [
  | inl empty ↦ ground arith
  | inr (row, e) ↦ (row, e, ground arith, ground arith)
]
