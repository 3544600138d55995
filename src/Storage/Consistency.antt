-- ===== src/Storage/Consistency.antt =====
-- What holds of the journal, the runs and the uncertain executions between two transactions
-- (storage.py).
pub mod Rows
pub mod Changes
pub mod Phases
pub mod Methods
use xian_dex_automation.Base.{ℕ, String, ◌≤◌, ◌≡◌, Option, none, some, List, All}
use xian_dex_automation.Report.{Status, pending, outcome_unknown}
use xian_dex_automation.Storage.Tables.{
  Run, PendingRow, UncertainRow, Database, find_run, find_uncertain,
}

-- The status and the transaction of a run.
abbrev pub as_entry : Option Run → Option (Status × Option String)
as_entry none = none
as_entry (some r) = some (r.status, r.tx_hash)

abbrev pub entry : ℕ → List Run → Option (Status × Option String)
entry n runs = as_entry (find_run n runs)

-- The journal's swap belongs to a pending run.
abbrev pub HasRun : Option PendingRow → List Run → Type 0
HasRun none runs = Unit
HasRun (some p) runs = entry p.run_id runs ≡ some (pending, some p.tx_hash)

abbrev pub slot_id : Option PendingRow → Option ℕ
slot_id none = none
slot_id (some p) = some p.run_id

-- The ids of the runs were given out; the journal's swap has a pending run of the same transaction,
-- and no other run is pending; an uncertain execution has a run of unknown outcome, of the same
-- transaction.
pub record Consistent (sequence : ℕ) (runs : List Run) (slot : Option PendingRow)
    (uncertain : List UncertainRow) : Type 0 where
  pub given : All (λ (r : Run). r.id ≤ sequence) runs
  pub journal : HasRun slot runs
  pub only :
      (n : ℕ) (hash : Option String) → entry n runs ≡ some (pending, hash) → slot_id slot ≡ some n
  pub held :
      (n : ℕ) (u : UncertainRow)
      → find_uncertain n uncertain ≡ some u
      → entry n runs ≡ some (outcome_unknown, some u.tx_hash)

abbrev pub IsConsistent : Database → Type 0
IsConsistent db = Consistent db.sequence db.runs db.slot db.uncertain
