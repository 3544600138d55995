-- ===== src/Storage/Tables.antt =====
-- The tables of the SQLite store (src/xian_dex_automation/storage.py), and the statements on their
-- rows. A method's `with self.connect()` block is a function on the database that may raise; it
-- then returns no database, since the connection rolls back. The columns `updated_at` are written
-- and never read, and are left out.
use xian_dex_automation.Base.{
  ℕ, suc, String, Bool, Option, none, some, List, [], ◌∷◌, Dict, ◌==◌, if◌then◌else◌,
}
use xian_dex_automation.Outcome.{Outcome}
use xian_dex_automation.Decimal.{Decimal}
use xian_dex_automation.Time.{Instant}
use xian_dex_automation.Report.{Details, Status, Reason}
use xian_dex_automation.Config.{AutomationConfig}
use xian_dex_automation.Rules.{RuleRuntimeState}

pub record Run : Type 0 where
  pub id : ℕ
  pub rule_id : String
  pub status : Status
  pub reason : Reason
  pub tx_hash : Option String
  pub details : Details
  pub created_at : Instant

-- A row of `pending_execution`. A missing baseline is what `str(None)` leaves in the column.
pub record PendingRow : Type 0 where
  pub run_id : ℕ
  pub rpc_url : String
  pub chain_id : String
  pub tx_json : String
  pub tx_hash : String
  pub next_baseline_price : Option Decimal
  pub broadcast_attempted : Bool

pub record UncertainRow : Type 0 where
  pub run_id : ℕ
  pub rpc_url : String
  pub chain_id : String
  pub tx_json : String
  pub tx_hash : String

pub record RuntimeConfig : Type 0 where
  pub config : AutomationConfig
  pub generation : ℕ

-- The runs stand newest first; `sequence` is the last id that `autoincrement` gave out.
pub record Database : Type 0 where
  pub runtime_config : Option RuntimeConfig
  pub rule_state : Dict RuleRuntimeState
  pub runs : List Run
  pub sequence : ℕ
  pub cursors : Dict (Option ℕ)
  pub slot : Option PendingRow
  pub uncertain : List UncertainRow

-- `_init_db` on a new file.
abbrev pub new_database : Database
new_database = record {
  runtime_config = none;
  rule_state = [];
  runs = [];
  sequence = 0;
  cursors = [];
  slot = none;
  uncertain = [];
}

abbrev pub Transaction : Type 0 → Type 0
Transaction A = Database → Outcome (A × Database)

-- The rows of `runs` by their primary key.
unfoldable pub find_run : ℕ → List Run → Option Run
find_run n [] = none
find_run n (r ∷ rs) = if r.id == n then some r else find_run n rs

-- `update runs set status = ?, reason = ?, details_json = ? where id = ?`
unfoldable pub update_run : ℕ → Status → Reason → Details → List Run → List Run
update_run n s why d [] = []
update_run n s why d (r ∷ rs) =
    (if r.id == n then record r { status = s; reason = why; details = d } else r)
    ∷ update_run n s why d rs

unfoldable pub find_uncertain : ℕ → List UncertainRow → Option UncertainRow
find_uncertain n [] = none
find_uncertain n (u ∷ us) = if u.run_id == n then some u else find_uncertain n us

unfoldable pub delete_uncertain : ℕ → List UncertainRow → List UncertainRow
delete_uncertain n [] = []
delete_uncertain n (u ∷ us) =
    if u.run_id == n then delete_uncertain n us else u ∷ delete_uncertain n us

-- `_append_run`: the new database and the row's id.
unfoldable pub append_row :
    String → Status → Reason → Option String → Details → Instant → Database → ℕ × Database
append_row rule_id status reason tx_hash details now db = (
  suc db.sequence,
  record db {
    sequence = suc db.sequence;
    runs =
        record {
          id = suc db.sequence;
          rule_id = rule_id;
          status = status;
          reason = reason;
          tx_hash = tx_hash;
          details = details;
          created_at = now;
        }
        ∷ db.runs;
  },
)
