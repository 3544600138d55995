-- ===== src/Storage/Consistency/Phases.antt =====
-- The journal as a state machine, and the methods of the store (storage.py) that write.
use xian_dex_automation.Base.{ℕ, String, Bool, true, false, ◌≢◌, Option, none, some}
use xian_dex_automation.Decimal.{Decimal}
use xian_dex_automation.Time.{Instant}
use xian_dex_automation.Config.{AutomationConfig}
use xian_dex_automation.Rules.{RuleRuntimeState}
use xian_dex_automation.Submission.{PreparedSwap}
use xian_dex_automation.Report.{Status, pending, Reason, Details, Report}
use xian_dex_automation.Storage.Tables.{PendingRow, Database, Transaction}
use xian_dex_automation.Storage.Markets.{
  append_run, save_rule_state, save_cursor, save_active_config,
}
use xian_dex_automation.Storage.Journal.{begin_execution}
use xian_dex_automation.Storage.Settlement.{
  release_consumed_execution, resolve_uncertain_execution, mark_broadcast_attempted,
  note_execution_error, finish_execution,
}
use xian_dex_automation.Storage.Consistency.{IsConsistent}

-- The store's methods that write, each with its arguments. A run that is appended on its own is not
-- pending.
pub data IsMethod : (A : Type 0) → Transaction A → Type 1 where
  append :
      (rule_id : String) (s : Status) (why : Reason) (hash : Option String) (d : Details)
      (now : Instant)
      → s ≢ pending
      → IsMethod (Unit {0}) (append_run rule_id s why hash d now)
  save_state :
      (rule_id : String) (s : RuleRuntimeState) → IsMethod (Unit {0}) (save_rule_state rule_id s)
  save_at : (name : String) (n : ℕ) → IsMethod (Unit {0}) (save_cursor name n)
  save_config :
      (config previous : AutomationConfig)
      → IsMethod (Unit {0}) (save_active_config config previous)
  begin :
      (rule_id : String) (s : PreparedSwap) (next : Option Decimal) (why : Reason) (d : Details)
      (now : Instant)
      → IsMethod _ (begin_execution rule_id s next why d now)
  mark : (n : ℕ) → IsMethod (Unit {0}) (mark_broadcast_attempted n)
  note : (n : ℕ) (error : String) → IsMethod (Unit {0}) (note_execution_error n error)
  finish :
      (n : ℕ) (success : Bool) (now : Instant) (error : Option String)
      → IsMethod Report (finish_execution n success now error)
  release : (n : ℕ) → IsMethod Report (release_consumed_execution n)
  resolve :
      (n : ℕ) (success : Bool) (error : Option String) (now : Instant)
      → IsMethod (Unit {0}) (resolve_uncertain_execution n success error now)

-- What the journal promises: it is idle, or it holds one signed transaction, which was or was not
-- sent yet.
pub data Phase : Type 0 where
  idle : Phase
  signed attempted : String → Phase

abbrev pub busy : Bool → String → Phase
busy false hash = signed hash
busy true hash = attempted hash

abbrev pub phase : Option PendingRow → Phase
phase none = idle
phase (some p) = busy p.broadcast_attempted p.tx_hash

-- A step of it: nothing, a new transaction where there is none, the mark on the transaction at
-- hand, or its end.
pub data PhaseStep : Phase → Phase → Type 0 where
  stay : (a : Phase) → PhaseStep a a
  sign : (hash : String) → PhaseStep idle (signed hash)
  attempt :
      (attempted_before : Bool) (hash : String)
      → PhaseStep (busy attempted_before hash) (attempted hash)
  leave : (a : Phase) → PhaseStep a idle

-- A database that a method may leave after this one.
pub record Follows (db db' : Database) : Type 0 where
  pub consistent : IsConsistent db'
  pub step : PhaseStep (phase db.slot) (phase db'.slot)
