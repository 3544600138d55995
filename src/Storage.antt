-- ===== src/Storage.antt =====
-- The SQLite store (src/xian_dex_automation/storage.py): its tables and its methods.
pub mod Tables
pub mod Journal
pub mod Settlement
pub mod Markets
pub mod Consistency
pub use Tables.{Run, PendingRow, UncertainRow, RuntimeConfig, Database, new_database, Transaction}
pub use Journal.{begin_execution, pending_execution, uncertain_execution}
pub use Settlement.{
  release_consumed_execution, resolve_uncertain_execution, mark_broadcast_attempted,
  note_execution_error, finish_execution,
}
pub use Markets.{
  append_run, get_rule_state, save_rule_state, list_runs, get_cursor, save_cursor, active_config,
  config_generation, save_active_config,
}
