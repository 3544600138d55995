-- ===== src/Report.antt =====
-- The words of run records and evaluation results: statuses, reasons, and the JSON details.
use xian_dex_automation.Decimal.{Decimal}
use xian_dex_automation.Base.{ℕ, String, Bool, Option, Dict}

pub data Status : Type 0 where
  pending submitted failed dry_run skipped outcome_unknown : Status

pub data Reason : Type 0 where
  invalid_reserves baseline_initialized invalid_baseline threshold_not_reached : Reason
  cooldown_active price_move_threshold_reached quote_failed submission_failed : Reason
  submission_pending recovery_pending execution_busy configuration_draining : Reason
  configuration_changed rule_outcome_unknown nonce_consumed_receipt_missing : Reason
  receipt_recovered : Reason

-- A value of `details`; a decimal stands for its text.
pub data Json : Type 0 where
  null : Json
  boolean : Bool → Json
  number : ℕ → Json
  text : String → Json
  amount : Decimal → Json

abbrev pub Details : Type 0
Details = Dict Json

-- A result dictionary; a key that a result lacks is `none`.
pub record Report : Type 0 where
  pub rule_id : Option String
  pub status : Status
  pub reason : Reason
  pub tx_hash : Option String
  pub details : Details
