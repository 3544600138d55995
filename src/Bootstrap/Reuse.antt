-- ===== src/Bootstrap/Reuse.antt =====
-- The comparison of an existing vault with the reviewed one (scripts/bootstrap_strategy_vault.py):
-- the digest of its canonical source, and the strategy that it reports.
pub mod Reports
use xian_dex_automation.Base.{
  ℕ, ◌*◌, ◌+◌, String, Bool, true, false, not, ◌&&◌, Option, none, some, str_eq, leb, suc,
}
use xian_dex_automation.Base.Int.{ℤ, pos, negsuc, negate, leb_ℤ}
use xian_dex_automation.Decimal.{Decimal, Context, of_int}
use xian_dex_automation.Outcome.{Outcome, ok, raised, exn, raise_if, ◌>>=◌, ◌>>◌}
use xian_dex_automation.Config.{StrategyVaultConfig}
use xian_dex_automation.Bootstrap.{
  Field, missing, flag, whole, fraction, phrase, Strategy, bootstrap_error,
}

-- `_canonical_source_digest`, over the compiler's canonical source and the hash.
unfoldable pub canonical_source_digest :
    (String → String → Outcome String) → (String → String) → String → String → Outcome String
canonical_source_digest canonical sha256 module_name source = do
  canonical_source ← canonical module_name source
  ok (sha256 canonical_source)

unfoldable pub verify_reusable_source :
    (String → String → Outcome String)
    → (String → String)
    → String
    → String
    → String
    → Outcome (Unit {0})
unfolding canonical_source_digest
verify_reusable_source canonical sha256 module_name existing reviewed = do
  existing_digest ← canonical_source_digest canonical sha256 module_name existing
  reviewed_digest ← canonical_source_digest canonical sha256 module_name reviewed
  raise_if (not (str_eq existing_digest reviewed_digest))
      (bootstrap_error "existing vault canonical source does not match the reviewed local source")

-- `Decimal(n)` of an integer.
abbrev pub of_integer : Context → ℤ → Decimal
of_integer c (pos n) = of_int c n
of_integer c (negsuc n) = negate (of_int c (suc n))

-- Equality of two decimals.
abbrev pub same_decimal : Decimal → Decimal → Bool
same_decimal a b = leb_ℤ a b && leb_ℤ b a

module _ (c : Context) (to_decimal : String → Outcome Decimal) where
  -- `Decimal(str(actual))`.
  unfoldable pub decimal_of : Field → Outcome Decimal
  decimal_of (whole n) = ok (of_integer c n)
  decimal_of (fraction d) = ok d
  decimal_of (phrase s) = to_decimal s
  decimal_of _ = raised (exn "InvalidOperation" "ConversionSyntax")

  -- `actual == value` for a text.
  unfoldable pub is_text : Field → String → Bool
  is_text (phrase s) value = str_eq s value
  is_text _ value = false

  -- `actual == value` for an integer: numbers compare by value, and `True` is 1.
  unfoldable pub is_integer : Field → ℕ → Bool
  is_integer (whole n) value = same_decimal n (pos value)
  is_integer (fraction d) value = same_decimal d (of_int c value)
  is_integer (flag true) value = same_decimal (pos 1) (pos value)
  is_integer (flag false) value = same_decimal (pos 0) (pos value)
  is_integer _ value = false

  mismatch : Bool → Outcome (Unit {0})
  mismatch same = raise_if (not same) (bootstrap_error "existing vault mismatch")

  check_decimal : Field → Decimal → Outcome (Unit {0})
  unfolding decimal_of mismatch
  check_decimal actual value = do d ← decimal_of actual; mismatch (same_decimal d value)

  -- `_assert_existing_strategy`, in the order of its table.
  unfoldable pub assert_existing_strategy : Strategy → StrategyVaultConfig → Outcome (Unit {0})
  unfolding check_decimal mismatch is_text is_integer
  assert_existing_strategy existing expected = do
    mismatch (is_text (existing "keeper") expected.keeper_address)
    mismatch (is_integer (existing "pair") expected.pair_id)
    mismatch (is_text (existing "src") expected.src)
    mismatch (is_text (existing "token_out") expected.token_out)
    check_decimal (existing "max_trade_size") expected.max_trade_size
    check_decimal (existing "total_spend_cap") expected.total_spend_cap
    mismatch (is_integer (existing "max_slippage_bps") expected.max_slippage_bps)
    mismatch (is_integer (existing "cooldown_seconds") expected.cooldown_seconds)
    mismatch (is_integer (existing "max_deadline_seconds") expected.max_deadline_seconds)
