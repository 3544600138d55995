-- ===== src/Bootstrap/Reuse/Reports.antt =====
-- The strategy that an existing vault reports (scripts/bootstrap_strategy_vault.py).
use xian_dex_automation.Base.{ℕ, String, Bool, true, false, ◌≡◌, refl, inl, inr, arith, eq_iff}
use xian_dex_automation.Base.Int.{pos, eq_of_parts}
use xian_dex_automation.Decimal.{Decimal, Context, of_int}
use xian_dex_automation.Outcome.{Outcome, ok, raised, cancelled, Outcome-cases}
use xian_dex_automation.Outcome
use xian_dex_automation.Config.{StrategyVaultConfig}
use xian_dex_automation.Bootstrap.{Field, missing, flag, whole, fraction, phrase, Strategy}
use xian_dex_automation.Bootstrap.Reuse.{
  assert_existing_strategy, decimal_of, is_text, is_integer, same_decimal, mismatch, check_decimal,
}

-- The value is this natural number.
abbrev pub IsNumber : Context → Field → ℕ → Type 0
IsNumber c (whole n) v = n ≡ pos v
IsNumber c (fraction d) v = d ≡ of_int c v
IsNumber c (flag true) v = 1 ≡ v
IsNumber c (flag false) v = 0 ≡ v
IsNumber c missing v = ⊥
IsNumber c (phrase s) v = ⊥

-- The vault reports this strategy.
pub record Reports (c : Context) (to_decimal : String → Outcome Decimal) (existing : Strategy)
    (s : StrategyVaultConfig) : Type 0 where
  pub keeper : existing "keeper" ≡ phrase s.keeper_address
  pub pair : IsNumber c (existing "pair") s.pair_id
  pub src : existing "src" ≡ phrase s.src
  pub token_out : existing "token_out" ≡ phrase s.token_out
  pub size : decimal_of c to_decimal (existing "max_trade_size") ≡ ok s.max_trade_size
  pub cap : decimal_of c to_decimal (existing "total_spend_cap") ≡ ok s.total_spend_cap
  pub slippage : IsNumber c (existing "max_slippage_bps") s.max_slippage_bps
  pub cooldown : IsNumber c (existing "cooldown_seconds") s.cooldown_seconds
  pub deadline : IsNumber c (existing "max_deadline_seconds") s.max_deadline_seconds

same_decimal-eq : (a b : Decimal) → same_decimal a b ≡ true → a ≡ b
same_decimal-eq a b h = ground (arith, eq_of_parts a b)

-- Both of two checks have passed.
then-ok : (m k : Outcome (Unit {0})) → Outcome.◌>>◌ m k ≡ ok tt → (m ≡ ok tt) × (k ≡ ok tt)
then-ok (ok a) k h = (refl, h)
then-ok (raised e) k h = cc
then-ok cancelled k h = cc

module _ (c : Context) (to_decimal : String → Outcome Decimal) where
  is_text-eq : (f : Field) (v : String) → is_text c to_decimal f v ≡ true → f ≡ phrase v
  unfolding is_text
  is_text-eq (phrase s) v h = ground (arith, eq_iff s v)
  is_text-eq missing v h = ground arith
  is_text-eq (flag b) v h = ground arith
  is_text-eq (whole n) v h = ground arith
  is_text-eq (fraction d) v h = ground arith

  is_integer-IsNumber : (f : Field) (v : ℕ) → is_integer c to_decimal f v ≡ true → IsNumber c f v
  unfolding is_integer
  is_integer-IsNumber (whole n) v h = same_decimal-eq n (pos v) h
  is_integer-IsNumber (fraction d) v h = same_decimal-eq d (of_int c v) h
  is_integer-IsNumber (flag true) v h = ground arith
  is_integer-IsNumber (flag false) v h = ground arith
  is_integer-IsNumber missing v h = ground arith
  is_integer-IsNumber (phrase s) v h = ground arith

  mismatch-true : (same : Bool) → mismatch c to_decimal same ≡ ok tt → same ≡ true
  unfolding mismatch
  mismatch-true true h = refl
  mismatch-true false h = cc

  check_decimal-eq :
      (f : Field) (v : Decimal)
      → check_decimal c to_decimal f v ≡ ok tt
      → decimal_of c to_decimal f ≡ ok v
  unfolding check_decimal mismatch
  check_decimal-eq f v h = elim (Outcome-cases (decimal_of c to_decimal f)) [
    | inl (d, e) ↦ ground (arith, same_decimal-eq d v)
    | inr (inl e) ↦ ground arith
    | inr (inr (x, e)) ↦ ground arith
  ]

  -- `_assert_existing_strategy` passes only a vault that reports the strategy expected.
  pub assert_existing_strategy-Reports :
      (existing : Strategy) (s : StrategyVaultConfig)
      → assert_existing_strategy c to_decimal existing s ≡ ok tt
      → Reports c to_decimal existing s
  unfolding assert_existing_strategy
  assert_existing_strategy-Reports existing s h =
      let (h1, r1) = then-ok _ _ h in
      let (h2, r2) = then-ok _ _ r1 in
      let (h3, r3) = then-ok _ _ r2 in
      let (h4, r4) = then-ok _ _ r3 in
      let (h5, r5) = then-ok _ _ r4 in
      let (h6, r6) = then-ok _ _ r5 in
      let (h7, r7) = then-ok _ _ r6 in
      let (h8, h9) = then-ok _ _ r7 in
      record {
        keeper = text "keeper" s.keeper_address h1;
        pair = number "pair" s.pair_id h2;
        src = text "src" s.src h3;
        token_out = text "token_out" s.token_out h4;
        size = check_decimal-eq _ _ h5;
        cap = check_decimal-eq _ _ h6;
        slippage = number "max_slippage_bps" s.max_slippage_bps h7;
        cooldown = number "cooldown_seconds" s.cooldown_seconds h8;
        deadline = number "max_deadline_seconds" s.max_deadline_seconds h9;
      }
    where
      text :
          (key value : String)
          → mismatch c to_decimal (is_text c to_decimal (existing key) value) ≡ ok tt
          → existing key ≡ phrase value
      text key value e = is_text-eq (existing key) value (mismatch-true _ e)

      number :
          (key : String) (value : ℕ)
          → mismatch c to_decimal (is_integer c to_decimal (existing key) value) ≡ ok tt
          → IsNumber c (existing key) value
      number key value e = is_integer-IsNumber (existing key) value (mismatch-true _ e)
