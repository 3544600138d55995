-- ===== src/Decimal.antt =====
-- `decimal.Decimal` under the arithmetic context that the DEX client installs
-- (src/xian_dex_automation/dex.py, `install_contracting_decimal_context`). The context belongs to
-- a package, so it is a parameter. A value is counted in quanta of the context; comparison is
-- exact, as Python's is, and each rounded operation is one of the context's functions.
pub mod Fixed
use xian_dex_automation.Base.{ℕ, ◌*◌, ◌<◌, ◌≡◌}
use xian_dex_automation.Base.Int.{ℤ, pos, ◌≤ℤ◌, ◌<ℤ◌}

abbrev pub Decimal : Type 0
Decimal = ℤ

pub record Context : Type 0 where
  -- The number of quanta in 1.
  pub one : ℕ
  pub add : Decimal → Decimal → Decimal
  pub sub : Decimal → Decimal → Decimal
  pub mul : Decimal → Decimal → Decimal
  pub div : Decimal → Decimal → Decimal

-- `Decimal(n)`.
abbrev pub of_int : Context → ℕ → Decimal
of_int c n = pos (n * c.one)

-- What rounded arithmetic keeps of the exact one, whichever way it rounds: signs, and exact
-- results that need no rounding.
pub record IsSound (c : Context) : Type 0 where
  pub one_pos : 0 < c.one
  pub sub_self : (a : Decimal) → c.sub a a ≡ pos 0
  pub zero_div : (a : Decimal) → pos 0 <ℤ a → c.div (pos 0) a ≡ pos 0
  pub zero_mul : (a : Decimal) → c.mul (pos 0) a ≡ pos 0
  pub sub_nonpos : (a b : Decimal) → a ≤ℤ b → c.sub a b ≤ℤ pos 0
  pub sub_nonneg : (a b : Decimal) → b ≤ℤ a → pos 0 ≤ℤ c.sub a b
  pub div_nonpos : (a b : Decimal) → a ≤ℤ pos 0 → pos 0 <ℤ b → c.div a b ≤ℤ pos 0
  pub div_nonneg : (a b : Decimal) → pos 0 ≤ℤ a → pos 0 <ℤ b → pos 0 ≤ℤ c.div a b
  pub mul_nonpos : (a b : Decimal) → a ≤ℤ pos 0 → pos 0 ≤ℤ b → c.mul a b ≤ℤ pos 0
  pub mul_nonneg : (a b : Decimal) → pos 0 ≤ℤ a → pos 0 ≤ℤ b → pos 0 ≤ℤ c.mul a b
