-- ===== src/Dex.antt =====
-- Reading a pair and planning a swap (src/xian_dex_automation/dex.py).
use xian_dex_automation.Base.{ℕ, String, ◌||◌, Option, none, some, str_eq, if◌then◌else◌}
use xian_dex_automation.Base.Int.{pos, leb_ℤ}
use xian_dex_automation.Decimal.{Decimal, Context}
use xian_dex_automation.Outcome.{Outcome, ok, raised, dex_error}

pub record PairSnapshot : Type 0 where
  pub pair_id : ℕ
  pub token0 : String
  pub token1 : String
  pub reserve0 : Decimal
  pub reserve1 : Decimal

-- The property `price_token1_per_token0`.
unfoldable pub price : Context → PairSnapshot → Option Decimal
price c p =
    if leb_ℤ p.reserve0 (pos 0) || leb_ℤ p.reserve1 (pos 0)
    then none
    else some (c.div p.reserve1 p.reserve0)

unfoldable pub reserves_for_src : PairSnapshot → String → Outcome (Decimal × Decimal × String)
reserves_for_src p src =
    if str_eq src p.token0
    then ok (p.reserve0, p.reserve1, p.token1)
    else if str_eq src p.token1
    then ok (p.reserve1, p.reserve0, p.token0)
    else raised (dex_error "source token is not in pair")
