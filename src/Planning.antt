-- ===== src/Planning.antt =====
-- The pure parts of `DexClient` (src/xian_dex_automation/dex.py): unlocking the wallet, reading
-- values, quoting, deadlines and the checks of a plan.
pub mod Deadline
use xian_dex_automation.Base.{
  ℕ, suc, ◌-◌, min, max, String, Bool, true, false, not, ◌&&◌, ◌||◌, Option, none, some, str_eq,
  ◌==◌, is_none, if◌then◌else◌,
}
use xian_dex_automation.Base.Int.{pos, negsuc, negate, leb_ℤ}
use xian_dex_automation.Decimal.{Decimal, of_int}
use xian_dex_automation.Outcome.{Outcome, ok, raised, dex_error, raise_if, ◌>>=◌, ◌>>◌}
use xian_dex_automation.Time.{Instant, add_seconds}
use xian_dex_automation.Config.{AutomationConfig, StrategyVaultConfig, SwapExactInActionConfig}
use xian_dex_automation.Credentials.{resolve_private_key, truthy}
use xian_dex_automation.Dex.{PairSnapshot, reserves_for_src}
use xian_dex_automation.Runtime.{Platform, StateValue}

-- A connected client; `key` is the signing wallet's.
pub record Client : Type 0 where
  pub config : AutomationConfig
  pub key : Option String
  pub wallet_address : Option String

-- `xian_deadline`, as an instant; the source spells it as year, month, … microsecond.
unfoldable pub xian_deadline : ℕ → Instant → Outcome Instant
unfolding add_seconds
xian_deadline seconds base =
    if seconds == 0
    then raised (dex_error "deadline seconds must be positive")
    else add_seconds base (seconds - min 5 (max 0 (seconds - 1)))

abbrev or_text : Option String → Option String → Option String
or_text none b = b
or_text (some a) b = some a

-- The first of the three recipients that is not empty.
unfoldable pub recipient_of : Option String → Option String → Option String → Option String
recipient_of a b c = or_text (truthy a) (or_text (truthy b) c)

-- The keeper check of `__aenter__`.
wrong_keeper : Option StrategyVaultConfig → Option String → Bool → Bool
wrong_keeper (some s) (some address) true = not (str_eq address s.keeper_address)
wrong_keeper _ _ _ = false

-- The checks of a swap through the vault.
unfoldable pub vault_checks :
    StrategyVaultConfig → PairSnapshot → SwapExactInActionConfig → Outcome (Unit {0})
vault_checks v s a = do
  (_, _, token_out) ← reserves_for_src s a.src
  raise_if (not (s.pair_id == v.pair_id))
      (dex_error "swap pair does not match the configured strategy vault")
  raise_if (not (str_eq a.src v.src) || not (str_eq token_out v.token_out))
      (dex_error "swap direction does not match the configured strategy vault")

unfoldable pub chain_allowed : Option String → String → Bool
chain_allowed none id = true
chain_allowed (some expected) id = str_eq expected id

module _ (p : Platform) where
  -- `Wallet(private_key).public_key`, if there is a key.
  address_of : Option String → Outcome (Option String)
  address_of none = ok none
  address_of (some key) = do a ← p.public_key key; ok (some a)

  -- The wallet part of `__aenter__`.
  unfoldable pub unlock : AutomationConfig → Outcome Client
  unfolding address_of wrong_keeper
  unlock c = do
    (key, _) ← resolve_private_key p.str.strip p.secrets c
    raise_if (c.wallet.execute && is_none (truthy key))
        (dex_error "wallet.execute is true but the key is not set")
    address ← address_of (truthy key)
    raise_if (wrong_keeper c.custody.vault address c.wallet.execute) (
        dex_error
          "configured automation wallet does not match custody.strategy_vault.keeper_address")
    ok (record { config = c; key = truthy key; wallet_address = address })

  -- `decimal_value`.
  unfoldable pub decimal_value : StateValue → Outcome Decimal
  decimal_value (StateValue.decimal d) = ok d
  decimal_value (StateValue.integer (pos n)) = ok (of_int p.context n)
  decimal_value (StateValue.integer (negsuc n)) = ok (negate (of_int p.context (suc n)))
  decimal_value (StateValue.word s) = p.str.to_decimal s
  decimal_value _ = raised (dex_error "expected numeric value")

  -- A token of a pair: a text that is not empty.
  unfoldable pub token_name : StateValue → Option String
  token_name (StateValue.word s) = truthy (some s)
  token_name _ = none

  unfoldable pub make_snapshot :
      ℕ → Option String → Option String → StateValue → StateValue → Outcome PairSnapshot
  unfolding decimal_value
  make_snapshot pair_id (some t0) (some t1) r0 r1 = do
    reserve0 ← decimal_value r0
    reserve1 ← decimal_value r1
    ok (record {
      pair_id = pair_id;
      token0 = t0;
      token1 = t1;
      reserve0 = reserve0;
      reserve1 = reserve1;
    })
  make_snapshot pair_id _ _ r0 r1 = raised (dex_error "pair does not exist")

  -- `(amount_in * ((BPS - fee) / BPS))`, then the constant-product formula.
  unfoldable pub quote_amount : Decimal → Decimal → Decimal → ℕ → Outcome Decimal
  quote_amount reserve_in reserve_out amount_in fee_bps =
      let c = p.context in
      let bps = of_int c 10000 in
      let with_fee = c.mul amount_in (c.div (c.sub bps (of_int c fee_bps)) bps) in
      if leb_ℤ reserve_in (pos 0) || leb_ℤ reserve_out (pos 0)
      then raised (dex_error "pair has insufficient liquidity")
      else ok (c.div (c.mul with_fee reserve_out) (c.add reserve_in with_fee))
