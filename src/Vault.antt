-- ===== src/Vault.antt =====
-- The strategy vault (contracts/con_dex_strategy_vault.py): its variables, and its exports as
-- functions of the sender and the state. An `assert` that fails reverts the whole transaction, so
-- an export that raises returns no state. The tokens, the exchange and the contracting runtime are
-- a parameter; a call to a contract acts on the rest of the chain, and one that comes back into the
-- vault is not modelled. An argument has the type that its annotation says.
pub mod Exports
pub mod Changes
pub mod Budget
pub mod Authority
use xian_dex_automation.Base.{
  String, Bool, true, false, not, ◌&&◌, ◌||◌, Option, none, some, List, [], ◌∷◌, str_eq,
}
use xian_dex_automation.Base.Int.{ℤ, pos, ◌-ℤ◌, ltb_ℤ, leb_ℤ}
use xian_dex_automation.Decimal.{Decimal, Context}
use xian_dex_automation.Outcome.{Outcome, ok, raised, Exn, exn, raise_if, ◌>>=◌, ◌>>◌}
use xian_dex_automation.Time.{Instant}

-- `settings`, `spent_total`, `last_execution` and `paused`.
pub record Vault : Type 0 where
  pub owner : String
  pub keeper : String
  pub pair : ℤ
  pub src : String
  pub token_out : String
  pub max_trade_size : Decimal
  pub total_spend_cap : Decimal
  pub max_slippage_bps : ℤ
  pub cooldown_seconds : ℤ
  pub max_deadline_seconds : ℤ
  pub spent_total : Decimal
  pub last_execution : Option Instant
  pub paused : Bool

pub data Event : Type 0 where
  deposited withdrawn : String → Decimal → Event
  swap_executed : String → ℤ → Decimal → Decimal → Event

-- The vault, the rest of the chain, and the events so far, newest first.
pub record State (W : Type 0) : Type 0 where
  pub vault : Vault
  pub chain : W
  pub events : List Event

-- `ctx.caller`, `ctx.this` and `now`.
pub record Sender : Type 0 where
  pub caller : String
  pub this : String
  pub now : Instant

-- The other contracts and the runtime: the state of the pairs contract, `importlib`, the exports of
-- a token, those of the exchange, the quotient of two integers, and a date plus some seconds.
pub record Foreign (W : Type 0) : Type 0 where
  pub context : Context
  pub divide : ℤ → ℤ → Decimal
  pub plus_seconds : Instant → ℤ → Outcome Instant
  pub pairs : W → ℤ → String → Option String
  pub exists : W → String → Bool
  pub has_export : W → String → String → Bool
  pub balance_of : String → String → W → Outcome (Decimal × W)
  pub transfer : String → Decimal → String → W → Outcome W
  pub transfer_from : String → Decimal → String → String → W → Outcome W
  pub approve : String → Decimal → String → W → Outcome W
  pub get_amounts_out : Decimal → String → ℤ → W → Outcome (List Decimal × W)
  pub swap_exact_token_for_token : Decimal → Decimal → ℤ → String → String → Instant → W → Outcome W

-- `assert condition, message`.
abbrev pub require : Bool → String → Outcome (Unit {0})
require condition message = raise_if (not condition) (exn "AssertionError" message)

abbrev pub bps : ℤ
bps = pos 10000

abbrev pub zero_amount : Decimal
zero_amount = pos 0

-- The pair holds the two tokens, in either order.
unfoldable pub tokens_match : String → String → Option String → Option String → Outcome (Unit {0})
tokens_match src token_out (some token0) (some token1) =
    require
      ((str_eq src token0 && str_eq token_out token1)
        || (str_eq src token1 && str_eq token_out token0))
      "VAULT: TOKEN_PAIR_MISMATCH"
tokens_match src token_out _ _ = require false "VAULT: PAIR_NOT_FOUND"

-- The limits that `seed` accepts.
unfoldable pub check_limits : Vault → Outcome (Unit {0})
check_limits v = do
  require (not (str_eq v.keeper "")) "VAULT: INVALID_KEEPER"
  require (ltb_ℤ (pos 0) v.pair) "VAULT: INVALID_PAIR"
  require (not (str_eq v.src "")) "VAULT: INVALID_SRC"
  require (not (str_eq v.token_out v.src)) "VAULT: INVALID_TOKEN_OUT"
  require (ltb_ℤ zero_amount v.max_trade_size) "VAULT: INVALID_MAX_TRADE_SIZE"
  require (leb_ℤ v.max_trade_size v.total_spend_cap) "VAULT: INVALID_SPEND_CAP"
  require (leb_ℤ (pos 0) v.max_slippage_bps && ltb_ℤ v.max_slippage_bps bps)
      "VAULT: INVALID_SLIPPAGE"
  require (leb_ℤ (pos 0) v.cooldown_seconds && leb_ℤ v.cooldown_seconds (pos 2592000))
      "VAULT: INVALID_COOLDOWN"
  require (ltb_ℤ (pos 0) v.max_deadline_seconds && leb_ℤ v.max_deadline_seconds (pos 3600))
      "VAULT: INVALID_DEADLINE"

-- `require_owner`.
unfoldable pub require_owner : Vault → Sender → Outcome (Unit {0})
require_owner v sender = require (str_eq sender.caller v.owner) "VAULT: OWNER_ONLY"

-- The pause test of `set_paused`: the owner or the keeper may pause, only the owner may resume.
unfoldable pub check_pause : Bool → Vault → Sender → Outcome (Unit {0})
unfolding require_owner
check_pause true v sender =
    require (str_eq sender.caller v.owner || str_eq sender.caller v.keeper) "VAULT: PAUSE_FORBIDDEN"
check_pause false v sender = require_owner v sender

-- The new limits of `tighten_limits`.
pub record Limits : Type 0 where
  pub max_trade_size : Decimal
  pub total_spend_cap : Decimal
  pub max_slippage_bps : ℤ
  pub cooldown_seconds : ℤ
  pub max_deadline_seconds : ℤ

-- The assertions of `tighten_limits` behind `require_owner`.
unfoldable pub check_tighter : Limits → Vault → Outcome (Unit {0})
check_tighter l v = do
  require (ltb_ℤ zero_amount l.max_trade_size) "VAULT: INVALID_MAX_TRADE_SIZE"
  require (leb_ℤ l.max_trade_size v.max_trade_size) "VAULT: LIMIT_INCREASE"
  require (leb_ℤ v.spent_total l.total_spend_cap) "VAULT: CAP_BELOW_SPENT"
  require (leb_ℤ l.total_spend_cap v.total_spend_cap) "VAULT: LIMIT_INCREASE"
  require (leb_ℤ l.max_trade_size l.total_spend_cap) "VAULT: INVALID_SPEND_CAP"
  require (leb_ℤ (pos 0) l.max_slippage_bps && leb_ℤ l.max_slippage_bps v.max_slippage_bps)
      "VAULT: LIMIT_INCREASE"
  require (leb_ℤ v.cooldown_seconds l.cooldown_seconds && leb_ℤ l.cooldown_seconds (pos 2592000))
      "VAULT: LIMIT_INCREASE"
  require
      (ltb_ℤ (pos 0) l.max_deadline_seconds && leb_ℤ l.max_deadline_seconds v.max_deadline_seconds)
      "VAULT: LIMIT_INCREASE"

abbrev tightened : Limits → Vault → Vault
tightened l v = record v {
  max_trade_size = l.max_trade_size;
  total_spend_cap = l.total_spend_cap;
  max_slippage_bps = l.max_slippage_bps;
  cooldown_seconds = l.cooldown_seconds;
  max_deadline_seconds = l.max_deadline_seconds;
  paused = true;
}
