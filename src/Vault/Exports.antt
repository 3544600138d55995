-- ===== src/Vault/Exports.antt =====
-- The exports of the vault, `seed` with them (contracts/con_dex_strategy_vault.py).
use xian_dex_automation.Base.{
  String, Bool, true, false, not, ◌||◌, Option, none, some, List, [], ◌∷◌, str_eq,
}
use xian_dex_automation.Base.Int.{ℤ, ◌-ℤ◌, ltb_ℤ, leb_ℤ}
use xian_dex_automation.Decimal.{Decimal}
use xian_dex_automation.Outcome.{Outcome, ok, ◌>>=◌, ◌>>◌}
use xian_dex_automation.Time.{Instant}
use xian_dex_automation.Base.{ltb, leb}
use xian_dex_automation.Vault.{
  Vault, State, Sender, Foreign, Limits, deposited, withdrawn, swap_executed, require, bps,
  zero_amount, tokens_match, check_limits, require_owner, check_pause, check_tighter, tightened,
}

-- `seed`: the vault that the arguments describe, with the sender as its owner.
abbrev pub seeded : Sender → Vault → Vault
seeded sender args = record args {
  owner = sender.caller;
  spent_total = zero_amount;
  last_execution = none;
  paused = true;
}

module _ {W : Type 0} (f : Foreign W) (sender : Sender) where
  unfoldable pub seed : Vault → W → Outcome (State W)
  unfolding check_limits tokens_match
  seed args chain = do
    check_limits args
    tokens_match args.src args.token_out (f.pairs chain args.pair "token0")
        (f.pairs chain args.pair "token1")
    ok (record { vault = seeded sender args; chain = chain; events = [] })

  -- `require_token`.
  unfoldable pub require_token : String → State W → Outcome (Unit {0})
  require_token token s = do
    require (str_eq token s.vault.src || str_eq token s.vault.token_out) "VAULT: TOKEN_NOT_ALLOWED"
    require (f.exists s.chain token) "VAULT: TOKEN_NOT_FOUND"
    require (f.has_export s.chain token "balance_of") "VAULT: INVALID_TOKEN"
    require (f.has_export s.chain token "transfer") "VAULT: INVALID_TOKEN"
    require (f.has_export s.chain token "transfer_from") "VAULT: INVALID_TOKEN"
    require (f.has_export s.chain token "approve") "VAULT: INVALID_TOKEN"

  unfoldable pub deposit : String → Decimal → State W → Outcome (State W)
  unfolding require_owner require_token
  deposit token amount s = do
    require_owner s.vault sender
    require (ltb_ℤ zero_amount amount) "VAULT: INVALID_AMOUNT"
    require_token token s
    (balance_before, w1) ← f.balance_of token sender.this s.chain
    w2 ← f.transfer_from token amount sender.this sender.caller w1
    (balance_after, w3) ← f.balance_of token sender.this w2
    let received = f.context.sub balance_after balance_before
    require (ltb_ℤ zero_amount received) "VAULT: NO_TOKENS_RECEIVED"
    ok (record s { chain = w3; events = deposited token received ∷ s.events })

  unfoldable pub withdraw : String → Decimal → State W → Outcome (State W)
  unfolding require_owner require_token
  withdraw token amount s = do
    require_owner s.vault sender
    require (ltb_ℤ zero_amount amount) "VAULT: INVALID_AMOUNT"
    require_token token s
    (balance, w1) ← f.balance_of token sender.this s.chain
    require (leb_ℤ amount balance) "VAULT: INSUFFICIENT_BALANCE"
    w2 ← f.transfer token amount s.vault.owner w1
    ok (record s { chain = w2; events = withdrawn token amount ∷ s.events })

  unfoldable pub set_keeper : String → State W → Outcome (State W)
  unfolding require_owner
  set_keeper keeper s = do
    require_owner s.vault sender
    require (not (str_eq keeper "")) "VAULT: INVALID_KEEPER"
    ok (record s { vault = record s.vault { keeper = keeper; paused = true } })

  unfoldable pub set_paused : Bool → State W → Outcome (State W)
  unfolding check_pause
  set_paused value s = do
    check_pause value s.vault sender
    ok (record s { vault = record s.vault { paused = value } })

  unfoldable pub tighten_limits : Limits → State W → Outcome (State W)
  unfolding require_owner check_tighter
  tighten_limits l s = do
    require_owner s.vault sender
    check_tighter l s.vault
    ok (record s { vault = tightened l s.vault })

  -- The end of the cooldown has come.
  unfoldable pub check_cooldown : Vault → Option Instant → Outcome (Unit {0})
  check_cooldown v none = ok tt
  check_cooldown v (some previous) = do
    next_execution ← f.plus_seconds previous v.cooldown_seconds
    require (leb next_execution sender.now) "VAULT: COOLDOWN"

  -- The assertions of `execute_swap` before the quote.
  unfoldable pub check_swap : Decimal → Decimal → Instant → Vault → Outcome (Unit {0})
  unfolding check_cooldown
  check_swap amount_in amount_out_min deadline v = do
    require (str_eq sender.caller v.keeper) "VAULT: KEEPER_ONLY"
    require (not v.paused) "VAULT: PAUSED"
    require (ltb_ℤ zero_amount amount_in) "VAULT: INVALID_AMOUNT"
    require (leb_ℤ amount_in v.max_trade_size) "VAULT: TRADE_CAP_EXCEEDED"
    require (leb_ℤ (f.context.add v.spent_total amount_in) v.total_spend_cap)
        "VAULT: SPEND_CAP_EXCEEDED"
    require (ltb_ℤ zero_amount amount_out_min) "VAULT: INVALID_MIN_OUT"
    require (ltb sender.now deadline) "VAULT: EXPIRED"
    latest ← f.plus_seconds sender.now v.max_deadline_seconds
    require (leb deadline latest) "VAULT: DEADLINE_TOO_LONG"
    check_cooldown v v.last_execution

  -- `amount_out_min >= quote[1] * ((BPS - max_slippage_bps) / BPS)`, of a quote of two amounts.
  unfoldable pub check_quote : Decimal → ℤ → List Decimal → Outcome (Unit {0})
  check_quote amount_out_min slippage (first ∷ second ∷ []) =
      require (leb_ℤ (f.context.mul second (f.divide (bps -ℤ slippage) bps)) amount_out_min)
        "VAULT: SLIPPAGE_EXCEEDED"
  check_quote amount_out_min slippage _ = require false "VAULT: INVALID_QUOTE"

  -- From the quote to the last assertion: the amount received, and the rest of the chain.
  unfoldable pub trade : Decimal → Decimal → Instant → State W → Outcome (Decimal × W)
  unfolding check_quote require_token
  trade amount_in amount_out_min deadline s = do
    let v = s.vault
    (quote, w1) ← f.get_amounts_out amount_in v.src v.pair s.chain
    check_quote amount_out_min v.max_slippage_bps quote
    require_token v.src (record s { chain = w1 })
    require_token v.token_out (record s { chain = w1 })
    (balance, w2) ← f.balance_of v.src sender.this w1
    require (leb_ℤ amount_in balance) "VAULT: INSUFFICIENT_BALANCE"
    (output_before, w3) ← f.balance_of v.token_out sender.this w2
    w4 ← f.approve v.src amount_in "con_dex" w3
    w5 ← f.swap_exact_token_for_token amount_in amount_out_min v.pair v.src sender.this deadline w4
    (output_after, w6) ← f.balance_of v.token_out sender.this w5
    let amount_out = f.context.sub output_after output_before
    require (leb_ℤ amount_out_min amount_out) "VAULT: INSUFFICIENT_OUTPUT"
    ok (amount_out, w6)

  unfoldable pub execute_swap : Decimal → Decimal → Instant → State W → Outcome (Decimal × State W)
  unfolding check_swap trade
  execute_swap amount_in amount_out_min deadline s = do
    let v = s.vault
    check_swap amount_in amount_out_min deadline v
    (amount_out, chain) ← trade amount_in amount_out_min deadline s
    ok (
      amount_out,
      record {
        vault = record v {
          spent_total = f.context.add v.spent_total amount_in;
          last_execution = some sender.now;
        };
        chain = chain;
        events = swap_executed sender.caller v.pair amount_in amount_out ∷ s.events;
      },
    )

-- A transaction to the vault.
pub data Call : Type 0 where
  deposit_call withdraw_call : String → Decimal → Call
  keeper_call : String → Call
  paused_call : Bool → Call
  limits_call : Limits → Call
  swap_call : Decimal → Decimal → Instant → Call

abbrev pub after_swap : {W : Type 0} → Outcome (Decimal × State W) → Outcome (State W)
after_swap o = do (amount_out, s) ← o; ok s

-- What it leaves.
abbrev pub perform : {W : Type 0} → Foreign W → Sender → Call → State W → Outcome (State W)
perform f sender (deposit_call token amount) s = deposit f sender token amount s
perform f sender (withdraw_call token amount) s = withdraw f sender token amount s
perform f sender (keeper_call keeper) s = set_keeper f sender keeper s
perform f sender (paused_call value) s = set_paused f sender value s
perform f sender (limits_call l) s = tighten_limits f sender l s
perform f sender (swap_call i o t) s = after_swap (execute_swap f sender i o t s)
