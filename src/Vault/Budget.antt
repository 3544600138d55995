-- ===== src/Vault/Budget.antt =====
-- What the vault's limits guarantee along every history of transactions.
use xian_dex_automation.Base.{subst, sym, ◌≡◌, inl, inr, arith}
use xian_dex_automation.Base.Int.{pos, ◌≤ℤ◌, ◌<ℤ◌}
use xian_dex_automation.Decimal.{Decimal, Context}
use xian_dex_automation.Outcome.{ok, Outcome-cases}
use xian_dex_automation.Time.{Instant}
use xian_dex_automation.Vault.{
  Vault, State, Sender, Foreign, Limits, bps, zero_amount, check_limits, check_tighter, tightened,
  tokens_match,
}
use xian_dex_automation.Vault.Exports.{
  Call, deposit_call, withdraw_call, keeper_call, paused_call, limits_call, swap_call, perform,
  seed, seeded, check_swap,
}
use xian_dex_automation.Vault.Changes.{Changes, perform-Changes}

-- The spent total is within the cap, and the limits are what `seed` asks of them.
pub record IsWithinBudget (v : Vault) : Type 0 where
  pub spent : (zero_amount ≤ℤ v.spent_total) × (v.spent_total ≤ℤ v.total_spend_cap)
  pub trade_size : (zero_amount <ℤ v.max_trade_size) × (v.max_trade_size ≤ℤ v.total_spend_cap)
  pub slippage : (pos 0 ≤ℤ v.max_slippage_bps) × (v.max_slippage_bps <ℤ bps)
  pub cooldown : (pos 0 ≤ℤ v.cooldown_seconds) × (v.cooldown_seconds ≤ℤ pos 2592000)
  pub deadline : (pos 0 <ℤ v.max_deadline_seconds) × (v.max_deadline_seconds ≤ℤ pos 3600)

-- The context's sum of two amounts that are not negative is not negative.
abbrev pub AddsUp : Context → Type 0
AddsUp c = (a b : Decimal) → pos 0 ≤ℤ a → pos 0 ≤ℤ b → pos 0 ≤ℤ c.add a b

seeded-IsWithinBudget :
    (sender : Sender) (args : Vault)
    → check_limits args ≡ ok tt
    → IsWithinBudget (seeded sender args)
unfolding check_limits
seeded-IsWithinBudget sender args h = ground arith

tightened-IsWithinBudget :
    (l : Limits) (v : Vault)
    → check_tighter l v ≡ ok tt
    → IsWithinBudget v
    → IsWithinBudget (tightened l v)
unfolding check_tighter
tightened-IsWithinBudget l v h w = ground arith

module _ {W : Type 0} (f : Foreign W) where
  -- What the assertions of `execute_swap` say of the amounts.
  check_swap-amounts :
      (sender : Sender) (i o : Decimal) (t : Instant) (v : Vault)
      → check_swap f sender i o t v ≡ ok tt
      → (zero_amount <ℤ i) × (f.context.add v.spent_total i ≤ℤ v.total_spend_cap)
  unfolding check_swap
  check_swap-amounts sender i o t v h = ground arith

  Changes-IsWithinBudget :
      (sender : Sender) (call : Call) (v v' : Vault)
      → AddsUp f.context
      → Changes f sender call v v'
      → IsWithinBudget v
      → IsWithinBudget v'
  Changes-IsWithinBudget sender (deposit_call token amount) v v' adds c w =
      subst IsWithinBudget (sym c.1) w
  Changes-IsWithinBudget sender (withdraw_call token amount) v v' adds c w =
      subst IsWithinBudget (sym c.1) w
  Changes-IsWithinBudget sender (keeper_call keeper) v v' adds c w =
      subst IsWithinBudget (sym c.1) (record {
        spent = w.spent;
        trade_size = w.trade_size;
        slippage = w.slippage;
        cooldown = w.cooldown;
        deadline = w.deadline;
      })
  Changes-IsWithinBudget sender (paused_call value) v v' adds c w =
      subst IsWithinBudget (sym c.1) (record {
        spent = w.spent;
        trade_size = w.trade_size;
        slippage = w.slippage;
        cooldown = w.cooldown;
        deadline = w.deadline;
      })
  Changes-IsWithinBudget sender (limits_call l) v v' adds c w =
      subst IsWithinBudget (sym c.2) (tightened-IsWithinBudget l v c.1 w)
  Changes-IsWithinBudget sender (swap_call i o t) v v' adds c w =
      let (positive, within) = check_swap-amounts sender i o t v c.0 in
      subst IsWithinBudget (sym c.1) (record {
        spent = (adds v.spent_total i w.spent.0 (omega arith), within);
        trade_size = w.trade_size;
        slippage = w.slippage;
        cooldown = w.cooldown;
        deadline = w.deadline;
      })

  -- The states that a seeded vault comes to by transactions that succeed.
  pub data Reachable : State W → Type 0 where
    seeded_at :
        (sender : Sender) (args : Vault) (chain : W) (s : State W)
        → seed f sender args chain ≡ ok s
        → Reachable s
    performed :
        (sender : Sender) (call : Call) (s s' : State W)
        → Reachable s
        → perform f sender call s ≡ ok s'
        → Reachable s'

  seed-IsWithinBudget :
      (sender : Sender) (args : Vault) (chain : W) (s : State W)
      → seed f sender args chain ≡ ok s
      → IsWithinBudget s.vault
  unfolding seed
  seed-IsWithinBudget sender args chain s h = elim (Outcome-cases (check_limits args)) [
    | inr e ↦ ground arith
    | inl (tt, e) ↦
        elim (Outcome-cases (
          tokens_match args.src args.token_out (f.pairs chain args.pair "token0")
            (f.pairs chain args.pair "token1"))) [
              | inr k ↦ ground arith
              | inl (tt, k) ↦
                  let same : s.vault ≡ seeded sender args = ground arith in
                  subst IsWithinBudget (sym same) (seeded-IsWithinBudget sender args e)
            ]
  ]

  -- In every reachable state the vault has spent no more than its cap, and no less than nothing; no
  -- trade limit exceeds the cap, and slippage, cooldown and deadline stay within the bounds of the
  -- contract, if the sum of two amounts that are not negative is not negative.
  pub Reachable-IsWithinBudget :
      (s : State W) → AddsUp f.context → Reachable s → IsWithinBudget s.vault
  Reachable-IsWithinBudget s adds (seeded_at sender args chain _ e) =
      seed-IsWithinBudget sender args chain s e
  Reachable-IsWithinBudget s adds (performed sender call before _ r e) =
      Changes-IsWithinBudget sender call before.vault s.vault adds
        (perform-Changes f sender call before s e) (Reachable-IsWithinBudget before adds r)
