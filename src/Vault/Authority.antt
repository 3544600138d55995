-- ===== src/Vault/Authority.antt =====
-- Who may do what to the vault, and within which limits a swap is made.
use xian_dex_automation.Base.{
  String, Bool, true, false, ◌≡◌, refl, ap, sym, subst, inl, inr, Option, none, some, arith, eq_iff,
  ◌≤◌, ◌<◌, List, [], ◌∷◌,
}
use xian_dex_automation.Base.Int.{pos, ◌-ℤ◌, ◌≤ℤ◌, ◌<ℤ◌}
use xian_dex_automation.Decimal.{Decimal}
use xian_dex_automation.Outcome.{ok, Outcome-cases}
use xian_dex_automation.Time.{Instant}
use xian_dex_automation.Vault.{
  Vault, State, Sender, Foreign, Limits, zero_amount, check_tighter, tightened,
}
use xian_dex_automation.Vault.Exports.{
  Call, deposit_call, withdraw_call, keeper_call, paused_call, limits_call, swap_call, perform,
  check_swap, check_cooldown, check_quote, trade, execute_swap,
}
use xian_dex_automation.Vault.Changes.{Changes, perform-Changes, IsOwner}

-- Same owner, pair and tokens, and no limit looser than before.
pub record IsNoLooser (v v' : Vault) : Type 0 where
  pub fixed :
      (v'.owner ≡ v.owner) × (v'.pair ≡ v.pair) × (v'.src ≡ v.src) × (v'.token_out ≡ v.token_out)
  pub trade_size : v'.max_trade_size ≤ℤ v.max_trade_size
  pub spend_cap : v'.total_spend_cap ≤ℤ v.total_spend_cap
  pub slippage : v'.max_slippage_bps ≤ℤ v.max_slippage_bps
  pub deadline : v'.max_deadline_seconds ≤ℤ v.max_deadline_seconds
  pub cooldown : v.cooldown_seconds ≤ℤ v'.cooldown_seconds

-- Where the limits are untouched.
same_limits :
    (v : Vault) (keeper : String) (spent : Decimal) (last : Option Instant) (paused : Bool)
    → IsNoLooser v
        (record v { keeper = keeper; spent_total = spent; last_execution = last; paused = paused })
same_limits v keeper spent last paused = record {
  fixed = (refl, refl, refl, refl);
  trade_size = omega arith;
  spend_cap = omega arith;
  slippage = omega arith;
  deadline = omega arith;
  cooldown = omega arith;
}

tightened-IsNoLooser :
    (l : Limits) (v : Vault) → check_tighter l v ≡ ok tt → IsNoLooser v (tightened l v)
unfolding check_tighter
tightened-IsNoLooser l v h = ground arith

module _ {W : Type 0} (f : Foreign W) (sender : Sender) where
  Changes-IsNoLooser : (call : Call) (v v' : Vault) → Changes f sender call v v' → IsNoLooser v v'
  Changes-IsNoLooser (deposit_call token amount) v v' c =
      subst (IsNoLooser v) (sym c.1)
        (same_limits v v.keeper v.spent_total v.last_execution v.paused)
  Changes-IsNoLooser (withdraw_call token amount) v v' c =
      subst (IsNoLooser v) (sym c.1)
        (same_limits v v.keeper v.spent_total v.last_execution v.paused)
  Changes-IsNoLooser (keeper_call keeper) v v' c =
      subst (IsNoLooser v) (sym c.1) (same_limits v keeper v.spent_total v.last_execution true)
  Changes-IsNoLooser (paused_call value) v v' c =
      subst (IsNoLooser v) (sym c.1) (same_limits v v.keeper v.spent_total v.last_execution value)
  Changes-IsNoLooser (limits_call l) v v' c =
      subst (IsNoLooser v) (sym c.2) (tightened-IsNoLooser l v c.1)
  Changes-IsNoLooser (swap_call i o t) v v' c =
      subst (IsNoLooser v) (sym c.1)
        (same_limits v v.keeper (f.context.add v.spent_total i) (some sender.now) v.paused)

  -- No transaction that succeeds changes the owner, the pair or the tokens, raises the trade size,
  -- the spend cap, the slippage or the deadline, or shortens the cooldown.
  pub perform-IsNoLooser :
      (call : Call) (s s' : State W) → perform f sender call s ≡ ok s' → IsNoLooser s.vault s'.vault
  perform-IsNoLooser call s s' h =
      Changes-IsNoLooser call s.vault s'.vault (perform-Changes f sender call s s' h)

  resumed :
      (call : Call) (v v' : Vault)
      → Changes f sender call v v'
      → v.paused ≡ true
      → v'.paused ≡ false
      → IsOwner sender v
  resumed (deposit_call token amount) v v' c p q = c.0
  resumed (withdraw_call token amount) v v' c p q = c.0
  resumed (keeper_call keeper) v v' c p q = c.0
  resumed (paused_call true) v v' c p q = absurd (cc (ap (λ (x : Vault). x.paused) c.1, q))
  resumed (paused_call false) v v' c p q = c.0
  resumed (limits_call l) v v' c p q = c.0
  resumed (swap_call i o t) v v' c p q = absurd (cc (ap (λ (x : Vault). x.paused) c.1, p, q))

  -- A paused vault is running after a transaction only if its owner sent that transaction.
  pub perform-resumed :
      (call : Call) (s s' : State W)
      → perform f sender call s ≡ ok s'
      → s.vault.paused ≡ true
      → s'.vault.paused ≡ false
      → IsOwner sender s.vault
  perform-resumed call s s' h = resumed call s.vault s'.vault (perform-Changes f sender call s s' h)

  -- The cooldown has ended, by the runtime's arithmetic on dates.
  abbrev pub IsCooled : Option Instant → Vault → Type 0
  IsCooled none v = Unit
  IsCooled (some previous) v =
      (next : Instant) × (f.plus_seconds previous v.cooldown_seconds ≡ ok next)
      × (next ≤ sender.now)

  check_cooldown-IsCooled :
      (v : Vault) (last : Option Instant) → check_cooldown f sender v last ≡ ok tt → IsCooled last v
  unfolding check_cooldown
  check_cooldown-IsCooled v none h = tt
  check_cooldown-IsCooled v (some previous) h =
      elim (Outcome-cases (f.plus_seconds previous v.cooldown_seconds)) [
        | inl (next, e) ↦ (next, e, ground arith)
        | inr e ↦ ground arith
      ]

  -- What a swap needs.
  pub record IsAllowed (amount_in amount_out_min : Decimal) (deadline : Instant) (v : Vault)
      : Type 0 where
    pub keeper : sender.caller ≡ v.keeper
    pub running : v.paused ≡ false
    pub amount : (zero_amount <ℤ amount_in) × (amount_in ≤ℤ v.max_trade_size)
    pub budget : f.context.add v.spent_total amount_in ≤ℤ v.total_spend_cap
    pub minimum : zero_amount <ℤ amount_out_min
    pub window :
        (sender.now < deadline)
        × (latest : Instant) × (f.plus_seconds sender.now v.max_deadline_seconds ≡ ok latest)
        × (deadline ≤ latest)
    pub cooled : IsCooled v.last_execution v

  check_swap-IsAllowed :
      (i o : Decimal) (t : Instant) (v : Vault)
      → check_swap f sender i o t v ≡ ok tt
      → IsAllowed i o t v
  unfolding check_swap
  check_swap-IsAllowed i o t v h =
      elim (Outcome-cases (f.plus_seconds sender.now v.max_deadline_seconds)) [
        | inr e ↦ ground arith
        | inl (latest, e) ↦ record {
          keeper = ground (arith, eq_iff sender.caller v.keeper);
          running = ground arith;
          amount = ground arith;
          budget = ground arith;
          minimum = ground arith;
          window = (ground arith, latest, e, ground arith);
          cooled = check_cooldown-IsCooled v v.last_execution (ground arith);
        }
      ]

  -- The pair quotes an amount for the swap, and the least amount asked for is at least the share of
  -- it that the slippage limit leaves: (BPS - max_slippage_bps) / BPS.
  pub record IsQuoted (amount_in amount_out_min : Decimal) (v : Vault) (chain : W) : Type 0 where
    pub first : Decimal
    pub quote : Decimal
    pub rest : W
    pub quoted : f.get_amounts_out amount_in v.src v.pair chain ≡ ok (first ∷ quote ∷ [], rest)
    pub enough :
        f.context.mul quote (f.divide (pos 10000 -ℤ v.max_slippage_bps) (pos 10000))
        ≤ℤ amount_out_min

  check_quote-IsQuoted :
      (i o : Decimal) (v : Vault) (chain rest : W) (q : List Decimal)
      → f.get_amounts_out i v.src v.pair chain ≡ ok (q, rest)
      → check_quote f sender o v.max_slippage_bps q ≡ ok tt
      → IsQuoted i o v chain
  unfolding check_quote
  check_quote-IsQuoted i o v chain rest [] e h = ground arith
  check_quote-IsQuoted i o v chain rest (first ∷ []) e h = ground arith
  check_quote-IsQuoted i o v chain rest (first ∷ quote ∷ []) e h = record {
    first = first;
    quote = quote;
    rest = rest;
    quoted = e;
    enough = ground arith;
  }
  check_quote-IsQuoted i o v chain rest (first ∷ quote ∷ third ∷ q) e h = ground arith

  trade-IsQuoted :
      (i o : Decimal) (t : Instant) (s : State W) (out : Decimal) (chain : W)
      → trade f sender i o t s ≡ ok (out, chain)
      → IsQuoted i o s.vault s.chain
  unfolding trade
  trade-IsQuoted i o t s out chain h =
      elim (Outcome-cases (f.get_amounts_out i s.vault.src s.vault.pair s.chain)) [
        | inr e ↦ ground arith
        | inl ((q, rest), e) ↦ check_quote-IsQuoted i o s.vault s.chain rest q e (ground arith)
      ]

  trade-enough :
      (i o : Decimal) (t : Instant) (s : State W) (out : Decimal) (chain : W)
      → trade f sender i o t s ≡ ok (out, chain)
      → o ≤ℤ out
  unfolding trade
  trade-enough i o t s out chain h = ground arith

  -- When `execute_swap` returns, the keeper sent it to a running vault, the amount and the spend
  -- total with it are within the limits, the least amount asked for is above zero and at least the
  -- quote less the slippage limit, the deadline is in its window, the cooldown has ended, the amount
  -- returned is at least the least amount asked for, and of the vault's variables only the spent
  -- total, which grows by the amount, and the time of the last execution, which is now, change.
  pub execute_swap-IsAllowed :
      (i o : Decimal) (t : Instant) (s s' : State W) (out : Decimal)
      → execute_swap f sender i o t s ≡ ok (out, s')
      → IsAllowed i o t s.vault
        × IsQuoted i o s.vault s.chain
        × (o ≤ℤ out)
        × (s'.vault ≡ record s.vault {
          spent_total = f.context.add s.vault.spent_total i;
          last_execution = some sender.now;
        })
  unfolding execute_swap
  execute_swap-IsAllowed i o t s s' out h =
      elim (Outcome-cases (check_swap f sender i o t s.vault)) [
        | inr e ↦ ground arith
        | inl (tt, e) ↦ elim (Outcome-cases (trade f sender i o t s)) [
          | inr e ↦ ground arith
          | inl ((out', chain), traded) ↦
              let same : out' ≡ out = ground arith in
              (
                check_swap-IsAllowed i o t s.vault e,
                trade-IsQuoted i o t s out' chain traded,
                subst (λ (x : Decimal). o ≤ℤ x) same (trade-enough i o t s out' chain traded),
                ground arith,
              )
        ]
      ]
