-- ===== src/Vault/Changes.antt =====
-- What a transaction that succeeds does to the vault's variables.
use xian_dex_automation.Base.{String, Bool, true, false, ◌≡◌, ◌⊎◌, inl, inr, some, arith, eq_iff}
use xian_dex_automation.Decimal.{Decimal}
use xian_dex_automation.Outcome.{Outcome-cases, ok}
use xian_dex_automation.Time.{Instant}
use xian_dex_automation.Vault.{
  Vault, State, Sender, Foreign, Limits, require_owner, check_tighter, check_pause, tightened,
}
use xian_dex_automation.Vault.Exports.{
  Call, deposit_call, withdraw_call, keeper_call, paused_call, limits_call, swap_call, perform,
  deposit, withdraw, set_keeper, set_paused, tighten_limits, execute_swap, check_swap, trade,
  after_swap,
}

-- The sender is the vault's owner.
abbrev pub IsOwner : Sender → Vault → Type 0
IsOwner sender v = sender.caller ≡ v.owner

require_owner-IsOwner :
    (v : Vault) (sender : Sender) (u : Unit) → require_owner v sender ≡ ok u → IsOwner sender v
unfolding require_owner
require_owner-IsOwner v sender u h = ground (arith, eq_iff sender.caller v.owner)

abbrev pub CanPause : Bool → Sender → Vault → Type 0
CanPause true sender v = IsOwner sender v ⊎ (sender.caller ≡ v.keeper)
CanPause false sender v = IsOwner sender v

check_pause-CanPause :
    (value : Bool) (v : Vault) (sender : Sender) (u : Unit)
    → check_pause value v sender ≡ ok u
    → CanPause value sender v
unfolding check_pause
check_pause-CanPause true v sender u h =
    ground (arith, eq_iff sender.caller v.owner, eq_iff sender.caller v.keeper)
check_pause-CanPause false v sender u h = require_owner-IsOwner v sender u h

module _ {W : Type 0} (f : Foreign W) (sender : Sender) where
  -- The vault before and after a call, with what the call has checked.
  abbrev pub Changes : Call → Vault → Vault → Type 0
  Changes (deposit_call token amount) v v' = IsOwner sender v × (v' ≡ v)
  Changes (withdraw_call token amount) v v' = IsOwner sender v × (v' ≡ v)
  Changes (keeper_call keeper) v v' =
      IsOwner sender v × (v' ≡ record v { keeper = keeper; paused = true })
  Changes (paused_call value) v v' = CanPause value sender v × (v' ≡ record v { paused = value })
  Changes (limits_call l) v v' =
      IsOwner sender v × (check_tighter l v ≡ ok tt) × (v' ≡ tightened l v)
  Changes (swap_call amount_in amount_out_min deadline) v v' =
      (check_swap f sender amount_in amount_out_min deadline v ≡ ok tt)
      × (v' ≡ record v {
        spent_total = f.context.add v.spent_total amount_in;
        last_execution = some sender.now;
      })

  deposit-Changes :
      (token : String) (amount : Decimal) (s s' : State W)
      → deposit f sender token amount s ≡ ok s'
      → IsOwner sender s.vault × (s'.vault ≡ s.vault)
  unfolding deposit require_owner
  deposit-Changes token amount s s' h = ground (arith, eq_iff sender.caller s.vault.owner)

  withdraw-Changes :
      (token : String) (amount : Decimal) (s s' : State W)
      → withdraw f sender token amount s ≡ ok s'
      → IsOwner sender s.vault × (s'.vault ≡ s.vault)
  unfolding withdraw require_owner
  withdraw-Changes token amount s s' h = ground (arith, eq_iff sender.caller s.vault.owner)

  swap-Changes :
      (amount_in amount_out_min : Decimal) (deadline : Instant) (s s' : State W)
      → after_swap (execute_swap f sender amount_in amount_out_min deadline s) ≡ ok s'
      → Changes (swap_call amount_in amount_out_min deadline) s.vault s'.vault
  unfolding execute_swap
  swap-Changes i o t s s' h = elim (Outcome-cases (check_swap f sender i o t s.vault)) [
    | inr e ↦ ground arith
    | inl (u, checked) ↦ elim (Outcome-cases (trade f sender i o t s)) [
      | inr e ↦ ground arith
      | inl ((amount_out, chain), traded) ↦ ground arith
    ]
  ]

  keeper-Changes :
      (keeper : String) (s s' : State W)
      → set_keeper f sender keeper s ≡ ok s'
      → Changes (keeper_call keeper) s.vault s'.vault
  unfolding set_keeper require_owner
  keeper-Changes keeper s s' h = ground (arith, eq_iff sender.caller s.vault.owner)

  paused-Changes :
      (value : Bool) (s s' : State W)
      → set_paused f sender value s ≡ ok s'
      → Changes (paused_call value) s.vault s'.vault
  unfolding set_paused
  paused-Changes value s s' h = ground (arith, check_pause-CanPause value s.vault sender tt)

  limits-Changes :
      (l : Limits) (s s' : State W)
      → tighten_limits f sender l s ≡ ok s'
      → Changes (limits_call l) s.vault s'.vault
  unfolding tighten_limits
  limits-Changes l s s' h = ground (arith, require_owner-IsOwner s.vault sender tt)

  -- A transaction that succeeds changes the vault's variables as `Changes` says of its call.
  pub perform-Changes :
      (call : Call) (s s' : State W)
      → perform f sender call s ≡ ok s'
      → Changes call s.vault s'.vault
  perform-Changes (deposit_call token amount) s s' h = deposit-Changes token amount s s' h
  perform-Changes (withdraw_call token amount) s s' h = withdraw-Changes token amount s s' h
  perform-Changes (keeper_call keeper) s s' h = keeper-Changes keeper s s' h
  perform-Changes (paused_call value) s s' h = paused-Changes value s s' h
  perform-Changes (limits_call l) s s' h = limits-Changes l s s' h
  perform-Changes (swap_call i o t) s s' h = swap-Changes i o t s s' h
