-- ===== src/Tests/Custody.antt =====
-- The theorems on the vault, along a history: its owner seeds it and starts it, its keeper swaps.
use xian_dex_automation.Base.{
  ℕ, ◌+◌, true, false, ◌≡◌, refl, none, some, [], ◌∷◌, arith, str_eq, if◌then◌else◌,
}
use xian_dex_automation.Base.Int.{ℤ, pos, negsuc, ◌-ℤ◌, ◌+ℤ◌, ◌≤ℤ◌, +ℤ_parts}
use xian_dex_automation.Outcome.{Outcome, ok, raised, value_error}
use xian_dex_automation.Decimal.Fixed.{fixed}
use xian_dex_automation.Time.{Instant, add_seconds}
use xian_dex_automation.Vault.{Event, Vault, State, Sender, Foreign, check_pause}
use xian_dex_automation.Vault.Exports.{
  paused_call, swap_call, perform, seed, seeded, set_paused, execute_swap, check_swap, trade,
  check_quote,
}
use xian_dex_automation.Vault.Changes.{IsOwner}
use xian_dex_automation.Vault.Budget.{
  AddsUp, IsWithinBudget, seeded_at, performed, Reachable-IsWithinBudget,
}
use xian_dex_automation.Vault.Authority.{
  IsNoLooser, IsAllowed, IsQuoted, perform-IsNoLooser, perform-resumed, execute_swap-IsAllowed,
}

pub plus_seconds : Instant → ℤ → Outcome Instant
unfolding add_seconds
plus_seconds t (pos n) = add_seconds t n
plus_seconds t (negsuc n) = raised (value_error "negative duration")

-- A chain that keeps the vault's balance of the token it buys.
abbrev pub foreign : Foreign ℕ
foreign = record {
  context = fixed;
  divide = fixed.div;
  plus_seconds = plus_seconds;
  pairs = λ w pair field. if str_eq field "token0" then some "currency" else some "con_token";
  exists = λ w token. true;
  has_export = λ w token name. true;
  balance_of = λ token holder w. ok (if str_eq token "con_token" then pos w else pos 90000, w);
  transfer = λ token amount receiver w. ok w;
  transfer_from = λ token amount receiver sender w. ok w;
  approve = λ token amount receiver w. ok w;
  get_amounts_out = λ amount src pair w. ok (amount ∷ pos 5000 ∷ [], w);
  swap_exact_token_for_token = λ amount least pair src receiver deadline w. ok (w + 5000);
}

abbrev pub owner : Sender
owner = record { caller = "owner"; this = "con_vault"; now = 1000000 }

abbrev keeper : Sender
keeper = record { caller = "keeper"; this = "con_vault"; now = 2000000 }

abbrev args : Vault
args = record {
  owner = "";
  keeper = "keeper";
  pair = pos 1;
  src = "currency";
  token_out = "con_token";
  max_trade_size = pos 20000;
  total_spend_cap = pos 90000;
  max_slippage_bps = pos 100;
  cooldown_seconds = pos 300;
  max_deadline_seconds = pos 300;
  spent_total = pos 0;
  last_execution = none;
  paused = true;
}

abbrev fresh : State ℕ
fresh = record { vault = seeded owner args; chain = 0; events = [] }

abbrev running : State ℕ
running = record fresh { vault = record fresh.vault { paused = false } }

abbrev swapped : State ℕ
swapped = record {
  vault = record running.vault { spent_total = pos 10000; last_execution = some 2000000 };
  chain = 5000;
  events = Event.swap_executed "keeper" (pos 1) (pos 10000) (pos 5000) ∷ [];
}

seed-fresh : seed foreign owner args 0 ≡ ok fresh
unfolding seed
seed-fresh = refl

perform-running : perform foreign owner (paused_call false) fresh ≡ ok running
unfolding set_paused check_pause
perform-running = refl

execute_swap-swapped :
    execute_swap foreign keeper (pos 10000) (pos 4950) 5000000 running ≡ ok (pos 5000, swapped)
unfolding execute_swap check_swap trade plus_seconds check_quote ◌-ℤ◌ ◌+ℤ◌
execute_swap-swapped = refl

perform-swapped :
    perform foreign keeper (swap_call (pos 10000) (pos 4950) 5000000) running ≡ ok swapped
unfolding execute_swap check_swap trade plus_seconds check_quote ◌-ℤ◌ ◌+ℤ◌
perform-swapped = refl

fixed-AddsUp : AddsUp fixed
fixed-AddsUp a b p q = omega (arith, +ℤ_parts)

Reachable-IsWithinBudget_example : IsWithinBudget swapped.vault
Reachable-IsWithinBudget_example = Reachable-IsWithinBudget foreign swapped fixed-AddsUp (
    performed keeper (swap_call (pos 10000) (pos 4950) 5000000) running swapped
      (performed owner (paused_call false) fresh running (seeded_at owner args 0 fresh seed-fresh)
        perform-running)
      perform-swapped)

execute_swap-IsAllowed_example :
    IsAllowed foreign keeper (pos 10000) (pos 4950) 5000000 running.vault
    × IsQuoted foreign keeper (pos 10000) (pos 4950) running.vault running.chain
    × (pos 4950 ≤ℤ pos 5000)
    × (swapped.vault ≡ record running.vault {
      spent_total = fixed.add running.vault.spent_total (pos 10000);
      last_execution = some 2000000;
    })
execute_swap-IsAllowed_example =
    execute_swap-IsAllowed foreign keeper (pos 10000) (pos 4950) 5000000 running swapped (pos 5000)
      execute_swap-swapped

perform-IsNoLooser_example : IsNoLooser running.vault swapped.vault
perform-IsNoLooser_example =
    perform-IsNoLooser foreign keeper (swap_call (pos 10000) (pos 4950) 5000000) running swapped
      perform-swapped

perform-resumed_example : IsOwner owner fresh.vault
perform-resumed_example =
    perform-resumed foreign owner (paused_call false) fresh running perform-running refl refl
