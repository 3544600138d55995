-- ===== src/DexClient/Silence.antt =====
-- What the calls of the client keep, signing included (dex.py).
use xian_dex_automation.Base.{ℕ, String, Option, none, some}
use xian_dex_automation.Decimal.{Decimal}
use xian_dex_automation.Time.{Instant}
use xian_dex_automation.Config.{
  AutomationConfig, SwapExactInActionConfig, StrategyVaultConfig, CustodyMode, strategy_vault,
  direct_wallet,
}
use xian_dex_automation.Dex.{PairSnapshot}
use xian_dex_automation.Planning.{Client}
use xian_dex_automation.Runtime.{World, Platform, Plan, Attempt, worked}
use xian_dex_automation.Runtime.Keeps.{Keeps, keeps_rules, Keeps-Silent, IsQuiet}
use xian_dex_automation.DexClient.{
  enter, get_pair_snapshot, quote_exact_in, transaction_deadline, base_or_now, vault_call,
  direct_call, call_in_mode, build_swap_exact_in_call, prepare_call_plan, prepare_swap,
}

module _ {P : World → Type 0} (q : IsQuiet P) (p : Platform) where
  pub enter-Keeps : (c : AutomationConfig) → Keeps P (enter p c)
  unfolding enter
  enter-Keeps c = search (keeps_rules, Keeps-Silent q, tt)

  pub get_pair_snapshot-Keeps : (n : ℕ) → Keeps P (get_pair_snapshot p n)
  unfolding get_pair_snapshot
  get_pair_snapshot-Keeps n = search (keeps_rules, Keeps-Silent q, tt) depth 9

  pub quote_exact_in-Keeps :
      (client : Client) (s : PairSnapshot) (src : String) (a : Decimal)
      → Keeps P (quote_exact_in p client s src a)
  unfolding quote_exact_in
  quote_exact_in-Keeps client s src a = search (keeps_rules, Keeps-Silent q, tt)

  base_or_now-Keeps : (t : Attempt (Option Instant)) → Keeps P (base_or_now p t)
  unfolding base_or_now
  base_or_now-Keeps (worked (some t)) = search keeps_rules
  base_or_now-Keeps _ = search (keeps_rules, Keeps-Silent q, tt)

  transaction_deadline-Keeps : (n : ℕ) → Keeps P (transaction_deadline p n)
  unfolding transaction_deadline
  transaction_deadline-Keeps n = search (keeps_rules, Keeps-Silent q, tt, base_or_now-Keeps)

  vault_call-Keeps :
      (v : Option StrategyVaultConfig) (s : PairSnapshot) (a : SwapExactInActionConfig)
      (m : Decimal)
      → Keeps P (vault_call p v s a m)
  unfolding vault_call
  vault_call-Keeps none s a m = search keeps_rules
  vault_call-Keeps (some v) s a m = search (keeps_rules, transaction_deadline-Keeps)

  direct_call-Keeps :
      (c : AutomationConfig) (r : Option String) (s : PairSnapshot) (a : SwapExactInActionConfig)
      (m : Decimal)
      → Keeps P (direct_call p c r s a m)
  unfolding direct_call
  direct_call-Keeps c none s a m = search keeps_rules
  direct_call-Keeps c (some r) s a m = search (keeps_rules, transaction_deadline-Keeps)

  call_in_mode-Keeps :
      (mode : CustodyMode) (client : Client) (s : PairSnapshot) (a : SwapExactInActionConfig)
      (m : Decimal)
      → Keeps P (call_in_mode p mode client s a m)
  unfolding call_in_mode
  call_in_mode-Keeps strategy_vault client s a m =
      vault_call-Keeps client.config.custody.vault s a m
  call_in_mode-Keeps direct_wallet client s a m = direct_call-Keeps client.config _ s a m

  build_swap_exact_in_call-Keeps :
      (client : Client) (s : PairSnapshot) (a : SwapExactInActionConfig) (m : Decimal)
      → Keeps P (build_swap_exact_in_call p client s a m)
  unfolding build_swap_exact_in_call
  build_swap_exact_in_call-Keeps client s a m = call_in_mode-Keeps _ client s a m

  prepare_call_plan-Keeps :
      (client : Client) (plan : Plan) → Keeps P (prepare_call_plan p client plan)
  unfolding prepare_call_plan
  prepare_call_plan-Keeps client plan = search (keeps_rules, Keeps-Silent q) depth 9

  pub prepare_swap-Keeps :
      (client : Client) (s : PairSnapshot) (a : SwapExactInActionConfig) (m : Decimal)
      → Keeps P (prepare_swap p client s a m)
  unfolding prepare_swap
  prepare_swap-Keeps client s a m =
      search (keeps_rules, build_swap_exact_in_call-Keeps, prepare_call_plan-Keeps)
