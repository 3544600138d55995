-- ===== src/DexClient.antt =====
-- `DexClient` (src/xian_dex_automation/dex.py): reading a pair, quoting, planning and signing.
pub mod Silence
use xian_dex_automation.Base.{ℕ, String, not, Option, none, some, is_none}
use xian_dex_automation.Decimal.{Decimal}
use xian_dex_automation.Outcome.{ok, raised, dex_error, raise_if}
use xian_dex_automation.Time.{Instant}
use xian_dex_automation.Config.{
  AutomationConfig, StrategyVaultConfig, SwapExactInActionConfig, CustodyMode, direct_wallet,
  strategy_vault,
}
use xian_dex_automation.Dex.{PairSnapshot, reserves_for_src}
use xian_dex_automation.Submission.{PreparedSwap, make_swap}
use xian_dex_automation.Planning.{
  Client, xian_deadline, recipient_of, vault_checks, chain_allowed, unlock, make_snapshot,
  token_name, quote_amount,
}
use xian_dex_automation.Runtime.{
  Action, ask, pure, lift, attempt, Attempt, worked, ◌>>=◌, ◌>>◌, Request, Platform, StateValue,
  Plan,
}

module _ (p : Platform) where
  -- `__aenter__`.
  pub enter : AutomationConfig → Action Client
  unfolding unlock
  enter c = do
    client ← lift (unlock p c)
    ask (Request.connect c.network.rpc_url) (λ h. p.net.connect h c.network.rpc_url)
    pure client

  read_pair : ℕ → String → Action StateValue
  read_pair n key = ask (Request.pair_state n key) (λ h. p.net.pair_state h n key)

  pub get_pair_snapshot : ℕ → Action PairSnapshot
  unfolding read_pair make_snapshot token_name
  get_pair_snapshot n = do
    token0 ← read_pair n "token0"
    token1 ← read_pair n "token1"
    reserve0 ← read_pair n "reserve0"
    reserve1 ← read_pair n "reserve1"
    lift (make_snapshot p n (token_name p token0) (token_name p token1) reserve0 reserve1)

  pub quote_exact_in : Client → PairSnapshot → String → Decimal → Action Decimal
  unfolding quote_amount
  quote_exact_in client s src amount_in = do
    (reserve_in, reserve_out, _) ← lift (reserves_for_src s src)
    fee ←
        ask (Request.trade_fee client.wallet_address) (λ h. p.net.trade_fee h client.wallet_address)
    lift (quote_amount p reserve_in reserve_out amount_in fee)

  -- `base_time or datetime.now(UTC)`, where a failed status counts as no base time.
  base_or_now : Attempt (Option Instant) → Action Instant
  base_or_now (worked (some t)) = pure t
  base_or_now _ = ask Request.read_clock (λ h. ok (p.net.clock h))

  pub transaction_deadline : ℕ → Action Instant
  unfolding base_or_now xian_deadline
  transaction_deadline seconds = do
    status ← attempt (ask Request.node_status (λ h. p.net.node_status h))
    base ← base_or_now status
    lift (xian_deadline seconds base)

  vault_call :
      Option StrategyVaultConfig → PairSnapshot → SwapExactInActionConfig → Decimal → Action Plan
  unfolding vault_checks
  vault_call none s a amount_out_min = lift (raised (dex_error "strategy vault is not configured"))
  vault_call (some v) s a amount_out_min = do
    lift (vault_checks v s a)
    deadline ← transaction_deadline a.deadline_seconds
    pure (record {
      contract = v.contract;
      function = "execute_swap";
      amount_in = a.amount_in;
      amount_out_min = amount_out_min;
      deadline = deadline;
      pair = none;
      src = none;
      recipient = none;
    })

  direct_call :
      AutomationConfig
      → Option String
      → PairSnapshot
      → SwapExactInActionConfig
      → Decimal
      → Action Plan
  direct_call c none s a amount_out_min =
      lift (raised (dex_error "swap recipient is not configured"))
  direct_call c (some recipient) s a amount_out_min = do
    deadline ← transaction_deadline a.deadline_seconds
    pure (record {
      contract = c.dex.router_contract;
      function = "swapExactTokenForToken";
      amount_in = a.amount_in;
      amount_out_min = amount_out_min;
      deadline = deadline;
      pair = some s.pair_id;
      src = some a.src;
      recipient = some recipient;
    })

  call_in_mode :
      CustodyMode → Client → PairSnapshot → SwapExactInActionConfig → Decimal → Action Plan
  unfolding vault_call direct_call recipient_of
  call_in_mode strategy_vault client s a amount_out_min =
      vault_call client.config.custody.vault s a amount_out_min
  call_in_mode direct_wallet client s a amount_out_min =
      direct_call client.config
        (recipient_of a.recipient client.config.wallet.recipient client.wallet_address) s a
        amount_out_min

  pub build_swap_exact_in_call :
      Client → PairSnapshot → SwapExactInActionConfig → Decimal → Action Plan
  unfolding call_in_mode
  build_swap_exact_in_call client s a amount_out_min =
      call_in_mode client.config.custody.mode client s a amount_out_min

  pub prepare_call_plan : Client → Plan → Action PreparedSwap
  unfolding chain_allowed
  prepare_call_plan client plan = do
    let url = client.config.network.rpc_url
    lift (
        raise_if (is_none client.wallet_address)
          (dex_error "execution requires a configured signing wallet"))
    chain ← ask (Request.chain_id url) (λ h. p.net.chain_id h url)
    lift (
        raise_if (not (chain_allowed client.config.network.chain_id chain))
          (dex_error "RPC chain does not match the configured chain"))
    chi ← ask Request.estimate_chi (λ h. p.net.estimate_chi h plan)
    nonce ← ask Request.next_nonce (λ h. p.net.next_nonce h url)
    transaction ← lift (p.sign client.key chain plan nonce chi)
    lift (make_swap p.sdk url chain transaction)

  pub prepare_swap : Client → PairSnapshot → SwapExactInActionConfig → Decimal → Action PreparedSwap
  prepare_swap client s a amount_out_min = do
    plan ← build_swap_exact_in_call client s a amount_out_min
    prepare_call_plan client plan
