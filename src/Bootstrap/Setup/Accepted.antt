-- ===== src/Bootstrap/Setup/Accepted.antt =====
-- The configurations that the bootstrap script makes (scripts/bootstrap_strategy_vault.py) against
-- the validators of the service (src/xian_dex_automation/config.py) and the limits of the vault
-- (contracts/con_dex_strategy_vault.py).
use xian_dex_automation.Base.{
  Bool-cases, String, false, Option, none, some, [], ◌≡◌, refl, subst, arith, eq_iff, ◌≤◌, ◌<◌,
  str_eq, true, inl, inr,
}
use xian_dex_automation.Base.Int.{pos, ◌≤ℤ◌, ◌<ℤ◌}
use xian_dex_automation.Outcome.{ok, Outcome-cases}
use xian_dex_automation.Config.{AutomationConfig, StrategyVaultConfig, strategy_vault}
use xian_dex_automation.Config.Paths.{PathRules}
use xian_dex_automation.Config.Validation.{
  validate_vault, validate_config, validate_rules, validate_rule, validate_custody,
  validate_network, is_keeper_address, validate_trigger, validate_action,
}
use xian_dex_automation.Config.Validation.Scope.{validate_strategy_rules_iff}
use xian_dex_automation.Vault.{check_limits, tokens_match, Foreign, Sender, State}
use xian_dex_automation.Vault.Exports.{seed, seeded}
use xian_dex_automation.Bootstrap.Vault.{deploy_arguments}
use xian_dex_automation.Bootstrap.{Arguments}
use xian_dex_automation.Bootstrap.Setup.{strategy_config, service_config, vault_service}

-- What the validator of a strategy gives.
record IsSane (s : StrategyVaultConfig) : Type 0 where
  keeper : str_eq s.keeper_address "" ≡ false
  pair : 0 < s.pair_id
  source : str_eq s.src "" ≡ false
  differ : str_eq s.src s.token_out ≡ false
  size : pos 0 <ℤ s.max_trade_size
  budget : s.max_trade_size ≤ℤ s.total_spend_cap
  slippage : s.max_slippage_bps < 10000
  cooldown : s.cooldown_seconds ≤ 2592000
  deadline : 0 < s.max_deadline_seconds
  latest : s.max_deadline_seconds ≤ 3600

is_keeper_address-ne : (k : String) → is_keeper_address k ≡ true → str_eq k "" ≡ false
unfolding is_keeper_address
is_keeper_address-ne k h = elim (Bool-cases (str_eq k "")) [
  | inl e ↦
      let empty : k ≡ "" = ground (arith, eq_iff k "") in
      let accepted : is_keeper_address "" ≡ true =
        subst (λ t. is_keeper_address t ≡ true) empty h in
      cc
  | inr e ↦ e
]

validate_vault-IsSane : (s : StrategyVaultConfig) → validate_vault s ≡ ok tt → IsSane s
unfolding validate_vault
validate_vault-IsSane s h = ground (arith, is_keeper_address-ne s.keeper_address)

-- A strategy that was accepted has passed the validator, and stands for the arguments.
record StandsFor (a : Arguments) (keeper : String) (s : StrategyVaultConfig) : Type 0 where
  valid : validate_vault s ≡ ok tt
  holder : s.keeper_address ≡ keeper
  pair : a.pair_id ≡ pos s.pair_id
  source : a.src ≡ s.src
  target : a.token_out ≡ s.token_out
  size : a.max_trade_size ≡ s.max_trade_size
  budget : a.total_spend_cap ≡ s.total_spend_cap
  slippage : a.max_slippage_bps ≡ pos s.max_slippage_bps
  cooldown : a.cooldown_seconds ≡ pos s.cooldown_seconds
  deadline : a.max_deadline_seconds ≡ pos s.max_deadline_seconds

strategy_config-StandsFor :
    (a : Arguments) (keeper : String) (s : StrategyVaultConfig)
    → strategy_config a keeper ≡ ok s
    → StandsFor a keeper s
unfolding strategy_config
strategy_config-StandsFor a keeper s h = ground arith

pub service_config-execute :
    (paths : PathRules) (root : String) (a : Arguments) (url : String) (chain : Option String)
    (keeper : String) {c : AutomationConfig}
    → service_config paths root a url chain keeper ≡ ok c
    → c.wallet.execute ≡ false
unfolding service_config
service_config-execute paths root a url chain keeper h =
    elim (Outcome-cases (strategy_config a keeper)) [
      | inl (s, e) ↦
          elim (Outcome-cases (validate_config (vault_service paths root a url chain s))) [
            | inl (_, k) ↦ ground arith
            | inr (inl k) ↦ ground arith
            | inr (inr (x, k)) ↦ ground arith
          ]
      | inr (inl e) ↦ ground arith
      | inr (inr (x, e)) ↦ ground arith
    ]

-- A configuration over a sane strategy, with an exercise of a positive amount up to the trade size.
sane-validate_config :
    (paths : PathRules) (root : String) (a : Arguments) (url : String) (chain : Option String)
    (s : StrategyVaultConfig)
    → validate_vault s ≡ ok tt
    → a.src ≡ s.src
    → pos 0 <ℤ a.exercise_amount
    → a.exercise_amount ≤ℤ s.max_trade_size
    → validate_config (vault_service paths root a url chain s) ≡ ok tt
unfolding validate_config validate_network validate_custody validate_rules validate_rule
    validate_trigger validate_action vault_service
sane-validate_config paths root a url chain s h e positive small =
    let sane = validate_vault-IsSane s h in
    let scoped = (validate_strategy_rules_iff (vault_service paths root a url chain s)).1 (
      refl,
      (
        record {
          pair = refl;
          source = e;
          no_recipient = refl;
          size = small;
          slippage = omega arith;
          deadline = omega arith;
          cooldown = omega arith;
        },
        tt,
      ),
    ) in
    ground (arith, scoped)

-- A strategy that the script accepts, with an exercise amount that is positive and within the trade
-- size, gives a service configuration that the validators accept: it is in vault mode on this
-- strategy, with `wallet.execute` off and the keeper's file as the key's.
pub service_config-accepted :
    (paths : PathRules) (root : String) (a : Arguments) (url : String) (chain : Option String)
    (keeper : String) (s : StrategyVaultConfig)
    → strategy_config a keeper ≡ ok s
    → pos 0 <ℤ a.exercise_amount
    → a.exercise_amount ≤ℤ a.max_trade_size
    → (c : AutomationConfig) × (service_config paths root a url chain keeper ≡ ok c)
      × (validate_config c ≡ ok tt)
      × (c.custody.mode ≡ strategy_vault)
      × (c.custody.vault ≡ some s)
      × (c.wallet.execute ≡ false)
      × (c.wallet.private_key_file ≡ some (paths.resolve a.keeper_private_key_file))
unfolding service_config
service_config-accepted paths root a url chain keeper s h positive small =
    let stands = strategy_config-StandsFor a keeper s h in
    let accepted =
      sane-validate_config paths root a url chain s stands.valid stands.source positive
        (rw (← stands.size) small) in
    (vault_service paths root a url chain s, rw (h, accepted), accepted, refl, refl, refl, refl)

-- The contract of the vault accepts the limits of a strategy that the script accepts: no deployment
-- is refused for them.
pub strategy_config-check_limits :
    (a : Arguments) (keeper : String) (s : StrategyVaultConfig)
    → strategy_config a keeper ≡ ok s
    → check_limits (deploy_arguments a keeper) ≡ ok tt
unfolding check_limits deploy_arguments
strategy_config-check_limits a keeper s h =
    let stands = strategy_config-StandsFor a keeper s h in
    let sane = validate_vault-IsSane s stands.valid in
    ground (arith, eq_iff a.token_out a.src, eq_iff s.src s.token_out)

-- With the limits of a strategy that the script accepts, `seed` deploys the vault whenever the pair
-- holds the two tokens: the vault starts paused, its owner is the sender, its keeper the script's
-- keeper, it has spent nothing, and its limits are the arguments'.
pub deploy_arguments-seed :
    {W : Type 0} (f : Foreign W) (sender : Sender) (chain : W) (a : Arguments) (keeper : String)
    (s : StrategyVaultConfig)
    → strategy_config a keeper ≡ ok s
    → tokens_match a.src a.token_out
        (f.pairs chain a.pair_id "token0")
        (f.pairs chain a.pair_id "token1")
      ≡ ok tt
    → (t : State W) × (seed f sender (deploy_arguments a keeper) chain ≡ ok t)
      × (t.chain ≡ chain)
      × (t.vault ≡ record (deploy_arguments a keeper) {
        owner = sender.caller;
        spent_total = pos 0;
        last_execution = none;
        paused = true;
      })
unfolding seed deploy_arguments
deploy_arguments-seed {W} f sender chain a keeper s h e =
    let t : State W = record {
      vault = seeded sender (deploy_arguments a keeper);
      chain = chain;
      events = [];
    } in
    (t, rw (strategy_config-check_limits a keeper s h, e), refl, refl)
