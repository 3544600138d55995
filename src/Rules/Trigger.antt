-- ===== src/Rules/Trigger.antt =====
-- When a price-move rule executes, and what its decision carries.
use xian_dex_automation.Base.{
  ℕ, zero, suc, ◌+◌, ◌*◌, ◌≤◌, ◌<◌, ◌≡◌, refl, ◌↔◌, ◌⊎◌, inl, inr, true, false, Option, none, some,
  arith, Option-cases, Bool-cases,
}
use xian_dex_automation.Base.Int.{pos, negsuc, negate, ◌<ℤ◌, ◌≤ℤ◌, leb_ℤ}
use xian_dex_automation.Decimal.{Decimal, Context, of_int}
use xian_dex_automation.Outcome.{ok}
use xian_dex_automation.Time.{Instant, add_seconds, end_of_time}
use xian_dex_automation.Report.{price_move_threshold_reached}
use xian_dex_automation.Config.{RuleConfig, Direction, up, down, either}
use xian_dex_automation.Dex.{PairSnapshot, price}
use xian_dex_automation.Rules.{
  RuleRuntimeState, RuleDecision, threshold_reached, change_in_bps, cooling_down, decide_move,
  decide_baseline, evaluate_price_move,
}

-- The cooldown is over: there is none, or it ended at `now` or before.
abbrev pub IsCool : ℕ → Option Instant → Instant → Type 0
IsCool cooldown none now = Unit
IsCool zero (some last) now = Unit
IsCool (suc s) (some last) now =
    (last + suc s * 1000000 < end_of_time) × (last + suc s * 1000000 ≤ now)

cooling_down-IsCool :
    (cooldown : ℕ) (last : Option Instant) (now : Instant)
    → (cooling_down cooldown last now ≡ ok false) ↔ IsCool cooldown last now
unfolding cooling_down add_seconds
cooling_down-IsCool cooldown none now = ((λ _. tt), λ _. refl)
cooling_down-IsCool zero (some last) now = ((λ _. tt), λ _. refl)
cooling_down-IsCool (suc s) (some last) now = ground arith

-- The change is at least the threshold in the direction of a rule: upwards, downwards, or either.
abbrev pub Reaches : Direction → (change threshold : Decimal) → Type 0
Reaches up change threshold = threshold ≤ℤ change
Reaches down change threshold = change ≤ℤ negate threshold
Reaches either change threshold = (threshold ≤ℤ change) ⊎ (change ≤ℤ negate threshold)

threshold_reached_iff :
    (c : Context) (direction : Direction) (change : Decimal) (bps : ℕ)
    → (threshold_reached c direction change bps ≡ true) ↔ Reaches direction change (of_int c bps)
unfolding threshold_reached
threshold_reached_iff c up change bps = ground arith
threshold_reached_iff c down change bps = ground arith
threshold_reached_iff c either (pos n) bps = ground arith
threshold_reached_iff c either (negsuc n) bps = ground arith

price_iff :
    (c : Context) (snapshot : PairSnapshot) (current : Decimal)
    → (price c snapshot ≡ some current) ↔ (
        (pos 0 <ℤ snapshot.reserve0)
        × (pos 0 <ℤ snapshot.reserve1)
        × (current ≡ c.div snapshot.reserve1 snapshot.reserve0))
unfolding price
price_iff c snapshot current = (λ e. (ground arith, ground arith, ground arith), λ h. ground arith)

module _ (c : Context) (rule : RuleConfig) (snapshot : PairSnapshot) (state : RuleRuntimeState)
    (now : Instant) where
  -- The tests of the code that an execution passes.
  abbrev pub Passes : Decimal → Decimal → Type 0
  Passes current baseline =
      (price c snapshot ≡ some current)
      × (state.baseline_price ≡ some baseline)
      × (pos 0 <ℤ baseline)
      × (threshold_reached c rule.trigger.direction (change_in_bps c current baseline)
            rule.trigger.threshold_bps
          ≡ true)
      × IsCool rule.trigger.cooldown_seconds state.last_action_at now

  -- The decision of an execution.
  abbrev pub executing : Decimal → Decimal → RuleDecision
  executing current baseline = record {
    rule_id = rule.id;
    should_execute = true;
    reason = price_move_threshold_reached;
    current_price = some current;
    change_bps = some (change_in_bps c current baseline);
    next_baseline_price = some current;
  }

  evaluate_passed :
      (current baseline : Decimal)
      → Passes current baseline
      → evaluate_price_move c rule snapshot state now ≡ ok (executing current baseline)
  unfolding evaluate_price_move decide_baseline decide_move
  evaluate_passed current baseline (p, b, positive, reached, cool) =
      rw (p, b)
        (ground (
          arith,
          (cooling_down-IsCool rule.trigger.cooldown_seconds state.last_action_at now).1 cool,
        ))

  decide_move_executed :
      (current baseline : Decimal) (d : RuleDecision)
      → decide_move c rule current baseline state.last_action_at now ≡ ok d
      → d.should_execute ≡ true
      → (threshold_reached c rule.trigger.direction
            (change_in_bps c current baseline)
            rule.trigger.threshold_bps
          ≡ true)
        × IsCool rule.trigger.cooldown_seconds state.last_action_at now
        × (d ≡ executing current baseline)
  unfolding decide_move
  decide_move_executed current baseline d e x =
      ground (arith, cooling_down-IsCool rule.trigger.cooldown_seconds state.last_action_at now)

  pub evaluate_executed :
      (d : RuleDecision)
      → evaluate_price_move c rule snapshot state now ≡ ok d
      → d.should_execute ≡ true
      → (current baseline : Decimal) × Passes current baseline × (d ≡ executing current baseline)
  unfolding evaluate_price_move decide_baseline
  evaluate_executed d e x = elim (Option-cases (price c snapshot)) [
    | inl no_price ↦ ground arith
    | inr (current, p) ↦ elim (Option-cases state.baseline_price) [
      | inl no_baseline ↦ ground arith
      | inr (baseline, b) ↦ elim (Bool-cases (leb_ℤ baseline (pos 0))) [
        | inl invalid ↦ ground arith
        | inr valid ↦
            let (reached, cool, shape) = decide_move_executed current baseline d (ground arith) x in
            (current, baseline, (p, b, ground arith, reached, cool), shape)
      ]
    ]
  ]

  -- Everything that an execution needs, of the reserves, the stored state and the time.
  pub record CanExecute (current baseline : Decimal) : Type 0 where
    pub reserves : (pos 0 <ℤ snapshot.reserve0) × (pos 0 <ℤ snapshot.reserve1)
    pub quotient : current ≡ c.div snapshot.reserve1 snapshot.reserve0
    pub stored : state.baseline_price ≡ some baseline
    pub positive : pos 0 <ℤ baseline
    pub reaches :
        Reaches rule.trigger.direction
          (c.mul (c.div (c.sub current baseline) baseline) (of_int c 10000))
          (of_int c rule.trigger.threshold_bps)
    pub cool : IsCool rule.trigger.cooldown_seconds state.last_action_at now

  Passes-CanExecute :
      (current baseline : Decimal) → Passes current baseline ↔ CanExecute current baseline
  unfolding change_in_bps
  Passes-CanExecute current baseline = (
    λ (p, b, positive, reached, cool).
        let (r0, r1, q) = (price_iff c snapshot current).0 p in
        record {
          reserves = (r0, r1);
          quotient = q;
          stored = b;
          positive = positive;
          reaches = (threshold_reached_iff c rule.trigger.direction _ _).0 reached;
          cool = cool;
        },
    λ e. (
      (price_iff c snapshot current).1 (e.reserves.0, e.reserves.1, e.quotient),
      e.stored,
      e.positive,
      (threshold_reached_iff c rule.trigger.direction _ _).1 e.reaches,
      e.cool,
    ),
  )

  -- `evaluate_price_move` returns a decision to execute exactly when both reserves are positive and
  -- a baseline is stored and positive, the change from it to the price, reserve1 / reserve0, that is
  -- (price - baseline) / baseline * 10000, is at least the threshold (`up`), at most its negative
  -- (`down`), or one of the two (`either`), and the cooldown has no length, has no start, or ended
  -- by `now`.
  pub evaluate_price_move_iff :
      ((d : RuleDecision) × (evaluate_price_move c rule snapshot state now ≡ ok d)
        × (d.should_execute ≡ true))
      ↔ ((current : Decimal) × (baseline : Decimal) × CanExecute current baseline)
  evaluate_price_move_iff = (
    (λ (d, e, x).
        let (current, baseline, passes, _) = evaluate_executed d e x in
        (current, baseline, (Passes-CanExecute current baseline).0 passes)),
    λ (current, baseline, can). (
      executing current baseline,
      evaluate_passed current baseline ((Passes-CanExecute current baseline).1 can),
      refl,
    ),
  )
