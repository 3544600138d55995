-- ===== src/Rules/Price.antt =====
-- What the threshold test means for prices, for any sound rounding of the arithmetic.
use xian_dex_automation.Base.{
  ℕ, ◌<◌, ◌≡◌, ◌↔◌, ◌⊎◌, inl, inr, true, false, some, arith, ap, Bool-cases,
}
use xian_dex_automation.Base.Int.{pos, negsuc, ◌<ℤ◌, ◌≤ℤ◌}
use xian_dex_automation.Decimal.{Decimal, Context, IsSound, of_int}
use xian_dex_automation.Outcome.{ok}
use xian_dex_automation.Time.{Instant}
use xian_dex_automation.Config.{RuleConfig, Direction, up, down, either}
use xian_dex_automation.Dex.{PairSnapshot, price}
use xian_dex_automation.Rules.{
  RuleRuntimeState, RuleDecision, threshold_reached, change_in_bps, evaluate_price_move,
}
use xian_dex_automation.Rules.Trigger.{evaluate_executed}

-- The direction `either` reaches its threshold exactly when `up` or `down` does.
pub either_iff :
    (c : Context) (change : Decimal) (bps : ℕ)
    → (threshold_reached c either change bps ≡ true)
      ↔ ((threshold_reached c up change bps ≡ true) ⊎ (threshold_reached c down change bps ≡ true))
unfolding threshold_reached
either_iff c (pos n) bps = ground arith
either_iff c (negsuc n) bps = ground arith

module _ (c : Context) (sound : IsSound c) where
  of_int_pos : (n : ℕ) → 0 < n → pos 0 <ℤ of_int c n
  of_int_pos n h = grind (arith, sound.one_pos)

  change_nonpos :
      (current baseline : Decimal)
      → pos 0 <ℤ baseline
      → current ≤ℤ baseline
      → change_in_bps c current baseline ≤ℤ pos 0
  unfolding change_in_bps
  change_nonpos current baseline p h =
      sound.mul_nonpos _ _ (sound.div_nonpos _ _ (sound.sub_nonpos _ _ h) p) (omega arith)

  change_nonneg :
      (current baseline : Decimal)
      → pos 0 <ℤ baseline
      → baseline ≤ℤ current
      → pos 0 ≤ℤ change_in_bps c current baseline
  unfolding change_in_bps
  change_nonneg current baseline p h =
      sound.mul_nonneg _ _ (sound.div_nonneg _ _ (sound.sub_nonneg _ _ h) p) (omega arith)

  change_self : (baseline : Decimal) → pos 0 <ℤ baseline → change_in_bps c baseline baseline ≡ pos 0
  unfolding change_in_bps
  change_self baseline p =
      cc (sound.sub_self baseline, sound.zero_div baseline p, sound.zero_mul (of_int c 10000))

  -- What an execution in a direction says of the two prices.
  abbrev pub Moved : Direction → Decimal → Decimal → Type 0
  Moved up current baseline = baseline <ℤ current
  Moved down current baseline = current <ℤ baseline
  Moved either current baseline = (baseline <ℤ current) ⊎ (current <ℤ baseline)

  reached-Moved :
      (dir : Direction) (current baseline : Decimal) (bps : ℕ)
      → pos 0 <ℤ baseline
      → 0 < bps
      → threshold_reached c dir (change_in_bps c current baseline) bps ≡ true
      → Moved dir current baseline
  unfolding threshold_reached
  reached-Moved up current baseline bps p b r =
      grind (arith, change_nonpos current baseline, of_int_pos bps)
  reached-Moved down current baseline bps p b r =
      grind (arith, change_nonneg current baseline, of_int_pos bps)
  reached-Moved either current baseline bps p b r =
      grind (arith, change_nonneg current baseline, change_nonpos current baseline, of_int_pos bps)

  Moved-irrefl :
      (dir : Direction) (current baseline : Decimal)
      → current ≡ baseline
      → ¬ Moved dir current baseline
  Moved-irrefl up current baseline e m = grind arith
  Moved-irrefl down current baseline e m = grind arith
  Moved-irrefl either current baseline e m = grind arith

  module _ (rule : RuleConfig) (snapshot : PairSnapshot) (state : RuleRuntimeState) (now : Instant)
      (threshold_pos : 0 < rule.trigger.threshold_bps) where
    -- With a positive threshold and sound rounding, an execution comes only after the price has
    -- moved from the baseline: strictly up for `up`, strictly down for `down`, either way for
    -- `either`. The decision's next baseline is the current price.
    pub executed-Moved :
        (d : RuleDecision)
        → evaluate_price_move c rule snapshot state now ≡ ok d
        → d.should_execute ≡ true
        → (current baseline : Decimal) × (price c snapshot ≡ some current)
          × (state.baseline_price ≡ some baseline)
          × Moved rule.trigger.direction current baseline
          × (d.next_baseline_price ≡ some current)
    executed-Moved d e x =
        let (current, baseline, (p, b, positive, reached, _), shape) =
          evaluate_executed c rule snapshot state now d e x in
        (
          current,
          baseline,
          p,
          b,
          reached-Moved rule.trigger.direction current baseline rule.trigger.threshold_bps positive
              threshold_pos reached,
          cc (ap (λ (r : RuleDecision). r.next_baseline_price) shape),
        )

    -- With a positive threshold and sound rounding, a decision at a price that equals the stored
    -- baseline, or where both are missing, is not to execute, whatever the time.
    pub evaluate_at_baseline :
        (d : RuleDecision)
        → state.baseline_price ≡ price c snapshot
        → evaluate_price_move c rule snapshot state now ≡ ok d
        → d.should_execute ≡ false
    evaluate_at_baseline d same e = elim (Bool-cases d.should_execute) [
      | inr quiet ↦ quiet
      | inl fires ↦
          let (current, baseline, p, b, moved, _) = executed-Moved d e fires in
          absurd (Moved-irrefl rule.trigger.direction current baseline (cc (p, same, b)) moved)
    ]
