-- ===== src/Bootstrap/Funding/Enough.antt =====
-- The keeper's gas is enough (scripts/bootstrap_strategy_vault.py, `_required_keeper_currency` and
-- the funding in `main`).
use xian_dex_automation.Base.{
  ℕ, zero, suc, ◌+◌, ◌-◌, ◌*◌, ◌/◌, ◌≤◌, ◌<◌, String, ◌∷◌, Option, is_some, ◌≡◌, ◌⊎◌, inl, inr,
  refl, ap, arith, if◌then◌else◌,
}
use xian_dex_automation.Base.Int.{ℤ, pos, negsuc, ltb_ℤ, ◌≤ℤ◌}
use xian_dex_automation.Decimal.{Decimal, Context, of_int}
use xian_dex_automation.Outcome.{ok, raised, Exn}
use xian_dex_automation.Runtime.{Platform}
use xian_dex_automation.Bootstrap.{
  Arguments, Place, Outside, transfer, query, lift, pure, bootstrap_error, ◌>>=◌,
}
use xian_dex_automation.Bootstrap.Returns.{>>=-ok}
use xian_dex_automation.Bootstrap.Setup.{Confirmation}
use xian_dex_automation.Bootstrap.Vault.{balance_value, confirmed}
use xian_dex_automation.Bootstrap.Funding.{
  KeeperExercisePlan, Funding, required_keeper_currency, ceiling, fund_keeper, top_up_keeper,
  send_top_up, larger,
}

-- The quotient rounded up, for a positive divisor.
ceiling_bounds :
    (n d : ℕ)
    → (n ≤ (n + suc d - 1) / suc d * suc d) × ((n + suc d - 1) / suc d * suc d < n + suc d)
ceiling_bounds n d = grind arith

-- `_required_keeper_currency` raises where the estimate or the price is not positive; and else it
-- returns the least whole amount of currency that buys the estimated chi at this price.
pub required_keeper_currency-bounds :
    (c : Context) (supplied cost : ℤ)
    → (((supplied ≤ℤ pos 0) ⊎ (cost ≤ℤ pos 0))
        × (x : Exn) × (required_keeper_currency c supplied cost ≡ raised x))
      ⊎ ((n m k : ℕ) × (supplied ≡ pos (suc n))
          × (cost ≡ pos (suc m))
          × (required_keeper_currency c supplied cost ≡ ok (of_int c k))
          × (suc n ≤ k * suc m)
          × (k * suc m < suc n + suc m))
unfolding required_keeper_currency ceiling
required_keeper_currency-bounds c (pos (suc n)) (pos (suc m)) =
    let (enough, least) = ceiling_bounds (suc n) m in
    inr (n, m, (suc n + suc m - 1) / suc m, refl, refl, ground arith, enough, least)
required_keeper_currency-bounds c (pos zero) cost =
    inl (inl (omega arith), bootstrap_error "keeper chi estimate must be positive", ground arith)
required_keeper_currency-bounds c (negsuc n) cost =
    inl (inl (omega arith), bootstrap_error "keeper chi estimate must be positive", ground arith)
required_keeper_currency-bounds c (pos (suc n)) (pos zero) =
    inl (inr (omega arith), bootstrap_error "chi_cost.current_value must be positive", ground arith)
required_keeper_currency-bounds c (pos (suc n)) (negsuc m) =
    inl (inr (omega arith), bootstrap_error "chi_cost.current_value must be positive", ground arith)

module _ (p : Platform) (o : Outside) (a : Arguments) (keeper : String) where
  top_up_keeper-writes :
      (top_up : Decimal) (s : Place) {r : Option Confirmation} {t : Place}
      → top_up_keeper p o keeper top_up s ≡ (ok r, t)
      → (t.writes ≡ (if ltb_ℤ (pos 0) top_up then transfer top_up keeper ∷ s.writes else s.writes))
        × (is_some r ≡ ltb_ℤ (pos 0) top_up)
  unfolding top_up_keeper send_top_up confirmed ◌>>=◌
  top_up_keeper-writes top_up s h = ground arith

-- Where the funding of the keeper ends well, its target is the larger of the floor that was given
-- and the currency that the plan requires, and the one write is a transfer to the keeper of what the
-- target exceeds the keeper's balance by, made exactly if that is positive.
pub fund_keeper-IsEnough :
    (p : Platform) (o : Outside) (a : Arguments) (keeper : String) (plan : KeeperExercisePlan)
    (s : Place) (f : Funding) (t : Place)
    → fund_keeper p o a keeper plan s ≡ (ok f, t)
    → (text : Option String) × (o.balance_of s "currency" keeper ≡ ok text)
      × (balance_value p.str.to_decimal text ≡ ok f.balance_before)
      × (a.keeper_gas_funding ≤ℤ f.target)
      × (plan.required_currency ≤ℤ f.target)
      × (f.top_up ≡ larger (pos 0) (o.sub f.target f.balance_before))
      × (t.writes
          ≡ (if ltb_ℤ (pos 0) f.top_up then transfer f.top_up keeper ∷ s.writes else s.writes))
      × (is_some f.submission ≡ ltb_ℤ (pos 0) f.top_up)
unfolding fund_keeper query lift pure
fund_keeper-IsEnough p o a keeper plan s f t h =
    let (text, h1, k1) = >>=-ok _ _ s h in
    let (balance, h2, k2) = >>=-ok _ _ _ k1 in
    let (submission, h3, k3) = >>=-ok _ _ _ k2 in
    let (writes, given) = top_up_keeper-writes p o a keeper _ _ h3 in
    let made = ap (λ r. r.0) k3 in
    (
      text,
      ap (λ r. r.0) h1,
      ground arith,
      ground arith,
      ground arith,
      ground arith,
      ground arith,
      ground arith,
    )
