-- ===== src/Bootstrap/Vault/Reused.antt =====
-- An existing vault is used only if it is the reviewed one (scripts/bootstrap_strategy_vault.py).
use xian_dex_automation.Base.{
  String, Bool, List, Option, none, some, ◌≡◌, ◌⊎◌, inl, inr, arith, eq_iff,
}
use xian_dex_automation.Decimal.{Decimal, Context}
use xian_dex_automation.Outcome.{Outcome, ok, Outcome-cases}
use xian_dex_automation.Config.{StrategyVaultConfig}
use xian_dex_automation.Bootstrap.{Arguments, Strategy, Place, Outside, Script, ◌>>=◌}
use xian_dex_automation.Bootstrap.Reuse.{
  canonical_source_digest, verify_reusable_source, assert_existing_strategy,
}
use xian_dex_automation.Bootstrap.Reuse.Reports.{Reports, assert_existing_strategy-Reports}
use xian_dex_automation.Bootstrap.Vault.{
  Entry, open_vault, obtain_vault, obtain, reuse_vault, deposit_and_resume,
}

-- The two sources have the same digest.
abbrev pub SameDigest : Outside → String → String → String → Type 0
SameDigest o name existing reviewed =
    (digest : String) × (canonical_source_digest o.canonical o.sha256 name existing ≡ ok digest)
    × (canonical_source_digest o.canonical o.sha256 name reviewed ≡ ok digest)

verify_reusable_source-SameDigest :
    (o : Outside) (name existing reviewed : String)
    → verify_reusable_source o.canonical o.sha256 name existing reviewed ≡ ok tt
    → SameDigest o name existing reviewed
unfolding verify_reusable_source
verify_reusable_source-SameDigest o name existing reviewed h =
    elim (Outcome-cases (canonical_source_digest o.canonical o.sha256 name existing)) [
      | inl (d, e) ↦
          elim (Outcome-cases (canonical_source_digest o.canonical o.sha256 name reviewed)) [
            | inl (d', e') ↦ (d, e, ground (arith, eq_iff d d'))
            | inr (inl e') ↦ ground arith
            | inr (inr (x, e')) ↦ ground arith
          ]
      | inr (inl e) ↦ ground arith
      | inr (inr (x, e)) ↦ ground arith
    ]

-- Either there is no contract of the name, or its source is the reviewed one and it reports the
-- strategy.
abbrev pub IsReviewed :
    Context
    → (String → Outcome Decimal)
    → Outside
    → Arguments
    → StrategyVaultConfig
    → String
    → Place
    → Option String
    → Type 0
IsReviewed c to_decimal o a strategy reviewed s none = Unit {0}
IsReviewed c to_decimal o a strategy reviewed s (some existing) =
    SameDigest o a.contract_name existing reviewed
    × (status : Strategy) × (o.get_strategy s a.contract_name ≡ ok status)
    × Reports c to_decimal status strategy

module _ (c : Context) (to_decimal : String → Outcome Decimal) (o : Outside) (a : Arguments)
    (strategy : StrategyVaultConfig) (reviewed : String) (s : Place) where
  abbrev Ends : Option String → Place → Type 0
  Ends existing t = (t.writes ≡ s.writes) ⊎ IsReviewed c to_decimal o a strategy reviewed s existing

  -- What follows a step that has not returned is not run.
  reuse_vault-Ends :
      {B : Type 0} (existing : String) (f : List Entry × Bool → Script B)
      → Ends (some existing) ((reuse_vault c to_decimal o a strategy existing reviewed >>= f) s).1
  unfolding reuse_vault ◌>>=◌
  reuse_vault-Ends existing f =
      elim (Outcome-cases
        (verify_reusable_source o.canonical o.sha256 a.contract_name existing reviewed)) [
          | inl (_, e) ↦ elim (Outcome-cases (o.get_strategy s a.contract_name)) [
            | inl (status, e') ↦
                elim (Outcome-cases (assert_existing_strategy c to_decimal status strategy)) [
                  | inl (_, e'') ↦ inr (
                    verify_reusable_source-SameDigest o a.contract_name existing reviewed e,
                    status,
                    e',
                    assert_existing_strategy-Reports c to_decimal status strategy e'',
                  )
                  | inr (inl e'') ↦ inl (ground arith)
                  | inr (inr (x, e'')) ↦ inl (ground arith)
                ]
            | inr (inl e') ↦ inl (ground arith)
            | inr (inr (x, e')) ↦ inl (ground arith)
          ]
          | inr (inl e) ↦ inl (ground arith)
          | inr (inr (x, e)) ↦ inl (ground arith)
        ]

-- Whatever the outside answers, if the owner's session attempts any write, then the chain has
-- answered whether the named contract exists, and if it does, the source and the reviewed source
-- have the same digest, and the vault reports the keeper, pair, tokens and limits of the strategy.
pub open_vault-IsReviewed :
    (c : Context) (to_decimal : String → Outcome Decimal) (o : Outside) (a : Arguments)
    (strategy : StrategyVaultConfig) (reviewed : String) (s : Place)
    → let t = (open_vault c to_decimal o a strategy reviewed s).1 in
      (t.writes ≡ s.writes)
      ⊎ ((existing : Option String) × (o.get_contract_source s a.contract_name ≡ ok existing)
          × IsReviewed c to_decimal o a strategy reviewed s existing)
unfolding open_vault obtain_vault obtain ◌>>=◌
open_vault-IsReviewed c to_decimal o a strategy reviewed s =
    elim (Outcome-cases (o.get_contract_source s a.contract_name)) [
      | inl (none, e) ↦ inr (none, e, tt)
      | inl (some existing, e) ↦
          elim (reuse_vault-Ends c to_decimal o a strategy reviewed s existing
            (deposit_and_resume c to_decimal o a)) [
              | inl h ↦ inl (ground (arith, h))
              | inr h ↦ inr (some existing, e, h)
            ]
      | inr (inl e) ↦ inl (ground arith)
      | inr (inr (x, e)) ↦ inl (ground arith)
    ]
