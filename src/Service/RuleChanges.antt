-- ===== src/Service/RuleChanges.antt =====
-- What the changes of the rules and of the wallet's key have done when they are answered
-- (service.py).
use xian_dex_automation.Base.{
  ℕ, String, Bool, true, false, Option, none, some, List, [], All, str_eq, ◌≡◌, ◌≢◌, refl, sym, ap,
  ◌∙◌, subst, if◌then◌else◌, lookup,
}
use xian_dex_automation.Outcome.{Outcome, ok}
use xian_dex_automation.Config.{AutomationConfig, RuleConfig}
use xian_dex_automation.Config.Paths.{normalize_config_paths}
use xian_dex_automation.Runtime.{Call, Platform}
use xian_dex_automation.Service.{Host, Server, Serving, looks, ◌>>=◌}
use xian_dex_automation.Service.Changes.{current_config, persist_config, validated_update}
use xian_dex_automation.Service.Wallet.{persist_wallet_key, wallet_with_key}
use xian_dex_automation.Service.Routes.{
  Reply, waiting, once_saved, upsert_rule, remove_rule, manage_key, upserted, without_rule, by_id,
}
use xian_dex_automation.Service.Replies.{
  Replies, Replies-looks, Replies-weak, Replies-from, Replies-given, Replies-bind, IsSaved,
  IsOrderly, persist_config-Saved, validated_update-Normalized,
}
use xian_dex_automation.Service.Effects.{
  Steady, give-Steady, looks-Steady, wallet_reply-Steady, persist-Replies, once_saved-Replies,
}
use xian_dex_automation.Service.RuleLists.{
  lookup-upserted, lookup-without_rule, without_rule-absent,
}

module _ (p : Platform) (host : Host) (rounds : ℕ) where
  -- The active configuration is this one, with its paths made absolute.
  abbrev IsActive : AutomationConfig → Server → Type 0
  IsActive candidate s =
      (path : String) × (current_config s ≡ normalize_config_paths host.paths path candidate)

  -- A changed copy of the configuration that is validated, persisted and answered.
  change-Replies :
      (candidate : AutomationConfig) (after : Option (List Call → Outcome (Unit {0})))
      (m : Serving Reply)
      → ((new : AutomationConfig) → Steady (IsSaved new) m)
      → Replies IsOrderly
          (λ r s. r ≢ waiting → IsActive candidate s)
          (validated_update p host candidate >>= λ new.
            persist_config p host rounds new after >>= λ b. once_saved b m)
  change-Replies candidate after m k =
      Replies-bind _ _ _ _ (validated_update-Normalized p host candidate) (λ new.
        Replies-given _ _ _ (λ (path, c, normal).
          Replies-weak _ _ _ (persist-Replies p host rounds new after m (k new))
            (λ r s saved n. (path, (saved n).current ∙ normal))))

  -- What follows the reading of the configuration.
  reading-Replies :
      {A : Type 0} (k : AutomationConfig → Serving A) (R : AutomationConfig → A → Server → Type 0)
      (c : AutomationConfig)
      → ((c : AutomationConfig) → Replies IsOrderly (R c) (k c))
      → Replies (λ s. IsOrderly s × (current_config s ≡ c)) (R c) (looks current_config >>= k)
  reading-Replies k R c h =
      Replies-bind (λ c' s. (IsOrderly s × (current_config s ≡ c)) × (current_config s ≡ c')) _ _ _
        (Replies-looks current_config)
        (λ c'.
          Replies-from (λ s. IsOrderly s × (c' ≡ c)) _ _ (λ s k. (k.0.0, sym k.1 ∙ k.0.1))
            (Replies-given _ _ _ (λ same. subst (λ x. Replies IsOrderly (R x) (k c')) same (h c'))))

  upsert_rule-Replies :
      (rule_id : String) (rule : RuleConfig) (c : AutomationConfig)
      → Replies
          (λ s. IsOrderly s × (current_config s ≡ c))
          (λ r s. r ≢ waiting → IsActive (record c { rules = upserted rule_id rule c.rules }) s)
          (upsert_rule p host rounds rule_id rule)
  unfolding upsert_rule
  upsert_rule-Replies rule_id rule c =
      Replies-bind (λ _ s. IsOrderly s × (current_config s ≡ c)) _ _ _ (give-Steady _ _)
        (λ _.
          reading-Replies _
            (λ c r s. r ≢ waiting → IsActive (record c { rules = upserted rule_id rule c.rules }) s)
            c (λ c. change-Replies _ none _ (λ new. give-Steady _ _)))

  remove_rule-Replies :
      (rule_id : String) (c : AutomationConfig)
      → Replies
          (λ s. IsOrderly s × (current_config s ≡ c))
          (λ r s. r ≢ waiting → IsActive (record c { rules = without_rule rule_id c.rules }) s)
          (remove_rule p host rounds rule_id)
  unfolding remove_rule
  remove_rule-Replies rule_id c =
      reading-Replies _
        (λ c r s. r ≢ waiting → IsActive (record c { rules = without_rule rule_id c.rules }) s) c
        (λ c.
          Replies-bind (λ _. IsOrderly) _ _ _ (give-Steady _ _)
            (λ _. change-Replies _ none _ (λ new. give-Steady _ _)))

  -- The wallet names a key file, and does not execute.
  abbrev IsKeyed : AutomationConfig → Server → Type 0
  IsKeyed c s =
      (path : String) × IsActive (record c { wallet = wallet_with_key p host c.wallet path }) s

  persist_wallet_key-Replies :
      (key : String) (overwrite : Bool) (c : AutomationConfig)
      → Replies
          (λ s. IsOrderly s × (current_config s ≡ c))
          (λ b s. b ≡ true → IsKeyed c s)
          (persist_wallet_key p host rounds key overwrite)
  unfolding persist_wallet_key
  persist_wallet_key-Replies key overwrite c =
      Replies-bind (λ _ s. IsOrderly s × (current_config s ≡ c)) _ _ _ (give-Steady _ _)
        (λ _.
          reading-Replies _ (λ c b s. b ≡ true → IsKeyed c s) c
            (λ c.
              Replies-bind (λ _. IsOrderly) _ _ _ (give-Steady _ _)
                (λ path.
                  Replies-bind (λ _. IsOrderly) _ _ _ (looks-Steady _ _)
                    (λ there.
                      Replies-bind (λ _. IsOrderly) _ _ _ (give-Steady _ _)
                        (λ _. Replies-bind _ _ _ _ (validated_update-Normalized p host _) (λ new.
                          Replies-given _ _ _ (λ (at, found, normal).
                            Replies-weak _ _ _ (persist_config-Saved p host rounds new _)
                              (λ b s saved yes. (path, (at, (saved yes).current ∙ normal))))))))))

  manage_key-Replies :
      (key : Outcome String) (overwrite : Bool) (c : AutomationConfig)
      → Replies
          (λ s. IsOrderly s × (current_config s ≡ c))
          (λ r s. r ≢ waiting → IsKeyed c s)
          (manage_key p host rounds key overwrite)
  unfolding manage_key
  manage_key-Replies key overwrite c =
      Replies-bind (λ _ s. IsOrderly s × (current_config s ≡ c)) _ _ _ (give-Steady _ _)
        (λ k. Replies-bind _ _ _ _ (persist_wallet_key-Replies k overwrite c) (λ b.
          once_saved-Replies p host rounds (IsKeyed c) b _ (wallet_reply-Steady p host rounds _)))

-- The second configuration does not execute, and has the rules, the custody and the network of the
-- first.
abbrev pub IsDisabled : AutomationConfig → AutomationConfig → Type 0
IsDisabled before c =
    (c.wallet.execute ≡ false)
    × (c.rules ≡ before.rules)
    × (c.custody ≡ before.custody)
    × (c.network ≡ before.network)

module _ (p : Platform) (host : Host) (rounds : ℕ) (s : Server) (r : Reply) where
  -- If the store is orderly and `PUT /rules/{rule_id}` is answered, other than by running out of
  -- rounds of `update`, with a rule of this id, then in the configuration that is then active the
  -- rule stands under its id, and under every other id the rule that stood there before, if any.
  pub upsert_rule-lookup :
      (rule_id j : String) (rule : RuleConfig)
      → IsOrderly s
      → rule.id ≡ rule_id
      → (upsert_rule p host rounds rule_id rule s).0 ≡ ok r
      → r ≢ waiting
      → lookup j (by_id [] (current_config (upsert_rule p host rounds rule_id rule s).1).rules)
        ≡ (if str_eq rule_id j then some rule else lookup j (by_id [] (current_config s).rules))
  unfolding normalize_config_paths
  upsert_rule-lookup rule_id j rule h same e n =
      let (path, active) =
        (upsert_rule-Replies p host rounds rule_id rule (current_config s)).at s (h, refl) r e n in
      ap (λ c. lookup j (by_id [] c.rules)) active
      ∙ lookup-upserted j rule_id rule (current_config s).rules same

  -- If the store is orderly and `DELETE /rules/{rule_id}` is answered, other than by running out of
  -- rounds of `update`, then in the configuration that is then active no rule has the id, and under
  -- every other id stands the rule that stood there before, if any.
  pub remove_rule-lookup :
      (rule_id j : String)
      → rule_id ≢ j
      → IsOrderly s
      → (remove_rule p host rounds rule_id s).0 ≡ ok r
      → r ≢ waiting
      → All
          (λ (x : RuleConfig). x.id ≢ rule_id)
          (current_config (remove_rule p host rounds rule_id s).1).rules
        × (lookup j (by_id [] (current_config (remove_rule p host rounds rule_id s).1).rules)
            ≡ lookup j (by_id [] (current_config s).rules))
  unfolding normalize_config_paths
  remove_rule-lookup rule_id j ne h e n =
      let (path, active) =
        (remove_rule-Replies p host rounds rule_id (current_config s)).at s (h, refl) r e n in
      (
        subst (λ c. All (λ (x : RuleConfig). x.id ≢ rule_id) c.rules) (sym active)
            (without_rule-absent rule_id (current_config s).rules),
        ap (λ c. lookup j (by_id [] c.rules)) active
            ∙ lookup-without_rule j rule_id (current_config s).rules ne,
      )

  -- If the store is orderly and a request to generate or to import a key is answered, other than by
  -- running out of rounds of `update`, then in the configuration that is then active
  -- `wallet.execute` is off, and the rules, the custody and the network are those from before.
  pub manage_key-execute :
      (key : Outcome String) (overwrite : Bool)
      → IsOrderly s
      → (manage_key p host rounds key overwrite s).0 ≡ ok r
      → r ≢ waiting
      → IsDisabled (current_config s) (current_config (manage_key p host rounds key overwrite s).1)
  unfolding normalize_config_paths wallet_with_key
  manage_key-execute key overwrite h e n =
      let (path, (at, active)) =
        (manage_key-Replies p host rounds key overwrite (current_config s)).at s (h, refl) r e n in
      (
        ap (λ c. c.wallet.execute) active,
        ap (λ c. c.rules) active,
        ap (λ c. c.custody) active,
        ap (λ c. c.network) active,
      )
