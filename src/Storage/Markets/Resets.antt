-- ===== src/Storage/Markets/Resets.antt =====
-- What a new configuration does to the rule states (storage.py, `_reset_changed_markets`).
use xian_dex_automation.Base.{
  ℕ, String, Bool, true, false, not, ◌&&◌, ◌||◌, ◌≡◌, refl, ap, sym, ◌∙◌, Option, none, some, arith,
  List, [], ◌∷◌, ◌++◌, str_eq, eq_iff, opt_eq_iff, ◌↔◌, lookup, map_values, map_found,
  lookup-map_values, Dict, if◌then◌else◌, Bool-cases, inl, inr, suc,
}
use xian_dex_automation.Outcome.{ok}
use xian_dex_automation.Config.{AutomationConfig}
use xian_dex_automation.Rules.{RuleRuntimeState}
use xian_dex_automation.Storage.Tables.{Database}
use xian_dex_automation.Storage.Markets.{
  save_active_config, get_rule_state, or_no_state, active_config, config_generation, market_changed,
  reset_rules, pairs_onto, keys, same_pair, config_or, generation_of, forget_rule, forget_baseline,
  reset_changed_markets,
}

-- The state that is left of a rule's.
abbrev forget_if : Bool → RuleRuntimeState → RuleRuntimeState
forget_if true s = forget_baseline s
forget_if false s = s

abbrev has : String → List String → Bool
has k [] = false
has k (j ∷ js) = str_eq j k || has k js

or_assoc : (a b c : Bool) → (a || (b || c)) ≡ ((a || b) || c)
or_assoc true b c = refl
or_assoc false b c = refl

has-append : (k : String) (xs ys : List String) → has k (xs ++ ys) ≡ (has k xs || has k ys)
has-append k [] ys = refl
has-append k (x ∷ xs) ys =
    ap (λ b. str_eq x k || b) (has-append k xs ys) ∙ or_assoc (str_eq x k) (has k xs) (has k ys)

lookup-keys : (k : String) (d : Dict ℕ) → has k (keys d) ≡ false → lookup k d ≡ none
unfolding lookup keys
lookup-keys k [] h = refl
lookup-keys k ((j, v) ∷ d) h = ground (arith, lookup-keys k d)

-- Whether the loop forgets the baseline of `k`.
abbrev forgets : Dict ℕ → Dict ℕ → List String → String → Bool
forgets old new ks k = has k ks && not (same_pair (lookup k old) (lookup k new))

map_found-keep : (o : Option RuleRuntimeState) → map_found (forget_if false) o ≡ o
map_found-keep none = refl
map_found-keep (some s) = refl

map_found-forget_rule :
    (j k : String) (o : Option RuleRuntimeState)
    → map_found (forget_rule j k) o ≡ map_found (forget_if (str_eq j k && true)) o
map_found-forget_rule j k none = refl
map_found-forget_rule j k (some s) = elim (Bool-cases (str_eq j k)) [
  | inl e ↦ rw (e) refl
  | inr e ↦ rw (e) refl
]

-- One round of the loop.
lookup-round :
    (k j : String) (same : Bool) (states : Dict RuleRuntimeState)
    → lookup k (if same then states else map_values (forget_rule j) states)
      ≡ map_found (forget_if (str_eq j k && not same)) (lookup k states)
lookup-round k j true states = elim (Bool-cases (str_eq j k)) [
  | inl e ↦ rw (e) (sym (map_found-keep (lookup k states)))
  | inr e ↦ rw (e) (sym (map_found-keep (lookup k states)))
]
lookup-round k j false states =
    lookup-map_values (forget_rule j) k states ∙ map_found-forget_rule j k (lookup k states)

-- Whether the pair of a rule is the same in either.
abbrev stays : Dict ℕ → Dict ℕ → String → Bool
stays old new k = same_pair (lookup k old) (lookup k new)

stays-of_equal :
    (old new : Dict ℕ) (j k : String)
    → (str_eq j k && not (stays old new j)) ≡ (str_eq j k && not (stays old new k))
stays-of_equal old new j k = elim (Bool-cases (str_eq j k)) [
  | inl e ↦ ap (λ i. str_eq j k && not (stays old new i)) ((eq_iff j k).0 e)
  | inr e ↦ rw (e) refl
]

map_found-forget_if :
    (a b : Bool) (o : Option RuleRuntimeState)
    → map_found (forget_if a) (map_found (forget_if b) o) ≡ map_found (forget_if (b || a)) o
map_found-forget_if a b none = refl
map_found-forget_if true true (some s) = refl
map_found-forget_if false true (some s) = refl
map_found-forget_if a false (some s) = refl

distributes : (a b c : Bool) → ((a && c) || (b && c)) ≡ ((a || b) && c)
distributes true true true = refl
distributes true false true = refl
distributes true true false = refl
distributes true false false = refl
distributes false b c = refl

lookup-reset_rules :
    (old new : Dict ℕ) (ks : List String) (k : String) (states : Dict RuleRuntimeState)
    → lookup k (reset_rules old new ks states)
      ≡ map_found (forget_if (forgets old new ks k)) (lookup k states)
unfolding reset_rules
lookup-reset_rules old new [] k states = sym (map_found-keep (lookup k states))
lookup-reset_rules old new (j ∷ js) k states =
    lookup-reset_rules old new js k _
    ∙ ap (map_found (forget_if (forgets old new js k))) (lookup-round k j (stays old new j) states)
    ∙ map_found-forget_if (forgets old new js k) _ (lookup k states)
    ∙ ap (λ b. map_found (forget_if (b || forgets old new js k)) (lookup k states))
        (stays-of_equal old new j k)
    ∙ ap (λ b. map_found (forget_if b) (lookup k states)) (distributes (str_eq j k) (has k js) _)

or_no_state-map_found :
    (b : Bool) (o : Option RuleRuntimeState)
    → or_no_state (map_found (forget_if b) o) ≡ forget_if b (or_no_state o)
or_no_state-map_found true none = refl
or_no_state-map_found false none = refl
or_no_state-map_found b (some s) = refl

false-or : (a b : Bool) → (a || b) ≡ false → (a ≡ false) × (b ≡ false)
false-or a b h = ground arith

-- The keys of either dictionary hold each key whose pair differs.
forgets-keys :
    (old new : Dict ℕ) (k : String)
    → forgets old new (keys old ++ keys new) k ≡ not (stays old new k)
forgets-keys old new k = elim (Bool-cases (has k (keys old ++ keys new))) [
  | inl h ↦ rw (h) refl
  | inr h ↦
      let (a, b) = false-or (has k (keys old)) _ (sym (has-append k (keys old) (keys new)) ∙ h) in
      rw (h, lookup-keys k old a, lookup-keys k new b) refl
]

abbrev pairs : AutomationConfig → Dict ℕ
pairs config = pairs_onto [] config.rules

get_rule_state-reset :
    (previous target : AutomationConfig) (db : Database) (k : String)
    → get_rule_state k (reset_changed_markets previous target db)
      ≡ forget_if
          (market_changed previous target || not (stays (pairs previous) (pairs target) k))
          (get_rule_state k db)
unfolding get_rule_state reset_changed_markets
get_rule_state-reset previous target db k = elim (Bool-cases (market_changed previous target)) [
  | inl e ↦ rw (e) (
      ap or_no_state (lookup-map_values (λ _. forget_baseline) k db.rule_state)
      ∙ or_no_state-map_found true (lookup k db.rule_state))
  | inr e ↦ rw (e) (
      ap or_no_state (lookup-reset_rules (pairs previous) (pairs target) _ k db.rule_state)
      ∙ or_no_state-map_found _ (lookup k db.rule_state)
      ∙ ap (λ b. forget_if b (or_no_state (lookup k db.rule_state)))
          (forgets-keys (pairs previous) (pairs target) k))
]

runtime_config-reset :
    (previous target : AutomationConfig) (db : Database)
    → (reset_changed_markets previous target db).runtime_config ≡ db.runtime_config
unfolding reset_changed_markets
runtime_config-reset previous target db = elim (Bool-cases (market_changed previous target)) [
  | inl e ↦ rw (e) refl
  | inr e ↦ rw (e) refl
]

-- Neither the network nor the contracts changed, and the rule `k` trades the same pair in both, or
-- stands in neither.
pub record IsSameMarket (previous config : AutomationConfig) (k : String) : Type 0 where
  pub rpc_url : previous.network.rpc_url ≡ config.network.rpc_url
  pub chain_id : previous.network.chain_id ≡ config.network.chain_id
  pub router_contract : previous.dex.router_contract ≡ config.dex.router_contract
  pub pairs_contract : previous.dex.pairs_contract ≡ config.dex.pairs_contract
  pub pair : lookup k (pairs previous) ≡ lookup k (pairs config)

same_pair_iff : (a b : Option ℕ) → (same_pair a b ≡ true) ↔ (a ≡ b)
same_pair_iff none none = (λ e. refl, λ e. refl)
same_pair_iff none (some b) = (λ e. ground arith, λ e. ground arith)
same_pair_iff (some a) none = (λ e. ground arith, λ e. ground arith)
same_pair_iff (some a) (some b) = (λ e. ground arith, λ e. ground arith)

-- The test of the code, and what it tests.
abbrev forgotten : AutomationConfig → AutomationConfig → String → Bool
forgotten previous config k =
    market_changed previous config || not (stays (pairs previous) (pairs config) k)

module _ (a b : AutomationConfig) (k : String) where
  forgotten-IsSameMarket : forgotten a b k ≡ false → IsSameMarket a b k
  unfolding market_changed
  forgotten-IsSameMarket h = record {
    rpc_url = ground (arith, eq_iff a.network.rpc_url b.network.rpc_url);
    chain_id = (opt_eq_iff a.network.chain_id b.network.chain_id).0 (ground arith);
    router_contract = ground (arith, eq_iff a.dex.router_contract b.dex.router_contract);
    pairs_contract = ground (arith, eq_iff a.dex.pairs_contract b.dex.pairs_contract);
    pair = (same_pair_iff (lookup k (pairs a)) (lookup k (pairs b))).0 (ground arith);
  }

  IsSameMarket-forgotten : IsSameMarket a b k → forgotten a b k ≡ false
  unfolding market_changed
  IsSameMarket-forgotten m =
      rw
        (
          (eq_iff a.network.rpc_url b.network.rpc_url).1 m.rpc_url,
          (opt_eq_iff a.network.chain_id b.network.chain_id).1 m.chain_id,
          (eq_iff a.dex.router_contract b.dex.router_contract).1 m.router_contract,
          (eq_iff a.dex.pairs_contract b.dex.pairs_contract).1 m.pairs_contract,
          (same_pair_iff (lookup k (pairs a)) (lookup k (pairs b))).1 m.pair,
        )
        refl

-- What becomes of the state of a rule: nothing where its market is the same, and else its baseline
-- is forgotten.
abbrev pub Forgets :
    AutomationConfig → AutomationConfig → String → (s s' : RuleRuntimeState) → Type 0
Forgets previous config k s s' =
    (IsSameMarket previous config k → s' ≡ s)
    × ((IsSameMarket previous config k → ⊥)
        → (s'.baseline_price ≡ none) × (s'.last_action_at ≡ s.last_action_at))

forget_if-Forgets :
    (a b : AutomationConfig) (k : String) (s s' : RuleRuntimeState)
    → s' ≡ forget_if (forgotten a b k) s
    → Forgets a b k s s'
forget_if-Forgets a b k s s' e = (
  λ same. e ∙ ap (λ x. forget_if x s) (IsSameMarket-forgotten a b k same),
  λ other. elim (Bool-cases (forgotten a b k)) [
    | inr kept ↦ absurd (other (forgotten-IsSameMarket a b k kept))
    | inl gone ↦
        let left = e ∙ ap (λ x. forget_if x s) gone in
        (ap (λ x. x.baseline_price) left, ap (λ x. x.last_action_at) left)
  ],
)

abbrev with_config : AutomationConfig → Database → Database
with_config config db = record db {
  runtime_config =
      some (record { config = config; generation = suc (generation_of db.runtime_config) });
}

-- `save_active_config` always succeeds: the configuration becomes the active one, the generation
-- goes up by one, and the state of a rule stays as it is where both configurations have the same
-- RPC address, chain and contracts and the rule has the same pair in both or stands in neither; and
-- else its baseline is forgotten and the time of its last action stays.
pub save_active_config-states :
    (config previous default : AutomationConfig) (db : Database)
    → (db' : Database) × (save_active_config config previous db ≡ ok (tt, db'))
      × (active_config default db' ≡ config)
      × (config_generation db' ≡ suc (config_generation db))
      × ((k : String) → Forgets previous config k (get_rule_state k db) (get_rule_state k db'))
unfolding save_active_config active_config config_generation get_rule_state
save_active_config-states config previous default db =
    let saved = with_config config db in
    (
      reset_changed_markets previous config saved,
      refl,
      ap (λ rc. config_or rc default) (runtime_config-reset previous config saved),
      ap generation_of (runtime_config-reset previous config saved),
      λ k.
          forget_if-Forgets previous config k (get_rule_state k db) _
            (get_rule_state-reset previous config saved k),
    )
