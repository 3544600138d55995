-- ===== src/Service/RuleLists.antt =====
-- The rules as a dictionary from their ids, the way the handlers read them (service.py).
use xian_dex_automation.Base.{
  String, true, false, Option, none, some, List, [], ◌∷◌, All, select, str_eq, eq_iff, ◌≡◌, ◌≢◌,
  refl, arith, ◌∙◌, Dict, lookup, insert, lookup-insert, if◌then◌else◌, Bool-cases, inl, inr, ap,
  sym, subst,
}
use xian_dex_automation.Config.{RuleConfig}
use xian_dex_automation.Service.Routes.{by_id, values, upserted, without_rule}

-- Each rule stands under its id, once.
IsKeyed : Dict RuleConfig → Type 0
IsKeyed [] = Unit
IsKeyed ((k, r) ∷ d) = (r.id ≡ k) × (lookup k d ≡ none) × IsKeyed d

insert-IsKeyed :
    (k : String) (r : RuleConfig) (d : Dict RuleConfig)
    → r.id ≡ k
    → IsKeyed d
    → IsKeyed (insert k r d)
unfolding IsKeyed insert lookup
insert-IsKeyed k r [] e h = (e, refl, tt)
insert-IsKeyed k r ((j, x) ∷ d) e (i, fresh, h) = elim (Bool-cases (str_eq j k)) [
  | inl same ↦ rw same (e, subst (λ y. lookup y d ≡ none) ((eq_iff j k).0 same) fresh, h)
  | inr other ↦ rw other (
    i,
    ground (arith, eq_iff j k, eq_iff k j, lookup-insert k j r d, fresh, other),
    insert-IsKeyed k r d e h,
  )
]

by_id-IsKeyed : (d : Dict RuleConfig) (rs : List RuleConfig) → IsKeyed d → IsKeyed (by_id d rs)
unfolding by_id
by_id-IsKeyed d [] h = h
by_id-IsKeyed d (r ∷ rs) h = by_id-IsKeyed (insert r.id r d) rs (insert-IsKeyed r.id r d refl h)

abbrev or_else : Option RuleConfig → Option RuleConfig → Option RuleConfig
or_else none b = b
or_else (some a) b = some a

or_else-none : (o : Option RuleConfig) → or_else o none ≡ o
or_else-none none = refl
or_else-none (some r) = refl

lookup-by_id-values :
    (j : String) (d e : Dict RuleConfig)
    → IsKeyed d
    → lookup j (by_id e (values d)) ≡ or_else (lookup j d) (lookup j e)
unfolding by_id values lookup IsKeyed
lookup-by_id-values j [] e h = refl
lookup-by_id-values j ((k, r) ∷ d) e (i, fresh, h) =
    lookup-by_id-values j d (insert r.id r e) h
    ∙ ground (arith, eq_iff k j, eq_iff r.id j, lookup-insert r.id j r e, i, fresh)

-- The rule under an id, after an upsert.
pub lookup-upserted :
    (j rule_id : String) (rule : RuleConfig) (rs : List RuleConfig)
    → rule.id ≡ rule_id
    → lookup j (by_id [] (upserted rule_id rule rs))
      ≡ (if str_eq rule_id j then some rule else lookup j (by_id [] rs))
unfolding upserted IsKeyed lookup
lookup-upserted j rule_id rule rs e =
    lookup-by_id-values j (insert rule_id rule (by_id [] rs)) []
      (insert-IsKeyed rule_id rule (by_id [] rs) e (by_id-IsKeyed [] rs tt))
    ∙ or_else-none (lookup j (insert rule_id rule (by_id [] rs)))
    ∙ lookup-insert rule_id j rule (by_id [] rs)

-- No rule of the id remains.
pub without_rule-absent :
    (rule_id : String) (rs : List RuleConfig)
    → All (λ (r : RuleConfig). r.id ≢ rule_id) (without_rule rule_id rs)
unfolding without_rule select
without_rule-absent rule_id [] = tt
without_rule-absent rule_id (r ∷ rs) =
    ground (arith, eq_iff r.id rule_id, without_rule-absent rule_id rs)

-- The last rule of an id, onto what was there.
last_of : String → Option RuleConfig → List RuleConfig → Option RuleConfig
last_of j o [] = o
last_of j o (r ∷ rs) = last_of j (if str_eq r.id j then some r else o) rs

lookup-by_id :
    (j : String) (d : Dict RuleConfig) (rs : List RuleConfig)
    → lookup j (by_id d rs) ≡ last_of j (lookup j d) rs
unfolding by_id last_of
lookup-by_id j d [] = refl
lookup-by_id j d (r ∷ rs) =
    lookup-by_id j (insert r.id r d) rs ∙ ap (λ o. last_of j o rs) (lookup-insert r.id j r d)

last_of-without_rule :
    (j rule_id : String) (rs : List RuleConfig) (o : Option RuleConfig)
    → rule_id ≢ j
    → last_of j o (without_rule rule_id rs) ≡ last_of j o rs
unfolding last_of without_rule select
last_of-without_rule j rule_id [] o ne = refl
last_of-without_rule j rule_id (r ∷ rs) o ne = elim (Bool-cases (str_eq r.id rule_id)) [
  | inl e ↦ rw e (rw (differs r.id e) (last_of-without_rule j rule_id rs o ne))
  | inr e ↦ rw e (last_of-without_rule j rule_id rs (if str_eq r.id j then some r else o) ne)
]
  where
    differs : (i : String) → str_eq i rule_id ≡ true → str_eq i j ≡ false
    differs i same = ground (arith, eq_iff i rule_id, eq_iff i j)

-- The rules of other ids stay.
pub lookup-without_rule :
    (j rule_id : String) (rs : List RuleConfig)
    → rule_id ≢ j
    → lookup j (by_id [] (without_rule rule_id rs)) ≡ lookup j (by_id [] rs)
lookup-without_rule j rule_id rs ne =
    lookup-by_id j [] (without_rule rule_id rs)
    ∙ last_of-without_rule j rule_id rs (lookup j []) ne
    ∙ sym (lookup-by_id j [] rs)
