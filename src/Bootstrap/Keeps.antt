-- ===== src/Bootstrap/Keeps.antt =====
-- Invariants of the bootstrap script: a rule for each way to build a step.
use xian_dex_automation.Base.{◌∷◌, ◌≡◌, refl, All}
use xian_dex_automation.Outcome.{Outcome, ok, raised, cancelled}
use xian_dex_automation.Runtime.{World, Action}
use xian_dex_automation.Bootstrap.{
  Place, Script, Write, pure, lift, query, perform, embed, continue, ◌>>=◌,
}

-- However `m` ends, a place with `P` has it afterwards.
pub record Keeps {A : Type 0} (P : Place → Type 0) (m : Script A) : Type 0 where
  pub at : (s : Place) → P s → P (m s).1

-- The place after these writes, newest first.
abbrev pub wrote : Write → Place → Place
wrote w s = record s { writes = w ∷ s.writes }

module _ {A : Type 0} {P : Place → Type 0} where
  pub Keeps-pure : (a : A) → Keeps P (pure a)
  unfolding pure
  Keeps-pure a = record { at = λ s h. h }

  pub Keeps-lift : (r : Outcome A) → Keeps P (lift r)
  unfolding lift
  Keeps-lift r = record { at = λ s h. h }

  pub Keeps-query : (f : Place → Outcome A) → Keeps P (query f)
  unfolding query
  Keeps-query f = record { at = λ s h. h }

  pub Keeps-perform :
      (answer : Place → Write → Outcome A) (w : Write)
      → ((s : Place) → P s → P (wrote w s))
      → Keeps P (perform answer w)
  unfolding perform
  Keeps-perform answer w h = record { at = h }

  pub Keeps-embed :
      (m : Action A)
      → ((s : Place) (w : World) → P s → P (record s { world = w }))
      → Keeps P (embed m)
  unfolding embed
  Keeps-embed m h = record { at = λ s k. h s (m s.world).1 k }

module _ {A B : Type 0} {P : Place → Type 0} where
  continue-keeps :
      (f : A → Script B) (r : Outcome A) (s : Place)
      → ((a : A) → Keeps P (f a))
      → P s
      → P (continue f (r, s)).1
  unfolding continue
  continue-keeps f (ok a) s k h = (k a).at s h
  continue-keeps f (raised e) s k h = h
  continue-keeps f cancelled s k h = h

  pub Keeps->>= :
      (m : Script A) (f : A → Script B) → Keeps P m → ((a : A) → Keeps P (f a)) → Keeps P (m >>= f)
  unfolding ◌>>=◌
  Keeps->>= m f h k = record { at = λ s before. continue-keeps f (m s).0 (m s).1 k (h.at s before) }

module _ {A B : Type 0} {P : Place → Type 0} where
  -- What follows a pure step may use the value that the step gave.
  pub Keeps-lift_then :
      (r : Outcome A) (f : A → Script B)
      → ((a : A) → r ≡ ok a → Keeps P (f a))
      → Keeps P (lift r >>= f)
  unfolding ◌>>=◌
  Keeps-lift_then (ok a) f k = record { at = (k a refl).at }
  Keeps-lift_then (raised e) f k = record { at = λ s h. h }
  Keeps-lift_then cancelled f k = record { at = λ s h. h }

pub ruleset steps_rules = (Keeps-pure, Keeps-lift, Keeps-query, Keeps->>=)

module _ {A : Type 0} {Q : Write → Type 0} where
  pub Keeps-write :
      (answer : Place → Write → Outcome A) (w : Write)
      → Q w
      → Keeps (λ s. All Q s.writes) (perform answer w)
  Keeps-write answer w q = Keeps-perform answer w (λ s h. (q, h))

  pub Keeps-client : (m : Action A) → Keeps (λ s. All Q s.writes) (embed m)
  Keeps-client m = Keeps-embed m (λ s w h. h)

pub ruleset writes_rules =
    (Keeps-pure, Keeps-lift, Keeps-query, Keeps->>=, Keeps-write, Keeps-client)
