-- ===== src/Runtime/Returns.antt =====
-- What holds of the result and the world when an action returns.
use xian_dex_automation.Base.{
  Bool, true, false, if◌then◌else◌, ◌≡◌, refl, subst, List, Option, none, some,
}
use xian_dex_automation.Outcome.{Outcome, ok, raised, cancelled, Exn}
use xian_dex_automation.Storage.{Database, Transaction}
use xian_dex_automation.Runtime.{
  World, Call, Action, pure, transact, settle, commit, continue, ◌>>=◌,
}
use xian_dex_automation.Runtime.Keeps.{Keeps, called}
use xian_dex_automation.Runtime.Yields.{Post, Leads}

abbrev pub Returns : {A : Type 0} → (World → Type 0) → (A → World → Type 0) → Action A → Type 0
Returns P Q m = Leads P Q (λ _. Unit) m

module _ {A : Type 0} where
  Post-with :
      (P : World → Type 0) (Q : A → World → Type 0) (o : Outcome A) (w : World)
      → Post Q (λ _. Unit) (o, w)
      → P w
      → Post (λ a v. P v × Q a v) (λ _. Unit) (o, w)
  Post-with P Q (ok a) w h k = (k, h)
  Post-with P Q (raised e) w h k = tt
  Post-with P Q cancelled w h k = tt

  -- An invariant besides.
  pub Returns-with :
      {P : World → Type 0} (Q : A → World → Type 0) (m : Action A)
      → Keeps P m
      → Returns P Q m
      → Returns P (λ a w. P w × Q a w) m
  Returns-with {P} Q m k l = record {
    at = λ w h. let (o, w') = m w in Post-with P Q o w' (l.at w h) (k.at w h);
  }

  Post-weak :
      (Q S : A → World → Type 0) (o : Outcome A) (w : World)
      → Post Q (λ _. Unit) (o, w)
      → ((a : A) → o ≡ ok a → Q a w → S a w)
      → Post S (λ _. Unit) (o, w)
  Post-weak Q S (ok a) w h k = k a refl h
  Post-weak Q S (raised e) w h k = tt
  Post-weak Q S cancelled w h k = tt

  pub Returns-weak :
      {P : World → Type 0} (Q S : A → World → Type 0) (m : Action A)
      → Returns P Q m
      → ((a : A) (w : World) → Q a w → S a w)
      → Returns P S m
  Returns-weak Q S m l k = record {
    at = λ w h. let (o, w') = m w in Post-weak Q S o w' (l.at w h) (λ a _. k a w');
  }

  pub Returns-from :
      {P : World → Type 0} (S : World → Type 0) (Q : A → World → Type 0) (m : Action A)
      → ((w : World) → P w → S w)
      → Returns S Q m
      → Returns P Q m
  Returns-from S Q m h l = record { at = λ w k. l.at w (h w k) }

  pub Returns-Keeps : {P : World → Type 0} (m : Action A) → Keeps P m → Returns P (λ _. P) m
  Returns-Keeps {P} m k = record { at = λ w h. let (o, w') = m w in post-kept P o w' (k.at w h) }
    where
      post-kept :
          (P : World → Type 0) (o : Outcome A) (w : World) → P w → Post (λ _. P) (λ _. Unit) (o, w)
      post-kept P (ok a) w h = h
      post-kept P (raised e) w h = tt
      post-kept P cancelled w h = tt

  pub Returns-pure :
      {P : World → Type 0} (Q : A → World → Type 0) (a : A)
      → ((w : World) → P w → Q a w)
      → Returns P Q (pure a)
  unfolding pure
  Returns-pure Q a h = record { at = h }

  pub Returns-if :
      {P : World → Type 0} (Q : A → World → Type 0) (b : Bool) (m n : Action A)
      → (b ≡ true → Returns P Q m)
      → (b ≡ false → Returns P Q n)
      → Returns P Q (if b then m else n)
  Returns-if Q true m n km kn = km refl
  Returns-if Q false m n km kn = kn refl

  settle-Returns :
      (Q : A → World → Type 0) (o : Outcome (A × Database)) (e : Option Exn) (w : World)
      → ((a : A) (db : Database) → o ≡ ok (a, db) → Q a (record w { store = db }))
      → Post Q (λ _. Unit) (settle o e w)
  unfolding settle
  settle-Returns Q (ok (a, db)) none w k = k a db refl
  settle-Returns Q (ok (a, db)) (some e) w k = tt
  settle-Returns Q (raised e) f w k = tt
  settle-Returns Q cancelled f w k = tt

  pub Returns-transact :
      {P : World → Type 0} (Q : A → World → Type 0) (failure : List Call → Option Exn)
      (t : Transaction A)
      → ((w : World) (a : A) (db : Database)
          → P w
          → t w.store ≡ ok (a, db)
          → Q a (record (called commit w) { store = db }))
      → Returns P Q (transact failure t)
  unfolding transact
  Returns-transact Q failure t k = record {
    at = λ w h.
        settle-Returns Q (t w.store) (failure w.calls) (called commit w) (λ a db e. k w a db h e);
  }

  -- What is known of a returned value.
  pub Returns-at :
      {P : World → Type 0} (Q : A → World → Type 0) (m : Action A) (w : World) (a : A)
      → Returns P Q m
      → P w
      → (m w).0 ≡ ok a
      → Q a (m w).1
  Returns-at Q m w a l h e = let (o, w') = m w in at_ok o w' e (l.at w h)
    where
      at_ok : (o : Outcome A) (w' : World) → o ≡ ok a → Post Q (λ _. Unit) (o, w') → Q a w'
      at_ok o w' e q = subst (λ x. Post Q (λ _. Unit) (x, w')) e q

continue-Returns :
    {A B : Type 0} (Q : A → World → Type 0) (S : B → World → Type 0) (f : A → Action B)
    (o : Outcome A) (w : World)
    → Post Q (λ _. Unit) (o, w)
    → ((a : A) → Returns (Q a) S (f a))
    → Post S (λ _. Unit) (continue f (o, w))
unfolding continue
continue-Returns Q S f (ok a) w h k = (k a).at w h
continue-Returns Q S f (raised e) w h k = tt
continue-Returns Q S f cancelled w h k = tt

pub Returns-bind :
    {A B : Type 0} {P : World → Type 0} (Q : A → World → Type 0) (S : B → World → Type 0)
    (m : Action A) (f : A → Action B)
    → Returns P Q m
    → ((a : A) → Returns (Q a) S (f a))
    → Returns P S (m >>= f)
unfolding ◌>>=◌
Returns-bind Q S m f km kf = record {
  at = λ w h. let (o, w') = m w in continue-Returns Q S f o w' (km.at w h) kf;
}
