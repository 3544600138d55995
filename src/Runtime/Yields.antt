-- ===== src/Runtime/Yields.antt =====
-- Actions that need one predicate and leave another.
use xian_dex_automation.Base.{Bool, true, false, if◌then◌else◌, ◌≡◌, refl}
use xian_dex_automation.Outcome.{Outcome, ok, raised, cancelled, Exn}
use xian_dex_automation.Storage.{Database}
use xian_dex_automation.Runtime.{
  World, Action, lift, queries, catch_with, try_except, continue, ◌>>=◌,
}
use xian_dex_automation.Runtime.Keeps.{Keeps}

-- From a world with `P` the action ends in one with `R`, however it ends.
pub record Yields {A : Type 0} (P R : World → Type 0) (m : Action A) : Type 0 where
  pub at : (w : World) → P w → R (m w).1

-- `Q` of the result and the world if the action returns, `R` of the world if it does not.
abbrev pub Post :
    {A : Type 0} → (A → World → Type 0) → (World → Type 0) → Outcome A × World → Type 0
Post Q R (ok a, w) = Q a w
Post Q R (raised e, w) = R w
Post Q R (cancelled, w) = R w

pub record Leads {A : Type 0} (P : World → Type 0) (Q : A → World → Type 0) (R : World → Type 0)
    (m : Action A) : Type 0 where
  pub at : (w : World) → P w → Post Q R (m w)

module _ {A : Type 0} {P R : World → Type 0} where
  -- An invariant, under a stronger start and a weaker end.
  pub Yields-Keeps :
      (S : World → Type 0) (m : Action A)
      → ((w : World) → P w → S w)
      → ((w : World) → S w → R w)
      → Keeps S m
      → Yields P R m
  Yields-Keeps S m a b k = record { at = λ w h. b (m w).1 (k.at w (a w h)) }

  pub Yields-if :
      (b : Bool) (m n : Action A)
      → (b ≡ true → Yields P R m)
      → (b ≡ false → Yields P R n)
      → Yields P R (if b then m else n)
  Yields-if true m n km kn = km refl
  Yields-if false m n km kn = kn refl

module _ {A : Type 0} (R : World → Type 0) where
  catch-yields :
      (handler : Exn → Action A) (o : Outcome A) (w : World)
      → R w
      → ((e : Exn) → Keeps R (handler e))
      → R (catch_with handler (o, w)).1
  unfolding catch_with
  catch-yields handler (ok a) w h k = h
  catch-yields handler (raised e) w h k = (k e).at w h
  catch-yields handler cancelled w h k = h

pub Yields-try :
    {A : Type 0} {P R : World → Type 0} (m : Action A) (handler : Exn → Action A)
    → Yields P R m
    → ((e : Exn) → Keeps R (handler e))
    → Yields P R (try_except m handler)
unfolding try_except
Yields-try {R} m handler km kh = record {
  at = λ w h. let (o, w') = m w in catch-yields R handler o w' (km.at w h) kh;
}

Post-world :
    {A : Type 0} (R : World → Type 0) (o : Outcome A) (w : World) → R w → Post (λ _. R) R (o, w)
Post-world R (ok a) w h = h
Post-world R (raised e) w h = h
Post-world R cancelled w h = h

-- An invariant leads to itself.
pub Leads-Keeps :
    {A : Type 0} {P : World → Type 0} (m : Action A) → Keeps P m → Leads P (λ _. P) P m
Leads-Keeps {P} m k = record { at = λ w h. let (o, w') = m w in Post-world P o w' (k.at w h) }

continue-yields :
    {A B : Type 0} (Q : A → World → Type 0) (R : World → Type 0) (f : A → Action B) (o : Outcome A)
    (w : World)
    → Post Q R (o, w)
    → ((a : A) → Yields (Q a) R (f a))
    → R (continue f (o, w)).1
unfolding continue
continue-yields Q R f (ok a) w h k = (k a).at w h
continue-yields Q R f (raised e) w h k = h
continue-yields Q R f cancelled w h k = h

pub Yields-bind :
    {A B : Type 0} {P R : World → Type 0} (Q : A → World → Type 0) (m : Action A) (f : A → Action B)
    → Leads P Q R m
    → ((a : A) → Yields (Q a) R (f a))
    → Yields P R (m >>= f)
unfolding ◌>>=◌
Yields-bind {R} Q m f km kf = record {
  at = λ w h. let (o, w') = m w in continue-yields Q R f o w' (km.at w h) kf;
}

Post-weak :
    {A : Type 0} (P R : World → Type 0) (o : Outcome A) (w : World)
    → P w
    → (P w → R w)
    → Post (λ _. P) R (o, w)
Post-weak P R (ok a) w h k = h
Post-weak P R (raised e) w h k = k h
Post-weak P R cancelled w h k = k h

-- The first step keeps what the rest needs, and that is enough if it stops there.
pub Yields-after :
    {A B : Type 0} {P R : World → Type 0} (m : Action A) (f : A → Action B)
    → ((w : World) → P w → R w)
    → Keeps P m
    → ((a : A) → Yields P R (f a))
    → Yields P R (m >>= f)
unfolding ◌>>=◌
Yields-after {P} {R} m f weak km kf = record {
  at = λ w h.
      let (o, w') = m w in
      continue-yields (λ _. P) R f o w' (Post-weak P R o w' (km.at w h) (weak w')) kf;
}

lift-Post :
    {A : Type 0} (P R : World → Type 0) (o : Outcome A) (w : World)
    → P w
    → (P w → R w)
    → Post (λ a v. P v × (o ≡ ok a)) R (o, w)
lift-Post P R (ok a) w h k = (h, refl)
lift-Post P R (raised e) w h k = k h
lift-Post P R cancelled w h k = k h

-- A pure step returns its own value.
pub Leads-lift :
    {A : Type 0} {P R : World → Type 0} (o : Outcome A)
    → ((w : World) → P w → R w)
    → Leads P (λ a w. P w × (o ≡ ok a)) R (lift o)
unfolding lift
Leads-lift {P} {R} o weak = record { at = λ w h. lift-Post P R o w h (weak w) }

queries-Post :
    {A : Type 0} (P R : World → Type 0) (f : Database → Outcome A) (o : Outcome A) (w : World)
    → f w.store ≡ o
    → P w
    → (P w → R w)
    → Post (λ a v. P v × (f v.store ≡ ok a)) R (o, w)
queries-Post P R f (ok a) w e h k = (h, e)
queries-Post P R f (raised x) w e h k = k h
queries-Post P R f cancelled w e h k = k h

-- A query returns what the database holds.
pub Leads-queries :
    {A : Type 0} {P R : World → Type 0} (f : Database → Outcome A)
    → ((w : World) → P w → R w)
    → Leads P (λ a w. P w × (f w.store ≡ ok a)) R (queries f)
unfolding queries
Leads-queries {P} {R} f weak = record {
  at = λ w h. queries-Post P R f (f w.store) w refl h (weak w);
}

-- The rest keeps what the first step leaves.
pub Yields-before :
    {A B : Type 0} {P R : World → Type 0} (m : Action A) (f : A → Action B)
    → Yields P R m
    → ((a : A) → Keeps R (f a))
    → Yields P R (m >>= f)
unfolding ◌>>=◌
Yields-before {P} {R} m f km kf = record {
  at = λ w h.
      let (o, w') = m w in
      continue-yields (λ _. R) R f o w' (Post-world R o w' (km.at w h))
        (λ a. record { at = (kf a).at });
}

pub Yields-from :
    {A : Type 0} {S R : World → Type 0} (P : World → Type 0) (m : Action A)
    → ((w : World) → P w → S w)
    → Yields S R m
    → Yields P R m
Yields-from P m weak k = record { at = λ w h. k.at w (weak w h) }
