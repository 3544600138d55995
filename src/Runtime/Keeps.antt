-- ===== src/Runtime/Keeps.antt =====
-- Invariants of actions: a rule for each way to build one.
use xian_dex_automation.Base.{
  Bool, true, false, List, ◌∷◌, Option, none, some, if◌then◌else◌, ◌≡◌, refl,
}
use xian_dex_automation.Outcome.{Outcome, ok, raised, cancelled, Exn}
use xian_dex_automation.Storage.{Database, Transaction}
use xian_dex_automation.Runtime.{
  World, Call, Request, commit, broadcast, Action, pure, lift, reads, queries, ask, settle,
  transact, catch_with, try_except, caught, attempt, continue, ◌>>=◌,
}

-- However `m` ends, a world with `P` has it afterwards.
pub record Keeps {A : Type 0} (P : World → Type 0) (m : Action A) : Type 0 where
  pub at : (w : World) → P w → P (m w).1

-- The world after a call.
abbrev pub called : Request → World → World
called r w = record w { calls = record { request = r; store = w.store } ∷ w.calls }

module _ {A : Type 0} (P : World → Type 0) where
  settle-keeps :
      (o : Outcome (A × Database)) (e : Option Exn) (w : World)
      → P w
      → ((a : A) (db : Database) → o ≡ ok (a, db) → P (record w { store = db }))
      → P (settle o e w).1
  unfolding settle
  settle-keeps (ok (a, db)) none w h k = k a db refl
  settle-keeps (ok (a, db)) (some e) w h k = h
  settle-keeps (raised e) f w h k = h
  settle-keeps cancelled f w h k = h

  caught-world : (o : Outcome A) (w : World) → P w → P (caught (o, w)).1
  unfolding caught
  caught-world (ok a) w h = h
  caught-world (raised e) w h = h
  caught-world cancelled w h = h

module _ {A : Type 0} {P : World → Type 0} where
  pub Keeps-pure : (a : A) → Keeps P (pure a)
  unfolding pure
  Keeps-pure a = record { at = λ w h. h }

  pub Keeps-lift : (r : Outcome A) → Keeps P (lift r)
  unfolding lift
  Keeps-lift r = record { at = λ w h. h }

  pub Keeps-reads : (f : Database → A) → Keeps P (reads f)
  unfolding reads
  Keeps-reads f = record { at = λ w h. h }

  pub Keeps-queries : (f : Database → Outcome A) → Keeps P (queries f)
  unfolding queries
  Keeps-queries f = record { at = λ w h. h }

  pub Keeps-ask :
      (r : Request) (answer : List Call → Outcome A)
      → ((w : World) → P w → P (called r w))
      → Keeps P (ask r answer)
  unfolding ask
  Keeps-ask r answer h = record { at = h }

  pub Keeps-transact :
      (failure : List Call → Option Exn) (t : Transaction A)
      → ((w : World) → P w → P (called commit w))
      → ((w : World) (a : A) (db : Database)
          → P w
          → t w.store ≡ ok (a, db)
          → P (record (called commit w) { store = db }))
      → Keeps P (transact failure t)
  unfolding transact
  Keeps-transact failure t h k = record {
    at = λ w pw.
        settle-keeps P (t w.store) (failure w.calls) (called commit w) (h w pw)
          (λ a db e. k w a db pw e);
  }

  pub Keeps-if : (b : Bool) (m n : Action A) → Keeps P m → Keeps P n → Keeps P (if b then m else n)
  Keeps-if true m n km kn = km
  Keeps-if false m n km kn = kn

  -- Each branch under the result of its test.
  pub Keeps-if_eq :
      (b : Bool) (m n : Action A)
      → (b ≡ true → Keeps P m)
      → (b ≡ false → Keeps P n)
      → Keeps P (if b then m else n)
  Keeps-if_eq true m n km kn = km refl
  Keeps-if_eq false m n km kn = kn refl

  catch-keeps :
      (handler : Exn → Action A) (o : Outcome A) (w : World)
      → P w
      → ((e : Exn) → Keeps P (handler e))
      → P (catch_with handler (o, w)).1
  unfolding catch_with
  catch-keeps handler (ok a) w h k = h
  catch-keeps handler (raised e) w h k = (k e).at w h
  catch-keeps handler cancelled w h k = h

  pub Keeps-try :
      (m : Action A) (handler : Exn → Action A)
      → Keeps P m
      → ((e : Exn) → Keeps P (handler e))
      → Keeps P (try_except m handler)
  unfolding try_except
  Keeps-try m handler km kh = record {
    at = λ w h. let (o, w') = m w in catch-keeps handler o w' (km.at w h) kh;
  }

  pub Keeps-attempt : (m : Action A) → Keeps P m → Keeps P (attempt m)
  unfolding attempt
  Keeps-attempt m km = record { at = λ w h. let (o, w') = m w in caught-world P o w' (km.at w h) }

module _ {A B : Type 0} {P : World → Type 0} where
  continue-keeps :
      (f : A → Action B) (o : Outcome A) (w : World)
      → P w
      → ((a : A) → Keeps P (f a))
      → P (continue f (o, w)).1
  unfolding continue
  continue-keeps f (ok a) w h k = (k a).at w h
  continue-keeps f (raised e) w h k = h
  continue-keeps f cancelled w h k = h

  pub Keeps-bind :
      (m : Action A) (f : A → Action B) → Keeps P m → ((a : A) → Keeps P (f a)) → Keeps P (m >>= f)
  unfolding ◌>>=◌
  Keeps-bind m f km kf = record {
    at = λ w h. let (o, w') = m w in continue-keeps f o w' (km.at w h) kf;
  }

pub ruleset keeps_rules = (
  Keeps-pure, Keeps-lift, Keeps-reads, Keeps-queries, Keeps-if, Keeps-try, Keeps-attempt,
  Keeps-bind,
)

-- The calls that send nothing.
abbrev pub Silent : Request → Type 0
Silent (broadcast url tx) = ⊥
Silent _ = Unit

-- A predicate that such calls do not affect.
pub record IsQuiet (P : World → Type 0) : Type 0 where
  pub after : (r : Request) → Silent r → (w : World) → P w → P (called r w)

pub Keeps-Silent :
    {A : Type 0} {P : World → Type 0} (q : IsQuiet P) (r : Request) (answer : List Call → Outcome A)
    → Silent r
    → Keeps P (ask r answer)
Keeps-Silent q r answer h = Keeps-ask r answer (q.after r h)

-- A block keeps a predicate that its new database has.
pub Keeps-commit :
    {A : Type 0} {P : World → Type 0} (q : IsQuiet P) (failure : List Call → Option Exn)
    (t : Transaction A)
    → ((w : World) (a : A) (db : Database)
        → P w
        → t w.store ≡ ok (a, db)
        → P (record w { store = db }))
    → Keeps P (transact failure t)
Keeps-commit q failure t h =
    Keeps-transact failure t (q.after commit tt)
      (λ w a db pw e. h (called commit w) a db (q.after commit tt w pw) e)
