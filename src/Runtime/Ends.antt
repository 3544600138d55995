-- ===== src/Runtime/Ends.antt =====
-- Actions that return.
use xian_dex_automation.Base.{◌≡◌, ap, ◌∙◌, List, Option, none}
use xian_dex_automation.Outcome.{ok, Exn}
use xian_dex_automation.Storage.{Database, Transaction}
use xian_dex_automation.Runtime.{World, Call, Request, Action, transact, settle, continue, ◌>>=◌}
use xian_dex_automation.Runtime.Keeps.{called}

pub step :
    {A B : Type 0} (m : Action A) (f : A → Action B) (a : A) (w v : World)
    → m w ≡ (ok a, v)
    → (m >>= f) w ≡ f a v
unfolding ◌>>=◌ continue
step m f a w v e = ap (continue f) e

-- The action returns this, in some world of this kind.
abbrev pub EndsIn : {A : Type 0} → (World → Type 0) → A → Action A → World → Type 0
EndsIn P a m w = (v : World) × (m w ≡ (ok a, v)) × P v

pub step-EndsIn :
    {A B : Type 0} (P : World → Type 0) (m : Action A) (f : A → Action B) (a : A) (b : B)
    (w v : World)
    → m w ≡ (ok a, v)
    → EndsIn P b (f a) v
    → EndsIn P b (m >>= f) w
step-EndsIn P m f a b w v e (x, h, k) = (x, step m f a w v e ∙ h, k)

-- A block whose commit works.
pub transact-ok :
    {A : Type 0} (failure : List Call → Option Exn) (t : Transaction A) (w : World) (a : A)
    (db : Database)
    → t w.store ≡ ok (a, db)
    → failure w.calls ≡ none
    → transact failure t w ≡ (ok a, record (called Request.commit w) { store = db })
unfolding transact settle
transact-ok failure t w a db e f =
    ap (λ o. settle o (failure w.calls) (called Request.commit w)) e
    ∙ ap (λ x. settle (ok (a, db)) x (called Request.commit w)) f
