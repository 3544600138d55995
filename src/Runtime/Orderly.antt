-- ===== src/Runtime/Orderly.antt =====
-- Worlds in which the store was consistent at every call, and the journal went through its phases.
use xian_dex_automation.Base.{List, [], ◌∷◌, Option, All}
use xian_dex_automation.Outcome.{Exn}
use xian_dex_automation.Storage.{PendingRow, Transaction}
use xian_dex_automation.Storage.Consistency.{IsConsistent}
use xian_dex_automation.Storage.Consistency.Phases.{IsMethod, PhaseStep, phase, stay}
use xian_dex_automation.Storage.Consistency.Methods.{IsMethod-Follows}
use xian_dex_automation.Runtime.{World, Call, Request, commit, transact}
use xian_dex_automation.Runtime.Keeps.{Keeps, Keeps-transact, IsQuiet, called}

-- From each call to the next, and to the journal's row at hand, the journal makes one step.
abbrev pub IsHistory : Option PendingRow → List Call → Type 0
IsHistory slot [] = Unit
IsHistory slot (c ∷ cs) = PhaseStep (phase c.store.slot) (phase slot) × IsHistory c.store.slot cs

pub record Orderly (w : World) : Type 0 where
  pub consistent : IsConsistent w.store
  pub always : All (λ (c : Call). IsConsistent c.store) w.calls
  pub history : IsHistory w.store.slot w.calls

-- No call changes the store by itself.
pub called-Orderly : (r : Request) (w : World) → Orderly w → Orderly (called r w)
called-Orderly r w o = record {
  consistent = o.consistent;
  always = (o.consistent, o.always);
  history = (stay _, o.history);
}

pub Orderly-quiet : IsQuiet Orderly
Orderly-quiet = record { after = λ r s w o. called-Orderly r w o }

pub transact-Orderly :
    (A : Type 0) (failure : List Call → Option Exn) (t : Transaction A)
    → IsMethod A t
    → Keeps Orderly (transact failure t)
transact-Orderly A failure t m = Keeps-transact failure t (called-Orderly commit) (λ w a db o e.
    let f = IsMethod-Follows A t m w.store a db o.consistent e in
    record {
      consistent = f.consistent;
      always = (o.consistent, o.always);
      history = (f.step, o.history);
    })
