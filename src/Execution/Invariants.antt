-- ===== src/Execution/Invariants.antt =====
-- What recovery and the check of an uncertain rule keep
-- (execution.py).
use xian_dex_automation.Base.{String, Bool, true, false, not, Option, none, some, List, ◌≡◌, refl}
use xian_dex_automation.Outcome.{Exn}
use xian_dex_automation.Submission.{PendingExecution, PreparedSwap}
use xian_dex_automation.Storage.{Transaction}
use xian_dex_automation.Storage.Consistency.Phases.{IsMethod, finish, release, resolve, note, mark}
use xian_dex_automation.Runtime.{World, Call, Request, Platform, Receipt, utc_now, transact}
use xian_dex_automation.Runtime.Keeps.{
  Keeps, IsQuiet, Keeps-Silent, Keeps-bind, Keeps-if, Keeps-try, Keeps-pure, Keeps-lift,
  Keeps-queries,
}
use xian_dex_automation.Transport
use xian_dex_automation.Transport.Silence.{enter-Keeps, nonce_consumed-Keeps, lookup-Keeps}
use xian_dex_automation.Execution.{
  finish_receipt, received, look_again, after_broadcast, lookup_receipt, resend, without_receipt,
  with_lookup, settle_attempted, reconcile, note_failure, reconcile_pending, reconcile_execution,
  settle_uncertain, look_up_uncertain, reconcile_uncertain_rule,
}

module _ (p : Platform) {P : World → Type 0} (q : IsQuiet P) where
  pub lookup_receipt-Keeps : (s : PreparedSwap) → Keeps P (lookup_receipt p s)
  unfolding lookup_receipt
  lookup_receipt-Keeps s = Keeps-try _ _ (lookup-Keeps q p s) (λ _. Keeps-pure _)

module _ (p : Platform) {P : World → Type 0} (q : IsQuiet P)
    (writes : (A : Type 0) (failure : List Call → Option Exn) (t : Transaction A)
      → IsMethod A t
      → Keeps P (transact failure t))
    (allow : Bool)
    (sends : allow ≡ true → (s : PreparedSwap) → Keeps P (Transport.broadcast p s)) where
  utc_now-Keeps : Keeps P (utc_now p)
  unfolding utc_now
  utc_now-Keeps = Keeps-Silent q _ _ tt

  finish_receipt-Keeps : (e : PendingExecution) (r : Receipt) → Keeps P (finish_receipt p e r)
  unfolding finish_receipt
  finish_receipt-Keeps e r = Keeps-bind _ _ utc_now-Keeps (λ now. writes _ _ _ (finish _ _ _ _))

  look_again-Keeps : (e : PendingExecution) (s : PreparedSwap) → Keeps P (look_again p e s)
  unfolding look_again received
  look_again-Keeps e s = Keeps-bind _ _ (lookup-Keeps q p s) received-Keeps
    where
      received-Keeps : (r : Option Receipt) → Keeps P (received p e r)
      received-Keeps none = Keeps-pure _
      received-Keeps (some r) = finish_receipt-Keeps e r

  after_broadcast-Keeps :
      (e : PendingExecution) (s : PreparedSwap) (r : Option String)
      → Keeps P (after_broadcast p e s r)
  unfolding after_broadcast
  after_broadcast-Keeps e s none = look_again-Keeps e s
  after_broadcast-Keeps e s (some rejected) =
      Keeps-if (not e.broadcast_attempted) _ _
        (Keeps-bind _ _ utc_now-Keeps (λ now. writes _ _ _ (finish _ _ _ _))) (look_again-Keeps e s)

  resend-Keeps :
      (e : PendingExecution) (s : PreparedSwap) (b : Bool)
      → (b ≡ true → allow ≡ true)
      → Keeps P (resend p e s b)
  unfolding resend
  resend-Keeps e s false on = Keeps-pure _
  resend-Keeps e s true on =
      Keeps-bind _ _ (writes _ _ _ (mark _))
        (λ _. Keeps-bind _ _ (sends (on refl) s) (after_broadcast-Keeps e s))

  without_receipt-Keeps :
      (e : PendingExecution) (s : PreparedSwap) → Keeps P (without_receipt p e s allow)
  unfolding without_receipt
  without_receipt-Keeps e s =
      Keeps-bind _ _ (nonce_consumed-Keeps q p s)
        (λ used. Keeps-if used _ _ (writes _ _ _ (release _)) (resend-Keeps e s allow (λ on. on)))

  with_lookup-Keeps :
      (e : PendingExecution) (s : PreparedSwap) (r : Option Receipt)
      → Keeps P (with_lookup p e s allow r)
  unfolding with_lookup
  with_lookup-Keeps e s none = without_receipt-Keeps e s
  with_lookup-Keeps e s (some r) = finish_receipt-Keeps e r

  settle_attempted-Keeps :
      (e : PendingExecution) (s : PreparedSwap) → Keeps P (settle_attempted p e s allow)
  unfolding settle_attempted
  settle_attempted-Keeps e s = Keeps-bind _ _ (lookup_receipt-Keeps p q s) (with_lookup-Keeps e s)

  reconcile-Keeps : (e : PendingExecution) (s : PreparedSwap) → Keeps P (reconcile p e s allow)
  unfolding reconcile
  reconcile-Keeps e s = Keeps-bind _ _ (enter-Keeps q p s) (λ _.
      Keeps-if e.broadcast_attempted _ _ (settle_attempted-Keeps e s)
        (resend-Keeps e s allow (λ on. on)))

  note_failure-Keeps : (e : PendingExecution) (x : Exn) → Keeps P (note_failure p e x)
  unfolding note_failure
  note_failure-Keeps e x = Keeps-bind _ _ (writes _ _ _ (note _ _)) (λ _. Keeps-pure _)

  reconcile_pending-Keeps :
      (url : Option String) (e : Option PendingExecution)
      → Keeps P (reconcile_pending p allow url e)
  unfolding reconcile_pending
  reconcile_pending-Keeps url none = Keeps-pure _
  reconcile_pending-Keeps url (some e) = Keeps-bind _ _ (Keeps-lift _) (λ s.
      Keeps-try _ _ (Keeps-bind _ _ (reconcile-Keeps e s) (λ r. Keeps-pure _))
        (note_failure-Keeps e))

  pub reconcile_execution-Keeps : (url : Option String) → Keeps P (reconcile_execution p allow url)
  unfolding reconcile_execution
  reconcile_execution-Keeps url = Keeps-bind _ _ (Keeps-queries _) (reconcile_pending-Keeps url)

module _ (p : Platform) {P : World → Type 0} (q : IsQuiet P)
    (writes : (A : Type 0) (failure : List Call → Option Exn) (t : Transaction A)
      → IsMethod A t
      → Keeps P (transact failure t)) where
  settle_uncertain-Keeps :
      (e : PendingExecution) (r : Option Receipt) → Keeps P (settle_uncertain p e r)
  unfolding settle_uncertain utc_now
  settle_uncertain-Keeps e none = Keeps-pure _
  settle_uncertain-Keeps e (some r) =
      Keeps-bind _ _ (Keeps-Silent q Request.read_clock _ tt)
        (λ now. Keeps-bind _ _ (writes _ _ _ (resolve _ _ _ _)) (λ _. Keeps-pure _))

  look_up_uncertain-Keeps : (e : Option PendingExecution) → Keeps P (look_up_uncertain p e)
  unfolding look_up_uncertain
  look_up_uncertain-Keeps none = Keeps-pure _
  look_up_uncertain-Keeps (some e) =
      Keeps-try _ _
        (Keeps-bind _ _ (enter-Keeps q p e.prepared)
          (λ _. Keeps-bind _ _ (lookup-Keeps q p e.prepared) (settle_uncertain-Keeps e)))
        (λ x. Keeps-pure _)

  pub reconcile_uncertain_rule-Keeps : (id : String) → Keeps P (reconcile_uncertain_rule p id)
  unfolding reconcile_uncertain_rule
  reconcile_uncertain_rule-Keeps id = Keeps-bind _ _ (Keeps-queries _) look_up_uncertain-Keeps
