-- ===== src/Execution/Journaled.antt =====
-- What recovery sends, and the journal on disk at that moment (execution.py).
use xian_dex_automation.Base.{
  ℕ, String, Bool, true, false, ◌≡◌, refl, sym, Option, none, some, arith, All, List,
}
use xian_dex_automation.Outcome.{Outcome, ok, raised, cancelled, Exn}
use xian_dex_automation.Execution.{
  finish_receipt, received, look_again, after_broadcast, resend, without_receipt, with_lookup,
  settle_attempted, reconcile, note_failure, redirect, reconcile_pending, reconcile_execution,
}
use xian_dex_automation.Execution.Invariants.{lookup_receipt-Keeps}
use xian_dex_automation.Submission.{PendingExecution, PreparedSwap}
use xian_dex_automation.Storage.{Database, PendingRow, Transaction, mark_broadcast_attempted}
use xian_dex_automation.Storage.Journal.Reading.{
  pending_execution-IsReadFrom, make_swap-transaction,
}
use xian_dex_automation.Storage.Settlement.Marking.{mark_broadcast_attempted-slot}
use xian_dex_automation.Runtime.{
  World, Call, Request, Platform, transact, settle, commit, Receipt, utc_now, pure,
}
use xian_dex_automation.Runtime.Keeps.{
  Silent, Keeps, keeps_rules, called, Keeps-ask, Keeps-commit, Keeps-Silent, Keeps-bind, Keeps-lift,
  Keeps-pure, IsQuiet,
}
use xian_dex_automation.Runtime.Yields.{
  Yields, Leads, Post, Yields-Keeps, Yields-bind, Yields-after, Yields-if, Yields-try, Leads-lift,
  Leads-queries, Yields-before, Yields-from,
}
use xian_dex_automation.Storage
use xian_dex_automation.Transport
use xian_dex_automation.Transport.Silence.{
  enter-Keeps, check_chain-Keeps, nonce_consumed-Keeps, lookup-Keeps,
}

-- A row that was marked as attempted, for a transaction with this hash.
abbrev pub IsMarked : String → Option PendingRow → Type 0
IsMarked h none = ⊥
IsMarked h (some row) = (row.tx_hash ≡ h) × (row.broadcast_attempted ≡ true)

-- Of a broadcast: the journal holds its transaction, marked. Of another call: nothing.
abbrev pub IsBacked : Request → Database → Type 0
IsBacked (Request.broadcast url tx) db = IsMarked tx.tx_hash db.slot
IsBacked _ db = Unit

-- Every call so far was backed.
pub record AllBacked (w : World) : Type 0 where
  pub backed : All (λ c. IsBacked c.request c.store) w.calls

-- The journal holds no other transaction.
abbrev HasHash : String → Option PendingRow → Type 0
HasHash h none = Unit
HasHash h (some row) = row.tx_hash ≡ h

record IsAbout (h : String) (w : World) : Type 0 where
  all : AllBacked w
  hash : HasHash h w.store.slot

record IsReady (h : String) (w : World) : Type 0 where
  all : AllBacked w
  marked : IsMarked h w.store.slot

Silent-IsBacked : (r : Request) (db : Database) → Silent r → IsBacked r db
Silent-IsBacked (Request.broadcast url tx) db h = absurd h
Silent-IsBacked _ db h = tt

pub AllBacked-quiet : IsQuiet AllBacked
AllBacked-quiet = record {
  after = λ r s w h. record { backed = (Silent-IsBacked r w.store s, h.backed) };
}

IsAbout-quiet : (h : String) → IsQuiet (IsAbout h)
IsAbout-quiet h = record {
  after = λ r s w a. record { all = AllBacked-quiet.after r s w a.all; hash = a.hash };
}

IsReady-quiet : (h : String) → IsQuiet (IsReady h)
IsReady-quiet h = record {
  after = λ r s w a. record { all = AllBacked-quiet.after r s w a.all; marked = a.marked };
}

-- A block of the store sends nothing.
pub transact-AllBacked :
    {A : Type 0} (failure : List Call → Option Exn) (t : Transaction A)
    → Keeps AllBacked (transact failure t)
transact-AllBacked failure t =
    Keeps-commit AllBacked-quiet failure t (λ w a db h e. record { backed = h.backed })

-- The mark makes the world ready to send the journal's transaction.
settle-IsReady :
    (h : String) (n : ℕ) (f : Option Exn) (w : World) (o : Outcome (Unit × Database))
    → IsAbout h w
    → mark_broadcast_attempted n w.store ≡ o
    → Post (λ _. IsReady h) AllBacked (settle o f w)
unfolding settle
settle-IsReady h n none w (ok (tt, db)) a e =
    let (row, at_slot, _, marked) = mark_broadcast_attempted-slot n w.store db e in
    record { all = record { backed = a.all.backed }; marked = rw marked (ground arith) }
settle-IsReady h n (some x) w (ok (tt, db)) a e = a.all
settle-IsReady h n f w (raised x) a e = a.all
settle-IsReady h n f w cancelled a e = a.all

mark-Leads :
    (h : String) (n : ℕ) (failure : List Call → Option Exn)
    → Leads (IsAbout h) (λ _. IsReady h) AllBacked (transact failure (mark_broadcast_attempted n))
unfolding transact
mark-Leads h n failure = record {
  at = λ w a.
      settle-IsReady h n (failure w.calls) (called commit w) (mark_broadcast_attempted n w.store)
        ((IsAbout-quiet h).after commit tt w a) refl;
}

module _ (p : Platform) where
  -- The transport sends only the transaction that it was made for.
  broadcast-IsReady :
      (s : PreparedSwap) → Keeps (IsReady s.transaction.tx_hash) (Transport.broadcast p s)
  unfolding Transport.broadcast
  broadcast-IsReady s =
      Keeps-bind _ _ (check_chain-Keeps (IsReady-quiet s.transaction.tx_hash) p s) (λ _.
        Keeps-bind _ _
          (Keeps-ask _ _ (λ w a. record {
            all = record { backed = (a.marked, a.all.backed) };
            marked = a.marked;
          }))
          (λ r. Keeps-lift _))

  finish_receipt-AllBacked :
      (e : PendingExecution) (r : Receipt) → Keeps AllBacked (finish_receipt p e r)
  unfolding finish_receipt utc_now
  finish_receipt-AllBacked e r =
      search (keeps_rules, Keeps-Silent AllBacked-quiet, transact-AllBacked, tt)

  received-AllBacked :
      (e : PendingExecution) (r : Option Receipt) → Keeps AllBacked (received p e r)
  unfolding received
  received-AllBacked e none = search keeps_rules
  received-AllBacked e (some r) = finish_receipt-AllBacked e r

  look_again-AllBacked :
      (e : PendingExecution) (s : PreparedSwap) → Keeps AllBacked (look_again p e s)
  unfolding look_again
  look_again-AllBacked e s =
      search (keeps_rules, lookup-Keeps AllBacked-quiet p s, received-AllBacked)

  after_broadcast-AllBacked :
      (e : PendingExecution) (s : PreparedSwap) (r : Option String)
      → Keeps AllBacked (after_broadcast p e s r)
  unfolding after_broadcast utc_now
  after_broadcast-AllBacked e s none = look_again-AllBacked e s
  after_broadcast-AllBacked e s (some r) =
      search
        (keeps_rules, Keeps-Silent AllBacked-quiet, transact-AllBacked, tt, look_again-AllBacked)

  -- From a journal with the same transaction, what is resent is backed.
  resend-Yields :
      (e : PendingExecution) (s : PreparedSwap) (allow : Bool)
      → Yields (IsAbout s.transaction.tx_hash) AllBacked (resend p e s allow)
  unfolding resend pure
  resend-Yields e s false = record { at = λ w a. a.all }
  resend-Yields e s true =
      Yields-bind (λ _. IsReady s.transaction.tx_hash) _ _
        (mark-Leads s.transaction.tx_hash e.run_id p.net.failure)
        (λ _.
          Yields-after _ _ (λ w a. a.all) (broadcast-IsReady s)
            (λ r.
              Yields-Keeps AllBacked _ (λ w a. a.all) (λ w a. a) (after_broadcast-AllBacked e s r)))

  without_receipt-Yields :
      (e : PendingExecution) (s : PreparedSwap) (allow : Bool)
      → Yields (IsAbout s.transaction.tx_hash) AllBacked (without_receipt p e s allow)
  unfolding without_receipt
  without_receipt-Yields e s allow =
      Yields-after _ _ (λ w a. a.all)
        (nonce_consumed-Keeps (IsAbout-quiet s.transaction.tx_hash) p s)
        (λ used.
          Yields-if used _ _
            (λ _. Yields-Keeps AllBacked _ (λ w a. a.all) (λ w a. a) (transact-AllBacked _ _))
            (λ _. resend-Yields e s allow))

  with_lookup-Yields :
      (e : PendingExecution) (s : PreparedSwap) (allow : Bool) (r : Option Receipt)
      → Yields (IsAbout s.transaction.tx_hash) AllBacked (with_lookup p e s allow r)
  unfolding with_lookup
  with_lookup-Yields e s allow none = without_receipt-Yields e s allow
  with_lookup-Yields e s allow (some r) =
      Yields-Keeps AllBacked _ (λ w a. a.all) (λ w a. a) (finish_receipt-AllBacked e r)

  settle_attempted-Yields :
      (e : PendingExecution) (s : PreparedSwap) (allow : Bool)
      → Yields (IsAbout s.transaction.tx_hash) AllBacked (settle_attempted p e s allow)
  unfolding settle_attempted
  settle_attempted-Yields e s allow =
      Yields-after _ _ (λ w a. a.all)
        (lookup_receipt-Keeps p (IsAbout-quiet s.transaction.tx_hash) s)
        (with_lookup-Yields e s allow)

  reconcile-Yields :
      (e : PendingExecution) (s : PreparedSwap) (allow : Bool)
      → Yields (IsAbout s.transaction.tx_hash) AllBacked (reconcile p e s allow)
  unfolding reconcile
  reconcile-Yields e s allow =
      Yields-after _ _ (λ w a. a.all) (enter-Keeps (IsAbout-quiet s.transaction.tx_hash) p s)
        (λ _.
          Yields-if e.broadcast_attempted _ _ (λ _. settle_attempted-Yields e s allow)
            (λ _. resend-Yields e s allow))

  note_failure-AllBacked : (e : PendingExecution) (x : Exn) → Keeps AllBacked (note_failure p e x)
  unfolding note_failure
  note_failure-AllBacked e x = search (keeps_rules, transact-AllBacked)

  redirect-transaction :
      (url : Option String) (s t : PreparedSwap)
      → redirect p url s ≡ ok t
      → t.transaction ≡ s.transaction
  unfolding redirect
  redirect-transaction none s t e = ground arith
  redirect-transaction (some u) s t e =
      (make_swap-transaction p.sdk u s.chain_id s.transaction t e).0

  -- The world in which an execution was read from the journal.
  abbrev IsRead : Option PendingExecution → World → Type 0
  IsRead none w = AllBacked w
  IsRead (some e) w = IsAbout e.prepared.transaction.tx_hash w

  reconcile_pending-Yields :
      (allow : Bool) (url : Option String) (e : Option PendingExecution)
      → Yields (IsRead e) AllBacked (reconcile_pending p allow url e)
  unfolding reconcile_pending
  reconcile_pending-Yields allow url none =
      Yields-Keeps AllBacked _ (λ w a. a) (λ w a. a) (search keeps_rules)
  reconcile_pending-Yields allow url (some e) =
      Yields-bind
        (λ s w. IsAbout e.prepared.transaction.tx_hash w × (redirect p url e.prepared ≡ ok s)) _ _
        (Leads-lift (redirect p url e.prepared) (λ w a. a.all))
        (λ s.
          Yields-try _ _
            (Yields-from _ _ (λ w a. record { all = a.0.all; hash = about s w a.0 a.1 })
              (Yields-before _ _ (reconcile-Yields e s allow) (λ r. Keeps-pure _)))
            (note_failure-AllBacked e))
    where
      about :
          (s : PreparedSwap) (w : World)
          → IsAbout e.prepared.transaction.tx_hash w
          → redirect p url e.prepared ≡ ok s
          → HasHash s.transaction.tx_hash w.store.slot
      about s w a r = rw (redirect-transaction url e.prepared s r) a.hash

  IsRead-world :
      (w : World) (e : Option PendingExecution)
      → AllBacked w
      → Storage.pending_execution p.sdk w.store ≡ ok e
      → IsRead e w
  IsRead-world w none a q = a
  IsRead-world w (some e) a q =
      let (row, at_slot, from) = pending_execution-IsReadFrom p.sdk w.store e q in
      record { all = a; hash = rw at_slot (sym from.hash) }

  -- As an invariant of the action.
  pub reconcile_execution-Keeps-AllBacked :
      (allow : Bool) (url : Option String) → Keeps AllBacked (reconcile_execution p allow url)
  unfolding reconcile_execution
  reconcile_execution-Keeps-AllBacked allow url = record {
    at = λ w a.
        (Yields-bind (λ e v. AllBacked v × (Storage.pending_execution p.sdk v.store ≡ ok e)) _ _
            (Leads-queries (Storage.pending_execution p.sdk) (λ v b. b))
            (λ e.
              Yields-from _ _ (λ v b. IsRead-world v e b.0 b.1)
                (reconcile_pending-Yields allow url e))).at
          w a;
  }

  -- If each broadcast so far was made while the journal's slot held a row with the broadcast
  -- transaction's hash, marked as attempted, then this is still so after `reconcile_execution`, with
  -- or without permission to broadcast, whatever the network and the commits answered and however
  -- it ended; each call is recorded with the database then on disk.
  pub reconcile_execution-AllBacked :
      (allow : Bool) (url : Option String) (w : World)
      → AllBacked w
      → AllBacked (reconcile_execution p allow url w).1
  reconcile_execution-AllBacked allow url w h =
      (reconcile_execution-Keeps-AllBacked allow url).at w h
