-- ===== src/Execution/Settles.antt =====
-- That recovery settles a swap whose receipt the chain has (execution.py).
use xian_dex_automation.Base.{
  String, Bool, true, false, ◌≡◌, refl, sym, ap, subst, ◌∙◌, Option, Option-cases, inl, inr, none,
  some, List, eq_iff, eq_refl, arith, if◌then◌else◌,
}
use xian_dex_automation.Outcome.{Outcome, ok}
use xian_dex_automation.Decimal.{Decimal}
use xian_dex_automation.Time.{Instant}
use xian_dex_automation.Report.{Report, Status, submitted, failed}
use xian_dex_automation.Submission.{PendingExecution, PreparedSwap}
use xian_dex_automation.Runtime.{
  Platform, World, Call, Request, Receipt, ask, lift, pure, queries, try_except, catch_with,
  utc_now,
}
use xian_dex_automation.Runtime.Ends.{step, transact-ok}
use xian_dex_automation.Runtime.Keeps.{called}
use xian_dex_automation.Transport
use xian_dex_automation.Transport.{check_chain, same_chain, read_receipt}
use xian_dex_automation.Execution.{
  resend, note_failure, finish_receipt, lookup_receipt, with_lookup, settle_attempted, reconcile,
  reconcile_pending, reconcile_execution, redirect,
}
use xian_dex_automation.Storage.Tables.{Database, PendingRow, Run, find_run}
use xian_dex_automation.Storage.Settlement.{
  finish_execution, active_row, slot_row, row_and_run, finished_state, execution_result,
}
use xian_dex_automation.Storage
use xian_dex_automation.Storage.Journal.Reading.{pending_execution-IsReadFrom}
use xian_dex_automation.Storage.Consistency.{IsConsistent, Consistent}

-- The status of a receipt.
abbrev pub settled_as : Bool → Status
settled_as true = submitted
settled_as false = failed

-- What the end of an execution leaves.
pub record Finished (success : Bool) (o : Outcome (Report × Database)) : Type 0 where
  pub result : Report
  pub store : Database
  pub returned : o ≡ ok (result, store)
  pub status : result.status ≡ settled_as success
  pub empty : store.slot ≡ none

-- The journal's swap has its run.
active_row-slot :
    (row : PendingRow) (db : Database)
    → db.slot ≡ some row
    → IsConsistent db
    → (r : Run) × (active_row row.run_id db ≡ ok (row, r))
unfolding active_row slot_row row_and_run
active_row-slot row db s c =
    let c' = subst (λ x. Consistent db.sequence db.runs x db.uncertain) s c in
    elim (Option-cases (find_run row.run_id db.runs)) [
      | inl missing ↦ ground (arith, c'.journal)
      | inr (r, f) ↦ (r, ground arith)
    ]

finish_execution-Finished :
    (success : Bool) (now : Instant) (error : Option String) (row : PendingRow) (price : Decimal)
    (db : Database)
    → db.slot ≡ some row
    → row.next_baseline_price ≡ some price
    → IsConsistent db
    → Finished success (finish_execution row.run_id success now error db)
unfolding finish_execution finished_state execution_result
finish_execution-Finished true now error row price db s b c =
    let (r, active) = active_row-slot row db s c in
    rw active
      (rw b (record { result = _; store = _; returned = refl; status = refl; empty = refl }))
finish_execution-Finished false now error row price db s b c =
    let (r, active) = active_row-slot row db s c in
    rw active (record { result = _; store = _; returned = refl; status = refl; empty = refl })

some-inj : (a b : PendingRow) → some a ≡ some b → a ≡ b
some-inj a b e = ground arith

module _ (p : Platform) (s : PreparedSwap) (r : Receipt)
    (chain : (h : List Call) → p.net.chain_id h s.rpc_url ≡ ok s.chain_id)
    (receipt : (h : List Call) → p.net.wait_for_tx h s.rpc_url s.transaction.tx_hash ≡ ok (some r))
    (own : r.tx_hash ≡ s.transaction.tx_hash) where
  same_chain-own : same_chain p s s.chain_id ≡ ok tt
  unfolding same_chain
  same_chain-own = ground (arith, eq_refl s.chain_id)

  read_receipt-own : read_receipt s.transaction.tx_hash (some r) ≡ ok (some r)
  unfolding read_receipt
  read_receipt-own = ground (arith, eq_iff r.tx_hash s.transaction.tx_hash)

  -- The world after the two calls of a lookup.
  abbrev looked : World → World
  looked w =
      called (Request.wait_for_tx s.rpc_url s.transaction.tx_hash)
        (called (Request.chain_id s.rpc_url) w)

  check_chain-own : (w : World) → check_chain p s w ≡ (ok tt, called (Request.chain_id s.rpc_url) w)
  unfolding check_chain ask lift
  check_chain-own w =
      step _ _ s.chain_id w (called (Request.chain_id s.rpc_url) w)
        (ap (λ o. (o, called (Request.chain_id s.rpc_url) w)) (chain w.calls))
      ∙ ap (λ o. (o, called (Request.chain_id s.rpc_url) w)) same_chain-own

  lookup-own : (w : World) → Transport.lookup p s w ≡ (ok (some r), looked w)
  unfolding Transport.lookup ask lift
  lookup-own w =
      step _ _ tt w (called (Request.chain_id s.rpc_url) w) (check_chain-own w)
      ∙ step _ _ (some r) (called (Request.chain_id s.rpc_url) w) (looked w)
          (ap (λ o. (o, looked w)) (receipt (called (Request.chain_id s.rpc_url) w).calls))
      ∙ ap (λ o. (o, looked w)) read_receipt-own

  lookup_receipt-own : (w : World) → lookup_receipt p s w ≡ (ok (some r), looked w)
  unfolding lookup_receipt try_except catch_with
  lookup_receipt-own w = ap (catch_with (λ _. pure none)) (lookup-own w)

  -- The receipt settles an execution that was attempted.
  module _ (e : PendingExecution) (row : PendingRow) (price : Decimal) (run : e.run_id ≡ row.run_id)
      (base : row.next_baseline_price ≡ some price)
      (sound : (h : List Call) → p.net.failure h ≡ none) where
    -- The execution is settled, and the action has returned its report.
    abbrev Settled : {A : Type 0} → (Report → A) → Outcome A × World → Type 0
    Settled f x =
        (result : Report) × (v : World) × (x ≡ (ok (f result), v))
        × (result.status ≡ settled_as r.success)
        × (v.store.slot ≡ none)

    finish_receipt-Settled :
        (w : World)
        → w.store.slot ≡ some row
        → IsConsistent w.store
        → Settled (λ x. x) (finish_receipt p e r w)
    unfolding finish_receipt utc_now ask
    finish_receipt-Settled w at c =
        let now = p.net.clock w.calls in
        let f = finish_execution-Finished r.success now r.message row price w.store at base c in
        (
          f.result,
          _,
          step _ _ now w (called Request.read_clock w) refl
              ∙ transact-ok p.net.failure (finish_execution e.run_id r.success now r.message)
                  (called Request.read_clock w) f.result f.store
                  (ap (λ n. finish_execution n r.success now r.message w.store) run ∙ f.returned)
                  (sound _),
          f.status,
          f.empty,
        )

    reconcile-Settled :
        (allow : Bool) (w : World)
        → e.broadcast_attempted ≡ true
        → ((h : List Call) → p.net.connect h s.rpc_url ≡ ok tt)
        → w.store.slot ≡ some row
        → IsConsistent w.store
        → Settled (λ x. x) (reconcile p e s allow w)
    unfolding reconcile settle_attempted with_lookup Transport.enter ask
    reconcile-Settled allow w attempted connects at c =
        let w' = called (Request.connect s.rpc_url) w in
        let (result, v, ends, status, empty) = finish_receipt-Settled (looked w') at c in
        (
          result,
          v,
          step _ _ tt w w' (ap (λ o. (o, w')) (connects w.calls))
              ∙ ap (λ b. (if b then settle_attempted p e s allow else resend p e s allow) w')
                  attempted
              ∙ step _ (with_lookup p e s allow) (some r) w' (looked w') (lookup_receipt-own w')
              ∙ ends,
          status,
          empty,
        )

-- With the journal's swap marked as attempted, in a consistent store, a next baseline in its row, an
-- endpoint that answers with the swap's chain and with a receipt of its transaction, and commits
-- that work, `reconcile_execution` returns a report, with or without permission to broadcast; the
-- report says `submitted` or `failed` as the receipt does, and the journal is empty.
pub reconcile_execution-Settled :
    (p : Platform) (allow : Bool) (w : World) (row : PendingRow) (e : PendingExecution)
    (r : Receipt) (price : Decimal)
    → IsConsistent w.store
    → w.store.slot ≡ some row
    → row.next_baseline_price ≡ some price
    → row.broadcast_attempted ≡ true
    → Storage.pending_execution p.sdk w.store ≡ ok (some e)
    → ((h : List Call) → p.net.connect h e.prepared.rpc_url ≡ ok tt)
    → ((h : List Call) → p.net.chain_id h e.prepared.rpc_url ≡ ok e.prepared.chain_id)
    → ((h : List Call)
        → p.net.wait_for_tx h e.prepared.rpc_url e.prepared.transaction.tx_hash ≡ ok (some r))
    → r.tx_hash ≡ e.prepared.transaction.tx_hash
    → ((h : List Call) → p.net.failure h ≡ none)
    → (result : Report) × (v : World) × (reconcile_execution p allow none w ≡ (ok (some result), v))
      × (result.status ≡ settled_as r.success)
      × (v.store.slot ≡ none)
unfolding reconcile_execution reconcile_pending redirect queries lift pure try_except catch_with
reconcile_execution-Settled p allow w row e r price c at base marked read connects chain receipt own
      sound =
    let (row', at', from) = pending_execution-IsReadFrom p.sdk w.store e read in
    let same = some-inj row' row (sym at' ∙ at) in
    let (result, v, ends, status, empty) =
      reconcile-Settled p e.prepared r chain receipt own e row price
        (from.run ∙ ap (λ x. x.run_id) same) base sound allow w
        (from.attempted ∙ ap (λ x. x.broadcast_attempted) same ∙ marked) connects at c in
    (
      result,
      v,
      step _ _ (some e) w w (ap (λ o. (o, w)) read)
          ∙ step _ _ e.prepared w w refl
          ∙ ap (catch_with (note_failure p e)) (step _ _ result w v ends),
      status,
      empty,
    )
