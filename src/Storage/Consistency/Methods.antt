-- ===== src/Storage/Consistency/Methods.antt =====
-- The store's methods (storage.py) as steps of the journal.
use xian_dex_automation.Base.{
  ℕ, suc, String, ◌≡◌, ◌≢◌, refl, sym, subst, Bool, true, false, if◌then◌else◌, ◌++◌, Option-cases,
  inl, inr, Option, none, some, List, [], ◌∷◌, arith,
}
use xian_dex_automation.Outcome.{Outcome, ok, raised, cancelled, ◌>>=◌}
use xian_dex_automation.Decimal.{Decimal}
use xian_dex_automation.Time.{Instant}
use xian_dex_automation.Config.{AutomationConfig}
use xian_dex_automation.Submission.{PreparedSwap}
use xian_dex_automation.Report.{text, Status, pending, Reason, Details}
use xian_dex_automation.Storage.Tables.{
  Run, PendingRow, UncertainRow, Database, Transaction, find_run, find_uncertain, append_row,
  update_run,
}
use xian_dex_automation.Storage.Markets.{
  append_run, save_rule_state, save_cursor, save_active_config, reset_changed_markets,
  market_changed,
}
use xian_dex_automation.Storage.Journal.{begin_execution, insert_slot}
use xian_dex_automation.Storage.Settlement.{
  release_consumed_execution, resolve_uncertain_execution, mark_broadcast_attempted, released,
  note_execution_error, finish_execution, active_row, slot_row, row_and_run, insert_uncertain,
  uncertain_run, finished_state, mark_slot, slot_holds, to_uncertain, released, set_details,
  execution_result,
}
use xian_dex_automation.Storage.Consistency.{Consistent, IsConsistent}
use xian_dex_automation.Storage.Consistency.Phases.{
  IsMethod, Phase, idle, busy, phase, PhaseStep, stay, sign, attempt, leave, Follows, append,
  save_state, save_at, save_config, begin, mark, note, finish, release, resolve,
}
use xian_dex_automation.Storage.Consistency.Changes.{
  Consistent-settled, Consistent-released, Consistent-resolved, Consistent-set_details,
  Consistent-append, Consistent-begun,
}

abbrev Leaves : {A : Type 0} → Database → Outcome (A × Database) → Type 0
Leaves db (ok (_, db')) = Follows db db'
Leaves db _ = Unit

bind-Leaves :
    {A B : Type 0} (db : Database) (m : Outcome B) (k : B → Outcome (A × Database))
    → ((b : B) → m ≡ ok b → Leaves db (k b))
    → Leaves db (m >>= k)
bind-Leaves db (ok b) k h = h b refl
bind-Leaves db (raised e) k h = tt
bind-Leaves db cancelled k h = tt

-- The status of a settled execution.
execution_result-Final :
    (rule_id : String) (hash : Option String) (why : Reason) (d : Details) (success : Bool)
    (error : Option String)
    → (execution_result rule_id hash why d success error).status ≢ pending
unfolding execution_result
execution_result-Final rule_id hash why d true error e = ground arith
execution_result-Final rule_id hash why d false error e = ground arith

module _ (db : Database) (c : IsConsistent db) where
  append_run-Leaves :
      (rule_id : String) (s : Status) (why : Reason) (hash : Option String) (d : Details)
      (now : Instant)
      → s ≢ pending
      → Leaves db (append_run rule_id s why hash d now db)
  unfolding append_run append_row
  append_run-Leaves rule_id s why hash d now ns = record {
    consistent = Consistent-append db.sequence _ db.runs db.slot db.uncertain refl ns c;
    step = stay _;
  }

  either-Follows :
      (b : Bool) (x y : Database) → Follows db x → Follows db y → Follows db (if b then x else y)
  either-Follows true x y hx hy = hx
  either-Follows false x y hx hy = hy

  save_active_config-Leaves :
      (config previous : AutomationConfig) → Leaves db (save_active_config config previous db)
  unfolding save_active_config reset_changed_markets
  save_active_config-Leaves config previous =
      either-Follows (market_changed previous config) _ _ (record { consistent = c; step = stay _ })
        (record { consistent = c; step = stay _ })

  inserted-Leaves :
      {A : Type 0} (slot : Option PendingRow) (p : PendingRow) (r : Run) (made : A)
      → db.slot ≡ slot
      → r.id ≡ suc db.sequence
      → p.run_id ≡ suc db.sequence
      → r.status ≡ pending
      → r.tx_hash ≡ some p.tx_hash
      → p.broadcast_attempted ≡ false
      → Leaves db (do
        db' ← insert_slot slot p (record db { sequence = suc db.sequence; runs = r ∷ db.runs })
        ok (made, db'))
  unfolding insert_slot
  inserted-Leaves none p r made e i j s h a = record {
    consistent =
        Consistent-begun db.sequence r db.runs p db.uncertain i j s h
          (subst (λ x. Consistent db.sequence db.runs x db.uncertain) e c);
    step =
        subst (λ x. PhaseStep (phase x) (busy p.broadcast_attempted p.tx_hash)) (sym e)
          (subst (λ b. PhaseStep idle (busy b p.tx_hash)) (sym a) (sign p.tx_hash));
  }
  inserted-Leaves (some old) p r made e i j s h a = tt

  begin_execution-Leaves :
      (rule_id : String) (s : PreparedSwap) (next : Option Decimal) (why : Reason) (d : Details)
      (now : Instant)
      → Leaves db (begin_execution rule_id s next why d now db)
  unfolding begin_execution append_row
  begin_execution-Leaves rule_id s next why d now =
      inserted-Leaves db.slot _ _ _ refl refl refl refl refl refl

  mark_slot-row :
      (n : ℕ) (slot : Option PendingRow) (p : PendingRow)
      → mark_slot n slot ≡ ok p
      → (row : PendingRow) × (slot ≡ some row) × (p ≡ record row { broadcast_attempted = true })
  unfolding mark_slot
  mark_slot-row n none p e = ground arith
  mark_slot-row n (some row) p e = (row, refl, ground arith)

  -- The mark on the journal's row.
  marked-Follows :
      (row : PendingRow)
      → db.slot ≡ some row
      → Follows db (record db { slot = some (record row { broadcast_attempted = true }) })
  marked-Follows row e =
      let c' = subst (λ x. Consistent db.sequence db.runs x db.uncertain) e c in
      record {
        consistent = record {
          given = c'.given;
          journal = c'.journal;
          only = c'.only;
          held = c'.held;
        };
        step =
            subst (λ x. PhaseStep (phase x) (Phase.attempted row.tx_hash)) (sym e)
              (attempt row.broadcast_attempted row.tx_hash);
      }

  mark_broadcast_attempted-Leaves : (n : ℕ) → Leaves db (mark_broadcast_attempted n db)
  unfolding mark_broadcast_attempted
  mark_broadcast_attempted-Leaves n = bind-Leaves db (mark_slot n db.slot) _ (λ p e.
      let (row, at_slot, marked) = mark_slot-row n db.slot p e in
      subst (λ x. Follows db (record db { slot = some x })) (sym marked)
        (marked-Follows row at_slot))

  note_execution_error-Leaves :
      (n : ℕ) (error : String) → Leaves db (note_execution_error n error db)
  unfolding note_execution_error
  note_execution_error-Leaves n error = record {
    consistent =
        elim (slot_holds n db.slot)
          as (λ b.
            Consistent db.sequence
              (if b then set_details n "recovery_error" (text error) db.runs else db.runs) db.slot
              db.uncertain) [
                | true ↦ Consistent-set_details db.sequence n _ _ db.runs db.slot db.uncertain c
                | false ↦ c
              ];
    step = stay _;
  }

  -- The row that `active_row` finds is the journal's, of that run.
  slot_row-slot :
      (n : ℕ) (slot : Option PendingRow) (found : PendingRow × Run)
      → slot_row n slot db.runs ≡ ok found
      → (slot ≡ some found.0) × (found.0.run_id ≡ n)
  unfolding slot_row row_and_run
  slot_row-slot n none found e = ground arith
  slot_row-slot n (some p) found e = elim (Option-cases (find_run n db.runs)) [
    | inl missing ↦ ground arith
    | inr (r, at_id) ↦ ground arith
  ]

  finish_execution-Leaves :
      (n : ℕ) (success : Bool) (now : Instant) (error : Option String)
      → Leaves db (finish_execution n success now error db)
  unfolding finish_execution active_row
  finish_execution-Leaves n success now error =
      bind-Leaves db (slot_row n db.slot db.runs) _ (λ found e.
        bind-Leaves db
          (finished_state success found.1.rule_id found.0.next_baseline_price now db.rule_state) _
          (λ states _.
            let (at_slot, of_run) = slot_row-slot n db.slot found e in
            record {
              consistent =
                  Consistent-settled db.sequence n _ _ _ db.runs
                    (execution_result-Final found.1.rule_id (some found.0.tx_hash) found.1.reason
                      found.1.details success error)
                    found.0 db.uncertain of_run
                    (subst (λ x. Consistent db.sequence db.runs x db.uncertain) at_slot c);
              step = leave _;
            }))

  insert_uncertain-rows :
      (p : PendingRow) (us held : List UncertainRow)
      → insert_uncertain p us ≡ ok held
      → held ≡ us ++ to_uncertain p ∷ []
  unfolding insert_uncertain
  insert_uncertain-rows p us held e = elim (Option-cases (find_uncertain p.run_id us)) [
    | inl missing ↦ ground arith
    | inr (u, taken) ↦ ground arith
  ]

  release_consumed_execution-Leaves : (n : ℕ) → Leaves db (release_consumed_execution n db)
  unfolding release_consumed_execution active_row
  release_consumed_execution-Leaves n = bind-Leaves db (slot_row n db.slot db.runs) _ (λ found e.
      bind-Leaves db (insert_uncertain found.0 db.uncertain) _ (λ held e'.
        let (at_slot, of_run) = slot_row-slot n db.slot found e in
        record {
          consistent =
              subst
                (λ x.
                  Consistent db.sequence
                    (update_run n (released found.0 found.1).status
                      (released found.0 found.1).reason (released found.0 found.1).details db.runs)
                    none x)
                (sym (insert_uncertain-rows found.0 db.uncertain held e'))
                (Consistent-released db.sequence n _ _ _ db.runs (λ x. ground arith) found.0
                  db.uncertain of_run refl
                  (subst (λ x. Consistent db.sequence db.runs x db.uncertain) at_slot c));
          step = leave _;
        }))

  uncertain_run-row :
      (u : Option UncertainRow) (r : Option Run) (found : Run)
      → uncertain_run u r ≡ ok found
      → (row : UncertainRow) × (u ≡ some row)
  unfolding uncertain_run
  uncertain_run-row (some u) r found e = (u, refl)
  uncertain_run-row none r found e = ground arith

  resolve_uncertain_execution-Leaves :
      (n : ℕ) (success : Bool) (error : Option String) (now : Instant)
      → Leaves db (resolve_uncertain_execution n success error now db)
  unfolding resolve_uncertain_execution
  resolve_uncertain_execution-Leaves n success error now =
      bind-Leaves db (uncertain_run (find_uncertain n db.uncertain) (find_run n db.runs)) _ (λ r e.
        let (row, at_row) = uncertain_run-row _ _ r e in
        record {
          consistent =
              Consistent-resolved db.sequence n _ _ _ db.runs
                (execution_result-Final r.rule_id r.tx_hash r.reason r.details success error)
                db.slot row db.uncertain at_row c;
          step = stay _;
        })

IsMethod-Leaves :
    (A : Type 0) (t : Transaction A)
    → IsMethod A t
    → (db : Database) → IsConsistent db
    → Leaves db (t db)
unfolding save_rule_state save_cursor
IsMethod-Leaves _ _ (append rule_id s why hash d now ns) db c =
    append_run-Leaves db c rule_id s why hash d now ns
IsMethod-Leaves _ _ (save_state rule_id s) db c = record { consistent = c; step = stay _ }
IsMethod-Leaves _ _ (save_at name n) db c = record { consistent = c; step = stay _ }
IsMethod-Leaves _ _ (save_config config previous) db c =
    save_active_config-Leaves db c config previous
IsMethod-Leaves _ _ (begin rule_id s next why d now) db c =
    begin_execution-Leaves db c rule_id s next why d now
IsMethod-Leaves _ _ (mark n) db c = mark_broadcast_attempted-Leaves db c n
IsMethod-Leaves _ _ (note n error) db c = note_execution_error-Leaves db c n error
IsMethod-Leaves _ _ (finish n success now error) db c =
    finish_execution-Leaves db c n success now error
IsMethod-Leaves _ _ (release n) db c = release_consumed_execution-Leaves db c n
IsMethod-Leaves _ _ (resolve n success error now) db c =
    resolve_uncertain_execution-Leaves db c n success error now

-- A method of the store that writes, and that succeeds on a consistent database, leaves a consistent
-- database, and the journal, seen as idle or as holding one transaction signed or attempted, makes
-- one of its steps: it stays, takes a transaction while idle, marks its transaction as attempted,
-- or becomes idle. Of a run that is appended on its own the status is not `pending`.
pub IsMethod-Follows :
    (A : Type 0) (t : Transaction A)
    → IsMethod A t
    → (db : Database) (a : A) (db' : Database) → IsConsistent db
    → t db ≡ ok (a, db')
    → Follows db db'
IsMethod-Follows A t m db a db' c e = subst (Leaves db) e (IsMethod-Leaves A t m db c)
