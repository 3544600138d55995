-- ===== src/Storage/Consistency/Changes.antt =====
-- The changes that the methods make to the tables (storage.py), each as a step from consistent
-- tables to consistent tables.
use xian_dex_automation.Base.{
  ℕ, suc, String, ◌≡◌, ◌≢◌, sym, ◌∙◌, Option, none, some, List, [], ◌∷◌, ◌++◌, arith,
}
use xian_dex_automation.Report.{Status, pending, outcome_unknown, Reason, Details, Json}
use xian_dex_automation.Storage.Tables.{
  Run, PendingRow, UncertainRow, find_run, update_run, find_uncertain, delete_uncertain,
}
use xian_dex_automation.Storage.Settlement.{set_details, to_uncertain}
use xian_dex_automation.Storage.Consistency.{entry, HasRun, Consistent}
use xian_dex_automation.Storage.Consistency.Rows.{
  restatus, entry-update_run, entry-set_details, given-update_run, given-set_details, given_weaken,
  found-le, find_uncertain-append, find_uncertain-delete_uncertain,
}

restatus-pending :
    (s : Status) (o : Option (Status × Option String)) (hash : Option String)
    → s ≢ pending
    → restatus s o ≢ some (pending, hash)
restatus-pending s none hash ns = ground arith
restatus-pending s (some (_, h)) hash ns = ground arith

-- The journal's run stays if every pending run does.
HasRun-mono :
    (slot : Option PendingRow) (runs runs' : List Run)
    → ((n : ℕ) (hash : Option String)
        → entry n runs ≡ some (pending, hash)
        → entry n runs' ≡ some (pending, hash))
    → HasRun slot runs
    → HasRun slot runs'
HasRun-mono none runs runs' h j = tt
HasRun-mono (some p) runs runs' h j = h p.run_id (some p.tx_hash) j

module _ (n : ℕ) (s : Status) (why : Reason) (d : Details) (runs : List Run) where
  entry-update_run_same :
      (old : Status) (hash : Option String)
      → entry n runs ≡ some (old, hash)
      → entry n (update_run n s why d runs) ≡ some (s, hash)
  entry-update_run_same old hash e = ground (arith, entry-update_run n n s why d runs)

  entry-update_run_other : (m : ℕ) → m ≢ n → entry m (update_run n s why d runs) ≡ entry m runs
  entry-update_run_other m ne = ground (arith, entry-update_run m n s why d runs)

  -- No pending run but those that were pending, of other ids.
  pending-update_run :
      (m : ℕ) (hash : Option String)
      → s ≢ pending
      → entry m (update_run n s why d runs) ≡ some (pending, hash)
      → (m ≢ n) × (entry m runs ≡ some (pending, hash))
  pending-update_run m hash ns e =
      ground (arith, entry-update_run m n s why d runs, restatus-pending s (entry m runs) hash ns)

module _ (k n : ℕ) (s : Status) (why : Reason) (d : Details) (runs : List Run)
    (ns : s ≢ pending) where
  -- The journal's run is settled, and its swap leaves the journal.
  pub Consistent-settled :
      (p : PendingRow) (us : List UncertainRow)
      → p.run_id ≡ n
      → Consistent k runs (some p) us
      → Consistent k (update_run n s why d runs) none us
  Consistent-settled p us e c = record {
    given = given-update_run k n s why d runs c.given;
    journal = tt;
    only = λ m hash f.
        let (ne, was) = pending-update_run n s why d runs m hash ns f in
        ground (arith, c.only m hash was);
    held = λ m u f. ground (arith, c.held m u f, entry-update_run_other n s why d runs m);
  }

  -- The same for one that goes to the uncertain executions.
  pub Consistent-released :
      (p : PendingRow) (us : List UncertainRow)
      → p.run_id ≡ n
      → s ≡ outcome_unknown
      → Consistent k runs (some p) us
      → Consistent k (update_run n s why d runs) none (us ++ to_uncertain p ∷ [])
  Consistent-released p us e so c = record {
    given = given-update_run k n s why d runs c.given;
    journal = tt;
    only = (Consistent-settled p us e c).only;
    held = λ m u f. ground (
      arith,
      find_uncertain-append m us (to_uncertain p),
      c.held m u,
      entry-update_run m n s why d runs,
    );
  }

  -- An uncertain execution is settled.
  pub Consistent-resolved :
      (slot : Option PendingRow) (u : UncertainRow) (us : List UncertainRow)
      → find_uncertain n us ≡ some u
      → Consistent k runs slot us
      → Consistent k (update_run n s why d runs) slot (delete_uncertain n us)
  Consistent-resolved slot u us e c = record {
    given = given-update_run k n s why d runs c.given;
    journal =
        HasRun-mono slot runs _
          (λ m hash f. ground (arith, c.held n u e, entry-update_run_other n s why d runs m))
          c.journal;
    only = λ m hash f. c.only m hash (pending-update_run n s why d runs m hash ns f).1;
    held = λ m u' f. ground (
      arith,
      find_uncertain-delete_uncertain m n us,
      c.held m u',
      entry-update_run_other n s why d runs m,
    );
  }

-- A note on a run.
pub Consistent-set_details :
    (k n : ℕ) (key : String) (v : Json) (runs : List Run) (slot : Option PendingRow)
    (us : List UncertainRow)
    → Consistent k runs slot us
    → Consistent k (set_details n key v runs) slot us
Consistent-set_details k n key v runs slot us c = record {
  given = given-set_details k n key v runs c.given;
  journal = HasRun-mono slot runs _ (λ m hash f. entry-set_details m n key v runs ∙ f) c.journal;
  only = λ m hash f. c.only m hash (sym (entry-set_details m n key v runs) ∙ f);
  held = λ m u f. entry-set_details m n key v runs ∙ c.held m u f;
}

-- A new run that is not pending.
pub Consistent-append :
    (k : ℕ) (r : Run) (runs : List Run) (slot : Option PendingRow) (us : List UncertainRow)
    → r.id ≡ suc k
    → r.status ≢ pending
    → Consistent k runs slot us
    → Consistent (suc k) (r ∷ runs) slot us
unfolding find_run
Consistent-append k r runs slot us e ns c = record {
  given = (omega arith, given_weaken k runs c.given);
  journal =
      HasRun-mono slot runs _
        (λ m hash f. ground (arith, found-le k m (pending, hash) runs c.given f)) c.journal;
  only = λ m hash f. ground (arith, c.only m hash);
  held = λ m u f.
      ground (arith, c.held m u f, found-le k m (outcome_unknown, some u.tx_hash) runs c.given);
}

-- A new run with a swap in the empty journal.
pub Consistent-begun :
    (k : ℕ) (r : Run) (runs : List Run) (p : PendingRow) (us : List UncertainRow)
    → r.id ≡ suc k
    → p.run_id ≡ suc k
    → r.status ≡ pending
    → r.tx_hash ≡ some p.tx_hash
    → Consistent k runs none us
    → Consistent (suc k) (r ∷ runs) (some p) us
unfolding find_run
Consistent-begun k r runs p us e ep es eh c = record {
  given = (omega arith, given_weaken k runs c.given);
  journal = ground arith;
  only = λ m hash f. ground (arith, c.only m hash);
  held = λ m u f.
      ground (arith, c.held m u f, found-le k m (outcome_unknown, some u.tx_hash) runs c.given);
}
