-- ===== src/Storage/Consistency/Rows.antt =====
-- The statements on rows, as seen through the primary keys.
use xian_dex_automation.Base.{
  ℕ, suc, ◌≤◌, String, ◌≡◌, refl, ◌==◌, if◌then◌else◌, Option, none, some, List, [], ◌∷◌, ◌++◌, All,
  arith,
}
use xian_dex_automation.Report.{Status, Reason, Details, Json}
use xian_dex_automation.Storage.Tables.{
  Run, UncertainRow, find_run, update_run, find_uncertain, delete_uncertain,
}
use xian_dex_automation.Storage.Consistency.{entry}
use xian_dex_automation.Storage.Settlement.{set_details}

-- The entry with another status.
abbrev pub restatus : Status → Option (Status × Option String) → Option (Status × Option String)
restatus s none = none
restatus s (some (_, hash)) = some (s, hash)

pub entry-update_run :
    (m n : ℕ) (s : Status) (why : Reason) (d : Details) (runs : List Run)
    → entry m (update_run n s why d runs)
      ≡ (if m == n then restatus s (entry m runs) else entry m runs)
unfolding find_run update_run
entry-update_run m n s why d [] = ground arith
entry-update_run m n s why d (r ∷ rs) = ground (arith, entry-update_run m n s why d rs)

pub entry-set_details :
    (m n : ℕ) (k : String) (v : Json) (runs : List Run)
    → entry m (set_details n k v runs) ≡ entry m runs
unfolding find_run set_details
entry-set_details m n k v [] = refl
entry-set_details m n k v (r ∷ rs) = ground (arith, entry-set_details m n k v rs)

pub given-set_details :
    (j n : ℕ) (k : String) (v : Json) (runs : List Run)
    → All (λ (r : Run). r.id ≤ j) runs
    → All (λ (r : Run). r.id ≤ j) (set_details n k v runs)
unfolding set_details
given-set_details j n k v [] h = tt
given-set_details j n k v (r ∷ rs) h = ground (arith, given-set_details j n k v rs)

pub given-update_run :
    (k n : ℕ) (s : Status) (why : Reason) (d : Details) (runs : List Run)
    → All (λ (r : Run). r.id ≤ k) runs
    → All (λ (r : Run). r.id ≤ k) (update_run n s why d runs)
unfolding update_run
given-update_run k n s why d [] h = tt
given-update_run k n s why d (r ∷ rs) h = ground (arith, given-update_run k n s why d rs)

pub given_weaken :
    (k : ℕ) (runs : List Run)
    → All (λ (r : Run). r.id ≤ k) runs
    → All (λ (r : Run). r.id ≤ suc k) runs
given_weaken k [] h = tt
given_weaken k (r ∷ rs) h = (omega arith, given_weaken k rs h.1)

-- The id of a run that is found was given out.
pub found-le :
    (k n : ℕ) (e : Status × Option String) (runs : List Run)
    → All (λ (x : Run). x.id ≤ k) runs
    → entry n runs ≡ some e
    → n ≤ k
unfolding find_run
found-le k n r [] h e = ground arith
found-le k n r (x ∷ xs) h e = ground (arith, found-le k n r xs)

pub find_uncertain-append :
    (n : ℕ) (us : List UncertainRow) (u : UncertainRow)
    → find_uncertain n (us ++ u ∷ []) ≡ elim (find_uncertain n us) [
      | some x ↦ some x
      | none ↦ if u.run_id == n then some u else none
    ]
unfolding find_uncertain
find_uncertain-append n [] u = ground arith
find_uncertain-append n (x ∷ us) u = ground (arith, find_uncertain-append n us u)

pub find_uncertain-delete_uncertain :
    (n m : ℕ) (us : List UncertainRow)
    → find_uncertain n (delete_uncertain m us) ≡ (if n == m then none else find_uncertain n us)
unfolding find_uncertain delete_uncertain
find_uncertain-delete_uncertain n m [] = ground arith
find_uncertain-delete_uncertain n m (x ∷ us) =
    ground (arith, find_uncertain-delete_uncertain n m us)
