-- ===== src/Storage/Markets/Cursors.antt =====
-- Cursors before and after a save (storage.py).
use xian_dex_automation.Base.{
  ℕ, String, Bool, true, false, ◌≡◌, refl, Option, none, some, arith, str_eq, insert, lookup,
  lookup-insert, max, if◌then◌else◌,
}
use xian_dex_automation.Outcome.{ok}
use xian_dex_automation.Storage.Tables.{Database}
use xian_dex_automation.Storage.Markets.{get_cursor, save_cursor, advanced, flat}

-- The larger of a saved cursor and a new one.
abbrev pub later : Option ℕ → ℕ → ℕ
later none new = new
later (some old) new = max old new

advanced-later : (c : Option ℕ) (new : ℕ) → advanced c new ≡ some (later c new)
unfolding advanced
advanced-later none new = refl
advanced-later (some old) new = ground arith

abbrev new_cursors : String → ℕ → Database → Database
new_cursors name new db = record db {
  cursors = insert name (some (later (get_cursor name db) new)) db.cursors;
}

save_cursor-new :
    (name : String) (new : ℕ) (db : Database)
    → save_cursor name new db ≡ ok (tt, new_cursors name new db)
unfolding save_cursor
save_cursor-new name new db = rw (advanced-later) refl

flat-if :
    (b : Bool) (x : Option ℕ) (o : Option (Option ℕ))
    → flat (if b then some x else o) ≡ (if b then x else flat o)
flat-if true x o = refl
flat-if false x o = refl

get_cursor-new :
    (name other : String) (new : ℕ) (db : Database)
    → get_cursor other (new_cursors name new db)
      ≡ (if str_eq name other then some (later (get_cursor name db) new) else get_cursor other db)
unfolding get_cursor
get_cursor-new name other new db =
    rw (lookup-insert) (flat-if (str_eq name other) _ (lookup other db.cursors))

-- `save_cursor` always succeeds; `get_cursor` then returns, for the name that was saved, the larger
-- of the new cursor and the one that was there (the new one where there was none), and for each
-- other name what it returned before.
pub get-save_cursor :
    (name other : String) (new : ℕ) (db : Database)
    → (db' : Database) × (save_cursor name new db ≡ ok (tt, db'))
      × (get_cursor other db' ≡ (
          if str_eq name other then some (later (get_cursor name db) new) else get_cursor other db))
get-save_cursor name other new db =
    (new_cursors name new db, save_cursor-new name new db, get_cursor-new name other new db)
