-- ===== src/Config/Saving/Whole.antt =====
-- A configuration's file is never seen half written (config.py, `save_config`).
use xian_dex_automation.Base.{
  String, false, Option, some, [], lookup, insert, erase, lookup-insert, lookup-erase, ◌≡◌, ◌≢◌,
  refl, ◌⊎◌, inl, inr, arith, str_eq, eq_iff, eq_refl, All, Option-cases,
}
use xian_dex_automation.Outcome.{Outcome, ok, raised, cancelled, Exn}
use xian_dex_automation.Config.{AutomationConfig}
use xian_dex_automation.Config.Paths.{PathRules}
use xian_dex_automation.Config.Saving.{
  Files, Disk, FileSystem, changed, ◌>>=◌, ◌>>◌, save_text, edit, finish_edit, replace, moved,
  write_text, fill_and_replace, create, unlink_after, with_temporary, save_config,
}

module _ (target text : String) (old : Option String) where
  -- The file holds what it held before, or the whole new text.
  abbrev pub IsWhole : Files → Type 0
  IsWhole files = (lookup target files ≡ old) ⊎ (lookup target files ≡ some text)

  -- So it is now, and was at each point so far.
  pub record StaysWhole (d : Disk) : Type 0 where
    pub now : IsWhole d.files
    pub always : All IsWhole d.past

module _ (fs : FileSystem) where
  edit-cases :
      (f : Files → Files) (d : Disk)
      → (edit fs f d ≡ (ok tt, changed (f d.files) d)) ⊎ ((e : Exn) × (edit fs f d ≡ (raised e, d)))
  unfolding edit
  edit-cases f d = elim (Option-cases (fs.failure d.past)) [
    | inl e ↦ inl (rw (e, finish_edit))
    | inr (x, e) ↦ inr (x, rw (e, finish_edit))
  ]

module _ (fs : FileSystem) (temporary target text : String) (old : Option String) where
  module _ (fresh : str_eq temporary target ≡ false) where
    insert-IsWhole :
        (x : String) (files : Files)
        → IsWhole target text old files
        → IsWhole target text old (insert temporary x files)
    insert-IsWhole x files h = ground (arith, lookup-insert temporary target x files)

    erase-IsWhole :
        (files : Files)
        → IsWhole target text old files
        → IsWhole target text old (erase temporary files)
    erase-IsWhole files h = ground (arith, lookup-erase temporary target files)

    moved-IsWhole :
        (files : Files)
        → lookup temporary files ≡ some text
        → lookup target (moved fs temporary target (lookup temporary files) files) ≡ some text
    unfolding moved
    moved-IsWhole files e =
        rw e
          (ground (arith, lookup-insert target target text (erase temporary files), eq_refl target))

    -- The files have stayed whole, and if all went well the target has the new text.
    abbrev Saved : Outcome (Unit {0}) × Disk → Type 0
    Saved (r, d) = StaysWhole target text old d × ((r ≡ ok tt) → lookup target d.files ≡ some text)

    failed-Saved : (x : Exn) (d : Disk) → StaysWhole target text old d → Saved (raised x, d)
    failed-Saved x d h = (h, λ e. cc)

    stays :
        (files : Files) (d : Disk)
        → IsWhole target text old files
        → StaysWhole target text old d
        → StaysWhole target text old (changed files d)
    stays files d w h = record { now = w; always = (w, h.always) }

    fill_and_replace-Saved :
        (d : Disk)
        → StaysWhole target text old d
        → Saved (fill_and_replace fs temporary target text d)
    unfolding fill_and_replace write_text replace ◌>>=◌
    fill_and_replace-Saved d h0 =
        let first = insert temporary (fs.partial d.past text) in
        let d1 = changed (first d.files) d in
        let h1 = stays _ d (insert-IsWhole (fs.partial d.past text) d.files h0.now) h0 in
        let d2 = changed (insert temporary text d1.files) d1 in
        let h2 = stays _ d1 (insert-IsWhole text d1.files h1.now) h1 in
        let d3 = changed d2.files d2 in
        let h3 = stays _ d2 h2.now h2 in
        let full : lookup temporary d3.files ≡ some text =
          ground (arith, lookup-insert temporary temporary text d1.files, eq_refl temporary) in
        let done = moved-IsWhole d3.files full in
        elim (edit-cases fs first d) [
          | inr (x, e) ↦ rw e (failed-Saved x d h0)
          | inl e1 ↦ elim (edit-cases fs (insert temporary text) d1) [
            | inr (x, e) ↦ rw (e1, e) (failed-Saved x d1 h1)
            | inl e2 ↦ elim (edit-cases fs (λ files. files) d2) [
              | inr (x, e) ↦ rw (e1, e2, e) (failed-Saved x d2 h2)
              | inl e3 ↦
                  elim (edit-cases fs
                    (λ files. moved fs temporary target (lookup temporary files) files) d3) [
                      | inr (x, e) ↦ rw (e1, e2, e3, e) (failed-Saved x d3 h3)
                      | inl e4 ↦ rw (e1, e2, e3, e4) (stays _ d3 (inr done) h3, λ _. done)
                    ]
            ]
          ]
        ]

    -- Closing up keeps the file, whatever came before.
    unlink_after-Saved :
        (r : Outcome (Unit {0})) (d : Disk)
        → Saved (r, d)
        → Saved (unlink_after fs temporary (r, d))
    unfolding unlink_after
    unlink_after-Saved r d (h, new) = elim (edit-cases fs (erase temporary) d) [
      | inr (x, e) ↦ rw e (failed-Saved x d h)
      | inl e ↦ rw e (
        stays _ d (erase-IsWhole d.files h.now) h,
        λ went. ground (arith, new went, lookup-erase temporary target d.files),
      )
    ]

    create_and_fill-Saved :
        (d : Disk)
        → StaysWhole target text old d
        → Saved ((create fs temporary >> with_temporary fs temporary target text) d)
    unfolding create with_temporary ◌>>=◌
    create_and_fill-Saved d h = elim (edit-cases fs (insert temporary "") d) [
      | inr (x, e) ↦ rw e (failed-Saved x d h)
      | inl e ↦
          let d1 = changed (insert temporary "" d.files) d in
          let filled = fill_and_replace-Saved d1 (stays _ d (insert-IsWhole "" d.files h.now) h) in
          rw e (unlink_after-Saved _ _ filled)
    ]

-- A save that ended well has put the text there.
abbrev pub IsSaved : String → String → Outcome (Unit {0}) → Files → Type 0
IsSaved target text (ok _) files = lookup target files ≡ some text
IsSaved target text _ files = Unit {0}

IsSaved-of :
    (target text : String) (r : Outcome (Unit {0})) (files : Files)
    → ((r ≡ ok tt) → lookup target files ≡ some text)
    → IsSaved target text r files
IsSaved-of target text (ok _) files h = h refl
IsSaved-of target text (raised e) files h = tt
IsSaved-of target text cancelled files h = tt

-- With a temporary file whose name is not the configuration's, whatever step of `save_config` fails,
-- and wherever the process dies: the file under the configuration's path holds what it held before
-- or the whole rendering of the new configuration; if `save_config` returns, it holds the rendering.
pub save_config-IsWhole :
    (fs : FileSystem) (paths : PathRules) (render : AutomationConfig → String)
    (config : AutomationConfig) (path : String) (files : Files)
    → fs.new_name [] (paths.resolve path) ≢ paths.resolve path
    → let target = paths.resolve path in
      let (r, d) = save_config fs paths render config path (record { files = files; past = [] }) in
      StaysWhole target (render config) (lookup target files) d
      × IsSaved target (render config) r d.files
unfolding save_config save_text
save_config-IsWhole fs paths render config path files fresh =
    let target = paths.resolve path in
    let apart : str_eq (fs.new_name [] target) target ≡ false =
      ground (arith, eq_iff (fs.new_name [] target) target) in
    let (whole, saved) =
      create_and_fill-Saved fs (fs.new_name [] target) target (render config) (lookup target files)
        apart (record { files = files; past = [] }) (record { now = inl refl; always = tt }) in
    (whole, IsSaved-of target (render config) _ _ saved)
