-- ===== src/Config/Saving.antt =====
-- The writing and the reading of a configuration's file (src/xian_dex_automation/config.py,
-- `save_config` and `load_config`). Each step on the file system may fail; the contents of the files
-- are recorded at each point at which the process may die. The name of a temporary file, the
-- rendering to YAML and what a broken write leaves are parameters.
pub mod Whole
pub mod RoundTrip
use xian_dex_automation.Base.{
  String, Bool, true, false, Option, none, some, List, [], ◌∷◌, Dict, lookup, insert, erase,
}
use xian_dex_automation.Outcome.{Outcome, ok, raised, cancelled, Exn, exn}
use xian_dex_automation.Outcome
use xian_dex_automation.Config.{AutomationConfig}
use xian_dex_automation.Config.Paths.{PathRules, parse_config_text}

abbrev pub Files : Type 0
Files = Dict String

-- The files, and what they were at each point so far, newest first.
pub record Disk : Type 0 where
  pub files : Files
  pub past : List Files

-- What the file system answers after a history: the error of a step, the name of a new temporary
-- file, and what a file holds while it is being written.
pub record FileSystem : Type 0 where
  pub failure : List Files → Option Exn
  pub new_name : List Files → String → String
  pub partial : List Files → String → String

abbrev pub FileAction : Type 0 → Type 0
FileAction A = Disk → Outcome A × Disk

-- The disk after a change of the files, which is a point at which the process may die.
abbrev pub changed : Files → Disk → Disk
changed files d = record { files = files; past = files ∷ d.past }

module _ {A : Type 0} where
  unfoldable pub pure : A → FileAction A
  pure a d = (ok a, d)

  -- `try: m finally: close()`; an error of `close` takes the place of the one at hand.
  abbrev pub closed : Outcome A → Outcome (Unit {0}) × Disk → Outcome A × Disk
  closed r (ok _, d) = (r, d)
  closed r (raised e, d) = (raised e, d)
  closed r (cancelled, d) = (cancelled, d)

module _ {A B : Type 0} where
  unfoldable pub continue : (A → FileAction B) → Outcome A × Disk → Outcome B × Disk
  continue f (ok a, d) = f a d
  continue f (raised e, d) = (raised e, d)
  continue f (cancelled, d) = (cancelled, d)

  infixl 5 ◌>>=◌ ◌>>◌
  unfoldable pub ◌>>=◌ : FileAction A → (A → FileAction B) → FileAction B
  unfolding continue pure
  ◌>>=◌ m f d = continue f (m d)

  abbrev pub ◌>>◌ : FileAction A → FileAction B → FileAction B
  m >> k = m >>= λ _. k

module _ (fs : FileSystem) where
  -- A step that changes the files, or fails and leaves them as they are.
  finish_edit : Option Exn → Files → FileAction (Unit {0})
  finish_edit none files d = (ok tt, changed files d)
  finish_edit (some e) files d = (raised e, d)

  unfoldable pub edit : (Files → Files) → FileAction (Unit {0})
  unfolding finish_edit
  edit f d = finish_edit (fs.failure d.past) (f d.files) d

  -- `os.replace`, which is atomic. Without the temporary file it fails.
  moved : String → String → Option String → Files → Files
  moved temporary target none files = files
  moved temporary target (some text) files = insert target text (erase temporary files)

  unfoldable pub replace : String → String → FileAction (Unit {0})
  unfolding edit moved
  replace temporary target = edit (λ files. moved temporary target (lookup temporary files) files)

  -- `handle.write` and `flush`, seen from outside: a part of the text, then all of it.
  write_text : String → String → FileAction (Unit {0})
  unfolding edit
  write_text temporary text d =
      (edit (insert temporary (fs.partial d.past text)) >> edit (insert temporary text)) d

  -- The inside of the `try`, once the temporary file has its name; the step that changes nothing is
  -- `os.fsync`.
  fill_and_replace : String → String → String → FileAction (Unit {0})
  unfolding write_text replace
  fill_and_replace temporary target text = do
    write_text temporary text
    edit (λ files. files)
    replace temporary target

  -- The file behind `NamedTemporaryFile(delete=False)`, empty.
  create : String → FileAction (Unit {0})
  unfolding edit
  create temporary = edit (insert temporary "")

  -- `finally: temporary.unlink(missing_ok=True)`.
  unlink_after : String → Outcome (Unit {0}) × Disk → Outcome (Unit {0}) × Disk
  unfolding edit
  unlink_after temporary (r, d) = closed r (edit (erase temporary) d)

  with_temporary : String → String → String → FileAction (Unit {0})
  unfolding fill_and_replace unlink_after
  with_temporary temporary target text d =
      unlink_after temporary (fill_and_replace temporary target text d)

  -- The writing under a resolved path. The temporary file lies beside it.
  unfoldable pub save_text : String → String → FileAction (Unit {0})
  unfolding create with_temporary
  save_text target text d =
      let temporary = fs.new_name d.past target in
      (create temporary >> with_temporary temporary target text) d

  unfoldable pub save_config :
      PathRules → (AutomationConfig → String) → AutomationConfig → String → FileAction (Unit {0})
  unfolding save_text
  save_config paths render config path = save_text (paths.resolve path) (render config)

-- `config_path.read_text(...)`.
abbrev read_text : Option String → Outcome String
read_text none = raised (exn "FileNotFoundError" "No such file or directory")
read_text (some text) = ok text

-- `load_config`.
unfoldable pub load_config :
    PathRules → (String → Outcome AutomationConfig) → String → Files → Outcome AutomationConfig
load_config paths read path files =
    let config_path = paths.resolve path in
    Outcome.◌>>=◌ (read_text (lookup config_path files)) (parse_config_text paths read config_path)
