-- ===== src/Service.antt =====
-- The HTTP service (src/xian_dex_automation/service.py): what its handlers run on.
pub mod Admission
pub mod Changes
pub mod Wallet
pub mod Routes
pub mod Invariants
pub mod Replies
pub mod Effects
pub mod RuleLists
pub mod RuleChanges
use xian_dex_automation.Base.{ℕ, String, Bool, List, Option, none, some, text_append}
use xian_dex_automation.Outcome.{Outcome, ok, raised, cancelled, Exn, exn}
use xian_dex_automation.Config.{AutomationConfig}
use xian_dex_automation.Config.Paths.{PathRules}
use xian_dex_automation.Evaluator.{AutomationWorker}
use xian_dex_automation.Storage.{Database}
use xian_dex_automation.Runtime.{World, Call, Action}

-- What the service is started with, and what it takes from the file system and the libraries: the
-- reading of a YAML text as a configuration's fields, `render_config`, `save_config`, the key files,
-- and `Wallet().private_key`. `store_path` is the store's file.
pub record Host : Type 0 where
  pub config_path : Option String
  pub admin_token : Option String
  pub store_path : String
  pub paths : PathRules
  pub exists : List Call → String → Bool
  pub read_key : List Call → String → Outcome String
  pub write_key : List Call → String → String → Outcome (Unit {0})
  pub read_yaml : String → Outcome AutomationConfig
  pub render_config : AutomationConfig → String
  pub save_config : List Call → AutomationConfig → String → Outcome (Unit {0})
  pub new_key : Outcome String

-- `app.state`, as far as a request reads or changes it, with the process's world.
pub record Server : Type 0 where
  pub config : AutomationConfig
  pub worker : AutomationWorker
  pub has_worker_task : Bool
  pub last_error : Option String
  pub world : World

abbrev pub Serving : Type 0 → Type 0
Serving A = Server → Outcome A × Server

-- `HTTPException(status_code=..., detail=...)`; the status stands in the exception's name.
abbrev pub http_error : String → String → Exn
http_error status detail = exn (text_append "HTTPException " status) detail

module _ {A : Type 0} where
  unfoldable pub give : Outcome A → Serving A
  give r s = (r, s)

  -- The server after an action, with its result.
  abbrev pub after_action : Server → Outcome A × World → Outcome A × Server
  after_action s (o, w) = (o, record s { world = w })

  unfoldable pub run : Action A → Serving A
  run m s = after_action s (m s.world)

  -- A read of `app.state`.
  unfoldable pub looks : (Server → A) → Serving A
  looks f s = (ok (f s), s)

  -- `except Exception as exc: raise ... from exc`.
  abbrev pub reraise : (Exn → Exn) → Outcome A → Outcome A
  reraise f (ok a) = ok a
  reraise f (raised e) = raised (f e)
  reraise f cancelled = cancelled

  abbrev pub reraised : (Exn → Exn) → Outcome A × Server → Outcome A × Server
  reraised f (o, s) = (reraise f o, s)

  unfoldable pub except_as : (Exn → Exn) → Serving A → Serving A
  except_as f m s = reraised f (m s)

  -- `finally`, with a block that only changes `app.state`.
  abbrev pub ended : (Server → Server) → Outcome A × Server → Outcome A × Server
  ended f (o, s) = (o, f s)

  unfoldable pub finally : (Server → Server) → Serving A → Serving A
  finally f m s = ended f (m s)

module _ {A B : Type 0} where
  unfoldable pub resume : (A → Serving B) → Outcome A × Server → Outcome B × Server
  resume f (ok a, s) = f a s
  resume f (raised e, s) = (raised e, s)
  resume f (cancelled, s) = (cancelled, s)

  infixl 5 ◌>>=◌ ◌>>◌
  -- To unfold this opens the steps above too.
  unfoldable pub ◌>>=◌ : Serving A → (A → Serving B) → Serving B
  unfolding resume give run looks except_as finally
  ◌>>=◌ m f s = resume f (m s)

  abbrev pub ◌>>◌ : Serving A → Serving B → Serving B
  m >> k = m >>= λ _. k
