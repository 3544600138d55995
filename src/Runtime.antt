-- ===== src/Runtime.antt =====
-- The process that runs the service: its database, and its calls to the outside in the order in
-- which it makes them. What a call answers is up to the network, which may take all that went
-- before into account; a commit may fail too. Each call is recorded with the database as it then
-- stood on disk, which is what a process that dies at this call leaves behind.
pub mod Keeps
pub mod Orderly
pub mod Yields
pub mod Returns
pub mod Agrees
pub mod Ends
use xian_dex_automation.Base.{ℕ, Bool, String, List, ◌∷◌, Option, none, some}
use xian_dex_automation.Base.Int.{ℤ}
use xian_dex_automation.Outcome.{Outcome, ok, raised, cancelled, Exn}
use xian_dex_automation.Time.{Instant}
use xian_dex_automation.Decimal.{Decimal, Context}
use xian_dex_automation.Config.{AutomationConfig}
use xian_dex_automation.Submission.{PreparedTransaction, Sdk}
use xian_dex_automation.Storage.{Database, Transaction}

-- The parts of a call plan that are signed (`ContractCallPlan`).
pub record Plan : Type 0 where
  pub contract : String
  pub function : String
  pub amount_in : Decimal
  pub amount_out_min : Decimal
  pub deadline : Instant
  pub pair : Option ℕ
  pub src : Option String
  pub recipient : Option String

pub data Request : Type 0 where
  connect : String → Request
  chain_id : String → Request
  committed_nonce : String → String → Request
  broadcast : String → PreparedTransaction → Request
  wait_for_tx : String → String → Request
  pair_state : ℕ → String → Request
  trade_fee : Option String → Request
  node_status estimate_chi next_nonce read_clock commit : Request
  execution_lock configuration_lock save_config after_save : Request

pub record Call : Type 0 where
  pub request : Request
  pub store : Database

-- The calls stand newest first.
pub record World : Type 0 where
  pub store : Database
  pub calls : List Call

abbrev pub Action : Type 0 → Type 0
Action A = World → Outcome A × World

pub data Attempt (A : Type 0) : Type 0 where
  worked : A → Attempt A
  failed_with : Exn → Attempt A

module _ {A : Type 0} where
  unfoldable pub pure : A → Action A
  pure a w = (ok a, w)

  unfoldable pub lift : Outcome A → Action A
  lift r w = (r, w)

  -- A read of the database.
  unfoldable pub reads : (Database → A) → Action A
  reads f w = (ok (f w.store), w)

  unfoldable pub queries : (Database → Outcome A) → Action A
  queries f w = (f w.store, w)

  -- A call to the outside.
  unfoldable pub ask : Request → (List Call → Outcome A) → Action A
  ask r answer w =
      (answer w.calls, record w { calls = record { request = r; store = w.store } ∷ w.calls })

  -- What a block leaves: its result and database, or the exception and the old database.
  unfoldable pub settle : Outcome (A × Database) → Option Exn → World → Outcome A × World
  settle (ok (a, db)) none w = (ok a, record w { store = db })
  settle (ok (a, db)) (some e) w = (raised e, w)
  settle (raised e) failure w = (raised e, w)
  settle cancelled failure w = (cancelled, w)

  -- A block of the store. The commit at its end may fail, and is recorded as a call.
  unfoldable pub transact : (List Call → Option Exn) → Transaction A → Action A
  unfolding settle
  transact failure t w =
      settle (t w.store) (failure w.calls)
        (record w { calls = record { request = commit; store = w.store } ∷ w.calls })

  -- A `try` whose `except Exception` goes on with the exception at hand.
  unfoldable pub caught : Outcome A × World → Outcome (Attempt A) × World
  caught (ok a, w) = (ok (worked a), w)
  caught (raised e, w) = (ok (failed_with e), w)
  caught (cancelled, w) = (cancelled, w)

  unfoldable pub attempt : Action A → Action (Attempt A)
  unfolding caught
  attempt m w = caught (m w)

  -- `except Exception as exc`: a cancellation passes by.
  unfoldable pub catch_with : (Exn → Action A) → Outcome A × World → Outcome A × World
  catch_with handler (ok a, w) = (ok a, w)
  catch_with handler (raised e, w) = handler e w
  catch_with handler (cancelled, w) = (cancelled, w)

  unfoldable pub try_except : Action A → (Exn → Action A) → Action A
  unfolding catch_with
  try_except m handler w = catch_with handler (m w)

module _ {A B : Type 0} where
  unfoldable pub continue : (A → Action B) → Outcome A × World → Outcome B × World
  continue f (ok a, w) = f a w
  continue f (raised e, w) = (raised e, w)
  continue f (cancelled, w) = (cancelled, w)

  infixl 5 ◌>>=◌ ◌>>◌
  -- To unfold this opens the actions above too.
  unfoldable pub ◌>>=◌ : Action A → (A → Action B) → Action B
  unfolding continue pure lift reads queries ask transact try_except attempt
  ◌>>=◌ m f w = continue f (m w)

  abbrev pub ◌>>◌ : Action A → Action B → Action B
  m >> k = m >>= λ _. k

-- `xian_py.models.TransactionReceipt`.
pub record Receipt : Type 0 where
  pub tx_hash : String
  pub success : Bool
  pub message : Option String

-- The answer to a broadcast: whether it has the key `error`, and the keys of `result`. A code that
-- is no integer is `none`.
pub record CheckTx : Type 0 where
  pub has_error : Bool
  pub code : Option ℤ
  pub hash : Option String
  pub log : Option String

-- A value of the chain's state.
pub data StateValue : Type 0 where
  absent other : StateValue
  integer : ℤ → StateValue
  decimal : Decimal → StateValue
  word : String → StateValue

-- What the process asks of the outside; each answer may depend on all the calls before it. A lookup
-- of a receipt that times out in the SDK answers `none`; a lock answers whether it was claimed.
pub record Network : Type 0 where
  pub connect : List Call → String → Outcome (Unit {0})
  pub chain_id : List Call → String → Outcome String
  pub get_state : List Call → String → String → Outcome StateValue
  pub broadcast : List Call → String → PreparedTransaction → Outcome CheckTx
  pub wait_for_tx : List Call → String → String → Outcome (Option Receipt)
  pub pair_state : List Call → ℕ → String → Outcome StateValue
  pub trade_fee : List Call → Option String → Outcome ℕ
  pub node_status : List Call → Outcome (Option Instant)
  pub estimate_chi : List Call → Plan → Outcome ℕ
  pub next_nonce : List Call → String → Outcome ℕ
  pub clock : List Call → Instant
  pub failure : List Call → Option Exn
  pub execution_lock : List Call → Bool
  pub configuration_lock : List Call → Bool

-- The methods of `str`, and the reading of a decimal from its text.
pub record Text : Type 0 where
  pub strip : String → String
  pub upper : String → String
  pub lower : String → String
  pub to_decimal : String → Outcome Decimal

-- The environment variables and the key files.
pub record Secrets : Type 0 where
  pub environ : String → Option String
  pub read_text : String → Outcome String

-- What the program takes from elsewhere. `public_key` is `Wallet(key).public_key`; `sign` is the
-- SDK's `create_tx` with `prepare_transaction`, over the key, chain, plan, nonce and chi;
-- `same_config` is pydantic's equality of configurations.
pub record Platform : Type 0 where
  pub context : Context
  pub sdk : Sdk
  pub net : Network
  pub str : Text
  pub secrets : Secrets
  pub public_key : String → Outcome String
  pub sign : Option String → String → Plan → ℕ → ℕ → Outcome PreparedTransaction
  pub same_config : AutomationConfig → AutomationConfig → Bool

-- `datetime.now(UTC)`.
unfoldable pub utc_now : Platform → Action Instant
utc_now p = ask Request.read_clock (λ h. ok (p.net.clock h))
