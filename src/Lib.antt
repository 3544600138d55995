-- ===== src/Lib.antt =====
-- xian-dex-automation: a service that watches pairs of a decentralised exchange, evaluates
-- price-move rules on them, and submits swaps on the owner's behalf, directly or through a vault
-- contract on the chain.
--
-- The parts, and the files that model them (paths from the repository's root):
--
-- - Config, Config/Validation, Config/Paths, Config/Saving: the models of
--   src/xian_dex_automation/config.py, their validators, the resolution of paths, and the file of
--   the configuration. A field that pydantic bounds by `ge=0` or `gt=0` is a natural number, and
--   what a natural number does not give of its bound is tested by the validators. A step of
--   `save_config` on the file system may fail, and what the files hold after each is kept, for what
--   a process leaves that dies there.
-- - Rules: `evaluate_price_move` of src/xian_dex_automation/rules.py, on a snapshot of a pair
--   (Dex) and the stored state of a rule.
-- - Submission, Transport: the signed swap, the execution that is pending, and the methods of
--   `SwapTransport`, of src/xian_dex_automation/submission.py.
-- - Storage: the tables of src/xian_dex_automation/storage.py (Storage/Tables), the journal of
--   submissions (Storage/Journal), what becomes of a submission (Storage/Settlement), and runs,
--   rule states, cursors and the active configuration (Storage/Markets). A method's
--   `with self.connect()` block is a function from the database to a result and a new database, or
--   an exception; a block that raises changes nothing. Storage/Consistency states what holds between
--   two methods, and the journal as a state machine (Storage/Consistency/Phases).
-- - Execution: recovery of a journaled swap, src/xian_dex_automation/execution.py.
-- - Credentials, Planning, DexClient: src/xian_dex_automation/credentials.py and dex.py, the choice
--   of the key, quotes, deadlines, call plans and signing.
-- - Worker, Evaluator: src/xian_dex_automation/worker.py, one rule (`_evaluate_rule`), and the
--   entry points over pairs and events with the two locks. Watcher is the watch over the stream of
--   events, with its cursor.
-- - Vault, Vault/Exports: contracts/con_dex_strategy_vault.py, the contract's variables and each export
--   that changes state, as a function of the sender and the state to a new state or a failed
--   assertion. `deposit` and `withdraw` return the amount of the event that they log. The tokens, the
--   exchange and the runtime's dates are a parameter (Vault.Foreign).
-- - Configuration: src/xian_dex_automation/configuration.py, the drain and the publication of a new
--   configuration.
-- - Service: src/xian_dex_automation/service.py, the admission of requests (Service/Admission), the
--   changes of the configuration (Service/Changes), the wallet's key (Service/Wallet) and the routes
--   (Service/Routes). A handler takes `app.state` and the world to an outcome and a new state; the
--   status of an HTTPException stands in the exception's name. `waiting` is the reply of a change
--   whose rounds were used up.
-- - Logging: src/xian_dex_automation/logging_setup.py, `RetryReporter`, the escaping of a value
--   (Logging/Line) and the line of a record (Logging/Format), on lists of code points.
-- - Startup, Cli: the configuration at the start of the service or the worker, and
--   src/xian_dex_automation/cli.py.
-- - Bootstrap: scripts/bootstrap_strategy_vault.py. Bootstrap/Setup has its keys, endpoints and
--   configurations, Bootstrap/Keeper the keeper's key file, Bootstrap/Reuse the comparison of an
--   existing vault, Bootstrap/Vault the owner's session, Bootstrap/Funding the planning, funding and
--   sending of the keeper's transaction, and Bootstrap/Command `main`. A step takes what has been
--   written so far (transactions and files) and the process of the DEX client to an outcome and what
--   is written then; a write counts as made also where its answer is an exception.
--
-- How they interact: the worker evaluates the rules of a pair under the locks; a rule that executes
-- has its swap signed, written to the journal and handed to recovery, which alone marks, sends and
-- settles. Execution, Transport and DexClient reach the outside only through Runtime. A request to
-- the service evaluates a pair as the worker does, or replaces the configuration by `update`, and so
-- does a start with another configuration than the active one. The bootstrap script deploys the
-- contract by `seed`, plans with the calls of DexClient, and writes a configuration for the service.
--
-- Runtime is the process: an action takes the database on disk and the calls made so far to an
-- outcome (a value, an exception, or a cancellation, which `except Exception` lets by) and the new
-- world. What a call answers is a parameter, a function of all the calls before it, so each theorem
-- holds for every network; a commit is such a call and may fail. Each call is kept with the
-- database then on disk, so what holds of every call holds of a process that dies there.
--
-- Parameters for code that is not in the repository (Runtime.Platform): the Xian SDK's transaction
-- format, signing and network calls, wallets, environment variables, key files, string methods, the
-- comparison of pydantic models, and the decimal context of the contracting runtime. What the
-- service takes besides, of pathlib, YAML and the file system, is Service.Host. What the bootstrap
-- script takes is Bootstrap.Outside: the SDK's client, the compiler of contracts, SHA-256, the file
-- system and its subtraction of decimals; the categories of characters are Logging.Line.Unicode. A Decimal is
-- an integer count of the context's quanta; the laws assumed of its rounding are those of
-- Decimal.IsSound, and for the vault Vault.Budget.AddsUp; Decimal/Fixed, with three decimal places,
-- meets them.
--
-- Simplifications: an instant is a number of microseconds from the least date, and the end of
-- Python's dates raises as it does there; the JSON and text columns hold the values themselves;
-- columns that are written and never read are left out; a token of a pair that is no text counts as
-- missing; a client session closes without an exception; a result of a skipped evaluation does not
-- repeat the pair's id; a run is sequential, and what other processes do shows in the answers of
-- the locks. `evaluate_event_pair`, `wait_for_execution`, `update` and the loops of Watcher, which
-- loop until they succeed, take a number of rounds and return false when it is used up; what is
-- proved of them holds for every number, and Evaluator/Fuel, Configuration/Progress say what more
-- rounds change and when one is enough. FastAPI parses bodies and routes requests, so a handler
-- starts from parsed values, and a pair id in a path is a natural number.
--
-- Of the bootstrap script, the errors leave out the values in their messages, the payload the fields
-- that repeat arguments, and reading `network.json` stands for the values that are read of it.
--
-- Not modelled: the HTML of the service's page and the routes that FastAPI adds; the tasks that
-- restart and repeat the watch and the recovery on asyncio, and the file locks behind the answers of
-- the locks; printf formatting of a log message and the walk over a traceback; the parsing of
-- arguments, times and YAML; and scripts/recovery_smoke.py, a test against a live node. These
-- format, parse or schedule, over libraries that are not in the repository.
pub mod Base
pub mod Outcome
pub mod Decimal
pub mod Config
pub mod Report
pub mod Time
pub mod Dex
pub mod Rules
pub mod Submission
pub mod Storage
pub mod Runtime
pub mod Transport
pub mod Execution
pub mod Credentials
pub mod Planning
pub mod DexClient
pub mod Worker
pub mod Evaluator
pub mod Configuration
pub mod Watcher
pub mod Service
pub mod Logging
pub mod Startup
pub mod Cli
pub mod Bootstrap
pub mod Vault
pub mod Tests
