-- ===== src/Service/Routes.antt =====
-- The routes of the service (src/xian_dex_automation/service.py).
use xian_dex_automation.Base.{
  ℕ, String, Bool, true, false, not, ◌&&◌, Option, none, some, str_eq, List, [], ◌∷◌, Dict, insert,
  select, length, ◌==◌, is_some, min, max, if◌then◌else◌,
}
use xian_dex_automation.Base.Int.{ℤ, pos, negsuc}
use xian_dex_automation.Outcome.{Outcome, ok, raise_if, ◌>>=◌ as then_outcome}
use xian_dex_automation.Config.{CustodyConfig, CustodyMode, RuleConfig, WalletConfig}
use xian_dex_automation.Config.Paths.{parse_config_text}
use xian_dex_automation.Report.{Report}
use xian_dex_automation.Storage.{Run, list_runs, config_generation}
use xian_dex_automation.Runtime.{Platform, Request}
use xian_dex_automation.Evaluator.{evaluate_pair_once, ask_lock}
use xian_dex_automation.Service.{
  Host, Serving, http_error, give, run, looks, except_as, ◌>>=◌, ◌>>◌,
}
use xian_dex_automation.Service.Admission.{HttpRequest, require_admin_token}
use xian_dex_automation.Service.Changes.{
  current_config, persist_config, validated_update, writable, bad_request,
}
use xian_dex_automation.Service.Wallet.{
  WalletPayload, wallet_payload, wallet_key_source_changed, persist_wallet_key,
  validate_private_key,
}

-- The body of `PATCH /wallet`: whether it names `private_key_file`, and what the model makes of the
-- values under `execute` and `recipient`, where it has them.
pub record WalletPatch : Type 0 where
  pub names_key_file : Bool
  pub execute : Option (Outcome Bool)
  pub recipient : Option (Outcome (Option String))

pub data ConfigurationStatus : Type 0 where
  active draining restarting : ConfigurationStatus

-- The answer of `/health`.
pub record Health : Type 0 where
  pub degraded : Bool
  pub configuration_status : ConfigurationStatus
  pub worker_error : Option String
  pub execute_enabled : Bool
  pub custody_mode : CustodyMode
  pub rules : ℕ

pub data Reply : Type 0 where
  page saved waiting : Reply
  health_of : Health → Reply
  custody_of : CustodyConfig → Reply
  rules_of : List RuleConfig → Reply
  rule_of : RuleConfig → Reply
  deleted : String → Reply
  runs_of : List Run → Reply
  wallet_of : WalletPayload → Reply
  yaml : String → Reply
  results_of : List Report → Reply

pub data Route : Type 0 where
  index health custody rules wallet get_config : Route
  put_rule : String → RuleConfig → Route
  delete_rule : String → Route
  runs : ℤ → Route
  patch_wallet : WalletPatch → Route
  generate_key : Bool → Route
  import_key : String → Bool → Route
  put_config : String → Route
  evaluate : ℕ → Route

-- `max(1, min(limit, 500))`.
unfoldable pub clamp : ℤ → ℕ
clamp (pos n) = max 1 (min n 500)
clamp (negsuc n) = 1

-- `{item.id: item for item in rules}`, onto what is there.
unfoldable pub by_id : Dict RuleConfig → List RuleConfig → Dict RuleConfig
by_id d [] = d
by_id d (r ∷ rs) = by_id (insert r.id r d) rs

unfoldable pub values : Dict RuleConfig → List RuleConfig
values [] = []
values ((k, r) ∷ d) = r ∷ values d

-- The rules with one more, or one replaced.
unfoldable pub upserted : String → RuleConfig → List RuleConfig → List RuleConfig
unfolding by_id values
upserted rule_id rule rs = values (insert rule_id rule (by_id [] rs))

unfoldable pub without_rule : String → List RuleConfig → List RuleConfig
without_rule rule_id rs = select (λ r. not (str_eq r.id rule_id)) rs

patched_flag : Option (Outcome Bool) → Bool → Outcome Bool
patched_flag none old = ok old
patched_flag (some value) old = value

patched_recipient : Option (Outcome (Option String)) → Option String → Outcome (Option String)
patched_recipient none old = ok old
patched_recipient (some value) old = value

-- The wallet after a patch.
unfoldable pub patched : WalletPatch → WalletConfig → Outcome WalletConfig
unfolding patched_flag patched_recipient
patched patch w = then_outcome (patched_flag patch.execute w.execute) (λ e.
    then_outcome (patched_recipient patch.recipient w.recipient)
      (λ r. ok (record w { execute = e; recipient = r })))

configuration_status : Bool → Bool → ConfigurationStatus
configuration_status false stale = draining
configuration_status true false = active
configuration_status true true = restarting

-- The answer to a change that was or was not published in its rounds.
unfoldable pub once_saved : Bool → Serving Reply → Serving Reply
once_saved true reply = reply
once_saved false reply = give (ok waiting)

module _ (p : Platform) (host : Host) where
  unfoldable pub health_reply : Serving Reply
  unfolding current_config configuration_status
  health_reply = do
    current ← looks current_config
    admitted ← run (ask_lock p Request.configuration_lock p.net.configuration_lock)
    s ← looks (λ s. s)
    let stale =
        s.has_worker_task && not (s.worker.config_generation == config_generation s.world.store)
    give (
        ok (
          health_of (record {
            degraded = is_some s.last_error;
            configuration_status = configuration_status admitted stale;
            worker_error = s.last_error;
            execute_enabled = current.wallet.execute;
            custody_mode = current.custody.mode;
            rules = length current.rules;
          })))

  unfoldable pub wallet_reply : Serving Reply
  wallet_reply = do payload ← wallet_payload p host; give (ok (wallet_of payload))

  -- `upsert_rule`.
  unfoldable pub upsert_rule : ℕ → String → RuleConfig → Serving Reply
  unfolding current_config once_saved upserted
  upsert_rule rounds rule_id rule = do
    give (
        raise_if (not (str_eq rule.id rule_id))
          (http_error "400" "rule id in path and body must match"))
    current ← looks current_config
    new ← validated_update p host (record current { rules = upserted rule_id rule current.rules })
    published ← persist_config p host rounds new none
    once_saved published (give (ok (rule_of rule)))

  -- `delete_rule`.
  unfoldable pub remove_rule : ℕ → String → Serving Reply
  unfolding current_config once_saved without_rule
  remove_rule rounds rule_id = do
    current ← looks current_config
    let kept = without_rule rule_id current.rules
    give (raise_if (length kept == length current.rules) (http_error "404" "rule not found"))
    new ← validated_update p host (record current { rules = kept })
    published ← persist_config p host rounds new none
    once_saved published (give (ok (deleted rule_id)))

  -- `update_wallet`.
  unfoldable pub update_wallet : ℕ → WalletPatch → Serving Reply
  unfolding current_config once_saved patched wallet_reply
  update_wallet rounds patch = do
    give (
        raise_if patch.names_key_file (
          http_error "400" "wallet private_key_file must be changed through config or environment"))
    current ← looks current_config
    changed ← give (patched patch current.wallet)
    new ← validated_update p host (record current { wallet = changed })
    published ← persist_config p host rounds new none
    once_saved published wallet_reply

  -- `generate_wallet_key` and `import_wallet_key`, given the key.
  unfoldable pub manage_key : ℕ → Outcome String → Bool → Serving Reply
  unfolding once_saved wallet_reply
  manage_key rounds key overwrite = do
    k ← give key
    published ← persist_wallet_key p host rounds k overwrite
    once_saved published wallet_reply

  -- `put_config_yaml`.
  unfoldable pub put_config_yaml : ℕ → String → Serving Reply
  unfolding current_config once_saved writable
  put_config_yaml rounds body = do
    path ← give (writable host.config_path "config writes require a config path")
    new ← except_as bad_request (give (parse_config_text host.paths host.read_yaml path body))
    current ← looks current_config
    give (
        raise_if (wallet_key_source_changed current new) (
          http_error "400"
            "wallet key source fields must be changed through local config or environment, not the admin API"))
    published ← persist_config p host rounds new none
    once_saved published (give (ok saved))

  -- `evaluate`.
  unfoldable pub evaluate_reply : ℕ → Serving Reply
  evaluate_reply pair_id = do
    worker ← looks (λ s. s.worker)
    results ← except_as bad_request (run (evaluate_pair_once p worker pair_id))
    give (ok (results_of results))

  -- What a route does once the request is admitted.
  unfoldable pub handle : ℕ → Route → Serving Reply
  unfolding current_config upsert_rule remove_rule update_wallet manage_key put_config_yaml
      evaluate_reply health_reply wallet_reply clamp
  handle rounds index = give (ok page)
  handle rounds health = health_reply
  handle rounds custody = looks (λ s. custody_of (current_config s).custody)
  handle rounds rules = looks (λ s. rules_of (current_config s).rules)
  handle rounds wallet = wallet_reply
  handle rounds get_config = looks (λ s. yaml (host.render_config (current_config s)))
  handle rounds (put_rule rule_id rule) = upsert_rule rounds rule_id rule
  handle rounds (delete_rule rule_id) = remove_rule rounds rule_id
  handle rounds (runs limit) = looks (λ s. runs_of (list_runs (clamp limit) s.world.store))
  handle rounds (patch_wallet patch) = update_wallet rounds patch
  handle rounds (generate_key overwrite) = manage_key rounds host.new_key overwrite
  handle rounds (import_key key overwrite) =
      manage_key rounds (validate_private_key p host key) overwrite
  handle rounds (put_config body) = put_config_yaml rounds body
  handle rounds (evaluate pair_id) = evaluate_reply pair_id

  -- The routes without `Depends(_require_admin_token)`.
  unfoldable pub is_public : Route → Bool
  is_public index = true
  is_public health = true
  is_public _ = false

  -- A request to a route.
  unfoldable pub serve : ℕ → HttpRequest → Route → Serving Reply
  unfolding is_public handle
  serve rounds request route =
      if is_public route
      then handle rounds route
      else (do give (require_admin_token p.str host.admin_token request); handle rounds route)
