-- ===== src/Service/Invariants.antt =====
-- What every request keeps, if recovery and the store's methods keep it (service.py).
use xian_dex_automation.Base.{ℕ, String, Bool, true, false, Option, none, some, List, if◌then◌else◌}
use xian_dex_automation.Outcome.{Outcome, ok, raised, cancelled, Exn}
use xian_dex_automation.Config.{AutomationConfig, StrategyVaultConfig}
use xian_dex_automation.Storage.{Transaction}
use xian_dex_automation.Storage.Consistency.Phases.{IsMethod}
use xian_dex_automation.Runtime.{World, Call, Platform, Action, transact}
use xian_dex_automation.Runtime.Keeps.{Keeps, IsQuiet}
use xian_dex_automation.Runtime.Orderly.{Orderly, Orderly-quiet, transact-Orderly}
use xian_dex_automation.Execution.{reconcile_execution}
use xian_dex_automation.Execution.Journaled.{
  AllBacked, AllBacked-quiet, transact-AllBacked, reconcile_execution-Keeps-AllBacked,
}
use xian_dex_automation.Evaluator.Invariants.{ask_lock-Keeps}
use xian_dex_automation.Evaluator.Rounds.{evaluate_pair_once-Keeps}
use xian_dex_automation.Evaluator.Orderly.{reconcile_execution-Keeps-Orderly}
use xian_dex_automation.Configuration.Draining.{update-Keeps}
use xian_dex_automation.Service.{
  Host, Server, Serving, give, run, looks, except_as, finally, resume, ◌>>=◌,
}
use xian_dex_automation.Service.Admission.{HttpRequest}
use xian_dex_automation.Service.Changes.{
  refresh, persist_config, check_keeper, keeper_matches, validated_update, publication,
}
use xian_dex_automation.Service.Wallet.{wallet_payload, persist_wallet_key}
use xian_dex_automation.Service.Routes.{
  Reply, Route, serve, handle, health_reply, wallet_reply, upsert_rule, remove_rule, update_wallet,
  manage_key, put_config_yaml, evaluate_reply, once_saved, index, health, custody, rules, wallet,
  get_config, put_rule, delete_rule, runs, patch_wallet, generate_key, import_key, put_config,
  evaluate,
}

-- However the step ends, a world with `P` has it afterwards.
pub record Preserves {A : Type 0} (P : World → Type 0) (m : Serving A) : Type 0 where
  pub at : (s : Server) → P s.world → P (m s).1.world

module _ {A : Type 0} {P : World → Type 0} where
  pub Preserves-give : (r : Outcome A) → Preserves P (give r)
  unfolding give
  Preserves-give r = record { at = λ s h. h }

  pub Preserves-looks : (f : Server → A) → Preserves P (looks f)
  unfolding looks
  Preserves-looks f = record { at = λ s h. h }

  Preserves-run : (m : Action A) → Keeps P m → Preserves P (run m)
  unfolding run
  Preserves-run m k = record { at = λ s h. k.at s.world h }

  pub Preserves-except :
      (f : Exn → Exn) (m : Serving A) → Preserves P m → Preserves P (except_as f m)
  unfolding except_as
  Preserves-except f m k = record { at = λ s h. k.at s h }

  Preserves-finally : (m : Serving A) → Preserves P m → Preserves P (finally refresh m)
  unfolding finally refresh
  Preserves-finally m k = record { at = λ s h. k.at s h }

  Preserves-if :
      (b : Bool) (m n : Serving A)
      → Preserves P m
      → Preserves P n
      → Preserves P (if b then m else n)
  Preserves-if true m n km kn = km
  Preserves-if false m n km kn = kn

module _ {A B : Type 0} {P : World → Type 0} where
  resume-keeps :
      (f : A → Serving B) (o : Outcome A) (s : Server)
      → P s.world
      → ((a : A) → Preserves P (f a))
      → P (resume f (o, s)).1.world
  unfolding resume
  resume-keeps f (ok a) s h k = (k a).at s h
  resume-keeps f (raised e) s h k = h
  resume-keeps f cancelled s h k = h

  Preserves-bind :
      (m : Serving A) (f : A → Serving B)
      → Preserves P m
      → ((a : A) → Preserves P (f a))
      → Preserves P (m >>= f)
  unfolding ◌>>=◌
  Preserves-bind m f km kf = record {
    at = λ s h. let (o, s') = m s in resume-keeps f o s' (km.at s h) kf;
  }

ruleset preserves_rules = (
  Preserves-give, Preserves-looks, Preserves-except, Preserves-finally, Preserves-if,
  Preserves-bind,
)

module _ (p : Platform) (host : Host) {P : World → Type 0} (q : IsQuiet P)
    (writes : (A : Type 0) (failure : List Call → Option Exn) (t : Transaction A)
      → IsMethod A t
      → Keeps P (transact failure t))
    (recovers : (allow : Bool) (url : Option String)
      → Keeps P (reconcile_execution p allow url)) where
  keeper_matches-Preserves :
      (v : StrategyVaultConfig) (m : Serving (Option String))
      → Preserves P m
      → Preserves P (keeper_matches p host v m)
  unfolding keeper_matches
  keeper_matches-Preserves v m k = search preserves_rules

  pub check_keeper-Preserves :
      (b : Bool) (v : Option StrategyVaultConfig) (new : AutomationConfig)
      → Preserves P (check_keeper p host b v new)
  unfolding check_keeper
  check_keeper-Preserves true (some v) new = keeper_matches-Preserves v _ (Preserves-give _)
  check_keeper-Preserves true none new = Preserves-give _
  check_keeper-Preserves false v new = Preserves-give _

  persist_config-Preserves :
      (rounds : ℕ) (new : AutomationConfig) (after : Option (List Call → Outcome (Unit {0})))
      → Preserves P (persist_config p host rounds new after)
  unfolding persist_config
  persist_config-Preserves rounds new after = Preserves-bind _ _ (Preserves-give _) (λ path.
      Preserves-bind _ _ (Preserves-give _) (λ _.
        Preserves-bind _ _ (check_keeper-Preserves _ _ new) (λ _.
          Preserves-bind _ _ (Preserves-looks _) (λ worker. Preserves-finally _ (
            Preserves-except _ _ (
              Preserves-run _ (
                update-Keeps p q writes (publication p host new path after) worker.config new
                  (recovers new.wallet.execute) rounds)))))))

  validated_update-Preserves : (new : AutomationConfig) → Preserves P (validated_update p host new)
  unfolding validated_update
  validated_update-Preserves new = search preserves_rules

  wallet_reply-Preserves : Preserves P (wallet_reply p host)
  unfolding wallet_reply wallet_payload
  wallet_reply-Preserves = search preserves_rules

  once_saved-Preserves :
      (b : Bool) (m : Serving Reply) → Preserves P m → Preserves P (once_saved b m)
  unfolding once_saved
  once_saved-Preserves true m k = k
  once_saved-Preserves false m k = Preserves-give _

  -- The end that the changes share.
  publish-Preserves :
      (rounds : ℕ) (candidate : AutomationConfig) (m : Serving Reply)
      → Preserves P m
      → Preserves P (
          validated_update p host candidate >>= λ new.
          persist_config p host rounds new none >>= λ published. once_saved published m)
  publish-Preserves rounds candidate m k =
      Preserves-bind _ _ (validated_update-Preserves candidate) (λ new.
        Preserves-bind _ _ (persist_config-Preserves rounds new none)
          (λ b. once_saved-Preserves b m k))

  manage_key-Preserves :
      (rounds : ℕ) (key : Outcome String) (overwrite : Bool)
      → Preserves P (manage_key p host rounds key overwrite)
  unfolding manage_key persist_wallet_key
  manage_key-Preserves rounds key overwrite =
      search
        (
          preserves_rules, validated_update-Preserves, persist_config-Preserves,
          once_saved-Preserves, wallet_reply-Preserves,
        )
        depth 12

  handle-Preserves : (rounds : ℕ) (route : Route) → Preserves P (handle p host rounds route)
  unfolding handle upsert_rule remove_rule update_wallet put_config_yaml evaluate_reply health_reply
  handle-Preserves rounds index = Preserves-give _
  handle-Preserves rounds health = Preserves-bind _ _ (Preserves-looks _) (λ c.
      Preserves-bind _ _ (Preserves-run _ (ask_lock-Keeps p q _ _ tt))
        (λ b. Preserves-bind _ _ (Preserves-looks _) (λ s. Preserves-give _)))
  handle-Preserves rounds custody = Preserves-looks _
  handle-Preserves rounds rules = Preserves-looks _
  handle-Preserves rounds wallet = wallet_reply-Preserves
  handle-Preserves rounds get_config = Preserves-looks _
  handle-Preserves rounds (put_rule rule_id rule) = Preserves-bind _ _ (Preserves-give _) (λ _.
      Preserves-bind _ _ (Preserves-looks _) (λ c. publish-Preserves rounds _ _ (Preserves-give _)))
  handle-Preserves rounds (delete_rule rule_id) = Preserves-bind _ _ (Preserves-looks _) (λ c.
      Preserves-bind _ _ (Preserves-give _) (λ _. publish-Preserves rounds _ _ (Preserves-give _)))
  handle-Preserves rounds (runs limit) = Preserves-looks _
  handle-Preserves rounds (patch_wallet patch) = Preserves-bind _ _ (Preserves-give _) (λ _.
      Preserves-bind _ _ (Preserves-looks _) (λ c.
        Preserves-bind _ _ (Preserves-give _)
          (λ w. publish-Preserves rounds _ _ wallet_reply-Preserves)))
  handle-Preserves rounds (generate_key overwrite) = manage_key-Preserves rounds _ overwrite
  handle-Preserves rounds (import_key key overwrite) = manage_key-Preserves rounds _ overwrite
  handle-Preserves rounds (put_config body) = Preserves-bind _ _ (Preserves-give _) (λ path.
      Preserves-bind _ _ (Preserves-except _ _ (Preserves-give _)) (λ new.
        Preserves-bind _ _ (Preserves-looks _) (λ c. Preserves-bind _ _ (Preserves-give _) (λ _.
          Preserves-bind _ _ (persist_config-Preserves rounds new none)
            (λ b. once_saved-Preserves b _ (Preserves-give _))))))
  handle-Preserves rounds (evaluate pair_id) = Preserves-bind _ _ (Preserves-looks _) (λ worker.
      Preserves-bind _ _
        (Preserves-except _ _ (
          Preserves-run _
            (evaluate_pair_once-Keeps p q writes (λ allow. recovers allow none) worker pair_id)))
        (λ rs. Preserves-give _))

  serve-Preserves :
      (rounds : ℕ) (request : HttpRequest) (route : Route)
      → Preserves P (serve p host rounds request route)
  unfolding serve
  serve-Preserves rounds request route =
      Preserves-if _ _ _ (handle-Preserves rounds route)
        (Preserves-bind _ _ (Preserves-give _) (λ _. handle-Preserves rounds route))

module _ (p : Platform) (host : Host) where
  -- If the store is consistent, was so at each call so far, and the journal made one step from each
  -- call to the next, then all this is still so after any request to any route of the service, for
  -- any number of rounds of `update`, however the request ends.
  pub serve-Orderly :
      (rounds : ℕ) (request : HttpRequest) (route : Route) (s : Server)
      → Orderly s.world
      → Orderly (serve p host rounds request route s).1.world
  serve-Orderly rounds request route s h =
      (serve-Preserves p host Orderly-quiet transact-Orderly (reconcile_execution-Keeps-Orderly p)
          rounds request route).at
        s h

  -- If each broadcast so far was made while the journal's slot held a row with the broadcast
  -- transaction's hash, marked as attempted, then this is still so after any request to any route
  -- of the service, for any number of rounds of `update`, however the request ends.
  pub serve-AllBacked :
      (rounds : ℕ) (request : HttpRequest) (route : Route) (s : Server)
      → AllBacked s.world
      → AllBacked (serve p host rounds request route s).1.world
  serve-AllBacked rounds request route s h =
      (serve-Preserves p host AllBacked-quiet (λ A f t _. transact-AllBacked f t)
          (reconcile_execution-Keeps-AllBacked p) rounds request route).at
        s h
