-- ===== src/Service/Replies.antt =====
-- What holds when a request is answered, and what a saved configuration leaves (service.py).
use xian_dex_automation.Base.{
  ℕ, String, true, Option, Option-cases, inl, inr, some, List, ◌≡◌, refl, arith, ap, ◌∙◌,
}
use xian_dex_automation.Outcome.{Outcome, ok, raised, cancelled, Exn}
use xian_dex_automation.Config.{AutomationConfig}
use xian_dex_automation.Config.Paths.{normalize_config_paths}
use xian_dex_automation.Runtime.{World, Call, Platform}
use xian_dex_automation.Runtime.Orderly.{Orderly, Orderly-quiet, transact-Orderly}
use xian_dex_automation.Evaluator.Orderly.{reconcile_execution-Keeps-Orderly}
use xian_dex_automation.Configuration.{Publication, update}
use xian_dex_automation.Configuration.Published.{IsPublished, update-IsPublished}
use xian_dex_automation.Service.{
  Host, Server, Serving, give, run, looks, except_as, finally, resume, reraise, ◌>>=◌,
}
use xian_dex_automation.Service.Changes.{
  current_config, refresh, persist_config, validated_update, as_conflict, normalized_for_persist,
  writable,
}
use xian_dex_automation.Service.Invariants.{
  Preserves, Preserves-give, Preserves-looks, Preserves-except, check_keeper-Preserves,
}

-- From a server with `P`, a result has `Q`, together with the server it leaves.
pub record Replies {A : Type 0} (P : Server → Type 0) (Q : A → Server → Type 0) (m : Serving A)
    : Type 0 where
  pub at : (s : Server) → P s → (a : A) → (m s).0 ≡ ok a → Q a (m s).1

module _ {A : Type 0} {P : Server → Type 0} where
  pub Replies-give : (o : Outcome A) → Replies P (λ a s. P s × (o ≡ ok a)) (give o)
  unfolding give
  Replies-give o = record { at = λ s h a e. (h, e) }

  pub Replies-looks : (f : Server → A) → Replies P (λ a s. P s × (f s ≡ a)) (looks f)
  unfolding looks
  Replies-looks f = record { at = λ s h a e. (h, ground arith) }

  pub Replies-weak :
      (Q R : A → Server → Type 0) (m : Serving A)
      → Replies P Q m
      → ((a : A) (s : Server) → Q a s → R a s)
      → Replies P R m
  Replies-weak Q R m l k = record { at = λ s h a e. k a (m s).1 (l.at s h a e) }

  pub Replies-from :
      (S : Server → Type 0) (Q : A → Server → Type 0) (m : Serving A)
      → ((s : Server) → P s → S s)
      → Replies S Q m
      → Replies P Q m
  Replies-from S Q m h l = record { at = λ s k a e. l.at s (h s k) a e }

  -- A fact that holds at the start may be used throughout.
  pub Replies-given :
      (F : Type 0) (Q : A → Server → Type 0) (m : Serving A)
      → (F → Replies P Q m)
      → Replies (λ s. P s × F) Q m
  Replies-given F Q m k = record { at = λ s h a e. (k h.1).at s h.0 a e }

module _ {A B : Type 0} (Q : A → Server → Type 0) (R : B → Server → Type 0)
    (f : A → Serving B) where
  resume-Replies :
      (o : Outcome A) (s : Server)
      → ((a : A) → o ≡ ok a → Q a s)
      → ((a : A) → Replies (Q a) R (f a))
      → (b : B) → (resume f (o, s)).0 ≡ ok b
      → R b (resume f (o, s)).1
  unfolding resume
  resume-Replies (ok a) s h k b e = (k a).at s (h a refl) b e
  resume-Replies (raised x) s h k b e = ground arith
  resume-Replies cancelled s h k b e = ground arith

  pub Replies-bind :
      {P : Server → Type 0} (m : Serving A)
      → Replies P Q m
      → ((a : A) → Replies (Q a) R (f a))
      → Replies P R (m >>= f)
  unfolding ◌>>=◌
  Replies-bind m l k = record {
    at = λ s h b e. let (o, s') = m s in resume-Replies o s' (l.at s h) k b e;
  }

reraise-ok : {A : Type 0} (f : Exn → Exn) (o : Outcome A) (a : A) → reraise f o ≡ ok a → o ≡ ok a
reraise-ok f (ok x) a e = e
reraise-ok f (raised x) a e = ground arith
reraise-ok f cancelled a e = ground arith

pub Replies-Preserves :
    {A : Type 0} {P : World → Type 0} (m : Serving A)
    → Preserves P m
    → Replies (λ s. P s.world) (λ _ s. P s.world) m
Replies-Preserves m k = record { at = λ s h a e. k.at s h }

-- The server of a published configuration.
pub record IsSaved (new : AutomationConfig) (s : Server) : Type 0 where
  pub published : IsPublished new s.world
  pub current : current_config s ≡ new

IsPublished-refresh :
    (new : AutomationConfig) (s : Server) → IsPublished new s.world → IsSaved new (refresh s)
unfolding refresh current_config
IsPublished-refresh new s h = record { published = h; current = h.active _ }

abbrev pub IsOrderly : Server → Type 0
IsOrderly s = Orderly s.world

module _ (p : Platform) (host : Host) (rounds : ℕ) (new : AutomationConfig) where
  updated-Saved :
      (current : AutomationConfig) (u : Publication)
      → Replies IsOrderly
          (λ b s. b ≡ true → IsSaved new s)
          (finally refresh (except_as as_conflict (run (update p rounds u current new))))
  unfolding finally except_as run
  updated-Saved current u = record {
    at = λ s h b e yes.
        IsPublished-refresh new (record s { world = (update p rounds u current new s.world).1 })
          (update-IsPublished p u current new rounds s.world h
            (reraise-ok as_conflict _ b e ∙ ap ok yes));
  }

  pub persist_config-Saved :
      (after : Option (List Call → Outcome (Unit {0})))
      → Replies IsOrderly (λ b s. b ≡ true → IsSaved new s) (persist_config p host rounds new after)
  unfolding persist_config
  persist_config-Saved after =
      Replies-bind (λ _. IsOrderly) _ _ _ (Replies-Preserves _ (Preserves-give _))
        (λ path.
          Replies-bind (λ _. IsOrderly) _ _ _ (Replies-Preserves _ (Preserves-give _))
            (λ _.
              Replies-bind (λ _. IsOrderly) _ _ _
                (Replies-Preserves _ (
                  check_keeper-Preserves p host Orderly-quiet transact-Orderly
                    (reconcile_execution-Keeps-Orderly p) _ _ new))
                (λ _.
                  Replies-bind (λ _. IsOrderly) _ _ _ (Replies-Preserves _ (Preserves-looks _))
                    (λ worker. updated-Saved worker.config _))))

-- What `validated_update` returns: the candidate, with its paths made absolute.
pub validated_update-Normalized :
    (p : Platform) (host : Host) (candidate : AutomationConfig)
    → Replies IsOrderly
        (λ new s.
          IsOrderly s
          × ((path : String) × (host.config_path ≡ some path)
              × (new ≡ normalize_config_paths host.paths path candidate)))
        (validated_update p host candidate)
unfolding validated_update normalized_for_persist writable
validated_update-Normalized p host candidate =
    Replies-bind (λ _. IsOrderly) _ _ _
      (Replies-Preserves _ (Preserves-except _ _ (Preserves-give _)))
      (λ _. Replies-weak _ _ _ (Replies-give _) (λ new s h. (h.0, normal new h.1)))
  where
    normal :
        (new : AutomationConfig)
        → normalized_for_persist p host candidate ≡ ok new
        → (path : String) × (host.config_path ≡ some path)
          × (new ≡ normalize_config_paths host.paths path candidate)
    normal new e = elim (Option-cases host.config_path) [
      | inl missing ↦ ground arith
      | inr (path, c) ↦ (path, c, ground arith)
    ]
