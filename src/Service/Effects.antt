-- ===== src/Service/Effects.antt =====
-- What the requests that change the configuration have done when they are answered (service.py).
use xian_dex_automation.Base.{
  ℕ, String, Bool, true, false, Option, none, List, eq_iff, opt_eq_iff, ◌≡◌, ◌≢◌, refl, arith, sym,
  ◌∙◌, subst,
}
use xian_dex_automation.Outcome.{Outcome, ok, raise_if, Exn}
use xian_dex_automation.Config.{AutomationConfig}
use xian_dex_automation.Runtime.{Call, Platform}
use xian_dex_automation.Service.{Host, Server, Serving, give, looks, except_as, ◌>>=◌}
use xian_dex_automation.Service.Changes.{current_config, persist_config}
use xian_dex_automation.Service.Wallet.{wallet_key_source_changed, wallet_payload}
use xian_dex_automation.Service.Routes.{Reply, waiting, once_saved, wallet_reply, put_config_yaml}
use xian_dex_automation.Service.Replies.{
  Replies, Replies-give, Replies-looks, Replies-weak, Replies-from, Replies-given, Replies-bind,
  IsSaved, IsOrderly, persist_config-Saved,
}

-- The wallet's key comes from the same variables of the environment and the same file.
abbrev pub SameSource : AutomationConfig → AutomationConfig → Type 0
SameSource a b =
    (b.wallet.private_key_env ≡ a.wallet.private_key_env)
    × (b.wallet.private_key_file ≡ a.wallet.private_key_file)
    × (b.wallet.private_key_file_env ≡ a.wallet.private_key_file_env)

unchanged-SameSource :
    (a b : AutomationConfig) → wallet_key_source_changed a b ≡ false → SameSource a b
unfolding wallet_key_source_changed
unchanged-SameSource a b h = (
  ground (arith, eq_iff a.wallet.private_key_env b.wallet.private_key_env),
  sym ((opt_eq_iff a.wallet.private_key_file b.wallet.private_key_file).0 (ground arith)),
  ground (arith, eq_iff a.wallet.private_key_file_env b.wallet.private_key_file_env),
)

-- An answer that is given once the configuration is saved.
abbrev pub OnceSaved : AutomationConfig → Reply → Server → Type 0
OnceSaved new r s = r ≢ waiting → IsSaved new s

-- Steps that leave the server as it is.
abbrev pub Steady : {A : Type 0} → (Server → Type 0) → Serving A → Type 0
Steady P m = Replies P (λ _. P) m

module _ {A : Type 0} (P : Server → Type 0) where
  pub give-Steady : (o : Outcome A) → Steady P (give o)
  give-Steady o = Replies-weak _ _ _ (Replies-give o) (λ a s h. h.0)

  pub looks-Steady : (f : Server → A) → Steady P (looks f)
  looks-Steady f = Replies-weak _ _ _ (Replies-looks f) (λ a s h. h.0)

Replies-except :
    {A : Type 0} (P : Server → Type 0) (f : Exn → Exn) (o : Outcome A)
    → Steady P (except_as f (give o))
unfolding except_as give
Replies-except P f o = record { at = λ s h a e. h }

module _ (p : Platform) (host : Host) (rounds : ℕ) where
  pub wallet_reply-Steady : (P : Server → Type 0) → Steady P (wallet_reply p host)
  unfolding wallet_reply wallet_payload
  wallet_reply-Steady P =
      Replies-bind (λ _. P) _ _ _
        (Replies-bind (λ _. P) _ _ _ (looks-Steady P _) (λ c. give-Steady P _))
        (λ payload. give-Steady P _)

  pub once_saved-Replies :
      (P : Server → Type 0) (b : Bool) (m : Serving Reply)
      → Steady P m
      → Replies (λ s. b ≡ true → P s) (λ r s. r ≢ waiting → P s) (once_saved b m)
  unfolding once_saved
  once_saved-Replies P true m k = record { at = λ s h r e _. k.at s (h refl) r e }
  once_saved-Replies P false m k =
      Replies-weak _ _ _ (Replies-give (ok waiting)) (λ r s h n. absurd (n (ground arith)))

  -- A configuration that is persisted, then the answer.
  pub persist-Replies :
      (new : AutomationConfig) (after : Option (List Call → Outcome (Unit {0}))) (m : Serving Reply)
      → Steady (IsSaved new) m
      → Replies IsOrderly
          (OnceSaved new)
          (persist_config p host rounds new after >>= λ b. once_saved b m)
  persist-Replies new after m k =
      Replies-bind _ _ _ _ (persist_config-Saved p host rounds new after)
        (λ b. once_saved-Replies (IsSaved new) b m k)

  -- The active configuration has the sources of the key that `c` has.
  abbrev KeepsSource : AutomationConfig → Reply → Server → Type 0
  KeepsSource c r s = r ≢ waiting → SameSource c (current_config s)

  -- The test of the key's sources passed.
  unchanged : (b : Bool) (what : Exn) (a : Unit {0}) → raise_if b what ≡ ok a → b ≡ false
  unchanged b what a e = ground arith

  put_config_yaml-Replies :
      (body : String) (c : AutomationConfig)
      → Replies
          (λ s. IsOrderly s × (current_config s ≡ c))
          (KeepsSource c)
          (put_config_yaml p host rounds body)
  unfolding put_config_yaml
  put_config_yaml-Replies body c =
      Replies-bind (λ _. start) _ _ _ (give-Steady start _)
        (λ path.
          Replies-bind (λ _. start) _ _ _ (Replies-except start _ _)
            (λ new.
              Replies-bind (λ c' s. start s × (current_config s ≡ c')) _ _ _
                (Replies-looks current_config)
                (λ c'. Replies-bind _ _ _ _ (Replies-give _) (λ passed.
                  Replies-from (λ s. IsOrderly s × (wallet_key_source_changed c new ≡ false)) _ _
                    (λ s h. (
                      h.0.0.0,
                      subst (λ x. wallet_key_source_changed x new ≡ false) (sym h.0.1 ∙ h.0.0.1)
                          (unchanged _ _ passed h.1),
                    ))
                    (Replies-given _ _ _ (λ same.
                      Replies-weak _ _ _ (persist-Replies new none _ (give-Steady (IsSaved new) _))
                        (λ r s k n.
                          subst (SameSource c) (sym (k n).current)
                            (unchanged-SameSource c new same))))))))
    where
      start : Server → Type 0
      start s = IsOrderly s × (current_config s ≡ c)

  -- If the store is orderly and `PUT /config.yaml` is answered, other than by running out of rounds
  -- of `update`, then the configuration that is then active names the same environment variables
  -- and the same key file for the wallet's key as the one before.
  pub put_config_yaml-SameSource :
      (body : String) (s : Server) (r : Reply)
      → IsOrderly s
      → (put_config_yaml p host rounds body s).0 ≡ ok r
      → r ≢ waiting
      → SameSource (current_config s) (current_config (put_config_yaml p host rounds body s).1)
  put_config_yaml-SameSource body s r h e n =
      (put_config_yaml-Replies body (current_config s)).at s (h, refl) r e n
