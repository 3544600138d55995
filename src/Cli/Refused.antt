-- ===== src/Cli/Refused.antt =====
-- The API is not served openly without a token (cli.py).
use xian_dex_automation.Base.{
  ℕ, String, Bool, true, Option, some, ◌≡◌, refl, ◌↔◌, ◌⊎◌, inl, inr, arith, is_none, Bool-cases,
  Option-cases, str_eq, eq_iff,
}
use xian_dex_automation.Outcome.{Outcome, ok}
use xian_dex_automation.Config.{AutomationConfig}
use xian_dex_automation.Runtime.{Text}
use xian_dex_automation.Cli.{
  serving, api_started, Addresses, is_loopback_host, validate_serve_host, configured_admin_token,
  main, run, checked_host,
}

-- The host is `localhost` or a loopback address, or there is an admin token.
abbrev pub MayServe : Text → Addresses → (String → Option String) → String → Type 0
MayServe str addresses environ host =
    let value = str.lower (addresses.strip_brackets (str.strip host)) in
    (value ≡ "localhost")
    ⊎ (addresses.is_loopback value ≡ some true)
    ⊎ ((token : String) × (configured_admin_token str addresses environ ≡ some token))

module _ (str : Text) (addresses : Addresses) where
  loopback-cases :
      (host : String)
      → is_loopback_host str addresses (some host) ≡ true
      → let value = str.lower (addresses.strip_brackets (str.strip host)) in
        (value ≡ "localhost") ⊎ (addresses.is_loopback value ≡ some true)
  unfolding is_loopback_host
  loopback-cases host h =
      let value = str.lower (addresses.strip_brackets (str.strip host)) in
      elim (Bool-cases (str_eq value "localhost")) [
        | inl e ↦ inl (ground (arith, eq_iff value "localhost"))
        | inr e ↦ inr (ground arith)
      ]

  named-loopback :
      (host : String)
      → str.lower (addresses.strip_brackets (str.strip host)) ≡ "localhost"
      → is_loopback_host str addresses (some host) ≡ true
  unfolding is_loopback_host
  named-loopback host e = rw e refl

  address-loopback :
      (host : String)
      → addresses.is_loopback (str.lower (addresses.strip_brackets (str.strip host))) ≡ some true
      → is_loopback_host str addresses (some host) ≡ true
  unfolding is_loopback_host
  address-loopback host e = ground arith

-- With a configuration that can be read, `serve` starts the API exactly if the host, its outer
-- spaces and brackets stripped and in small letters, is `localhost` or a loopback address, or an
-- admin token is configured; and it then runs the configuration on this host and port, having
-- printed the warning exactly if there is no token.
pub main-MayServe :
    (str : Text) (addresses : Addresses) (environ : String → Option String)
    (load : String → Outcome AutomationConfig) (path host : String) (port : ℕ) (with_worker : Bool)
    (c : AutomationConfig)
    → load path ≡ ok c
    → (main str addresses environ load
          (record { config = path; command = serving host port with_worker })
        ≡ ok (
            api_started
              (is_none (configured_admin_token str addresses environ))
              c
              host
              port
              with_worker))
      ↔ MayServe str addresses environ host
unfolding main run validate_serve_host checked_host
main-MayServe str addresses environ load path host port with_worker c e = (
  λ started. elim (Bool-cases (is_loopback_host str addresses (some host))) [
    | inl l ↦ elim (loopback-cases str addresses host l) [ inl k ↦ inl k | inr k ↦ inr (inl k) ]
    | inr l ↦ elim (Option-cases (configured_admin_token str addresses environ)) [
      | inl none_there ↦ absurd (ground arith)
      | inr (token, k) ↦ inr (inr (token, k))
    ]
  ],
  λ may. elim may [
    | inl k ↦ rw (named-loopback str addresses host k, e) refl
    | inr (inl k) ↦ rw (address-loopback str addresses host k, e) refl
    | inr (inr (token, k)) ↦ ground arith
  ],
)
