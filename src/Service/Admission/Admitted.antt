-- ===== src/Service/Admission/Admitted.antt =====
-- Which requests the service admits (service.py).
use text.Mathlib.Text.{starts_with}
use xian_dex_automation.Base.{
  ℕ, String, Bool, true, false, not, ◌&&◌, Option, none, some, eq_iff, ◌≡◌, ◌≢◌, ◌↔◌, refl, ap, sym,
  ◌∙◌, if◌then◌else◌, arith, Option-cases, Bool-cases, inl, inr,
}
use xian_dex_automation.Outcome.{Outcome, ok, raised, cancelled, Exn, raise_if, ◌>>=◌}
use xian_dex_automation.Credentials.{truthy}
use xian_dex_automation.Runtime.{Platform, Text}
use xian_dex_automation.Service
use xian_dex_automation.Service.{Host, Server, http_error}
use xian_dex_automation.Service.Admission.{
  HttpRequest, drop_text, rstrip_slash, request_origin, is_unsafe, check_origin, check_site,
  require_same_origin, is_ascii, compare_digest, supplied_token, check_token, require_admin_token,
}
use xian_dex_automation.Service.Routes.{Route, index, health, serve, is_public}

module _ (str : Text) where
  -- Neither header shows another origin.
  pub record IsSameOrigin (r : HttpRequest) : Type 0 where
    pub origin :
        (o : String)
        → truthy r.origin ≡ some o
        → rstrip_slash o ≡ rstrip_slash (request_origin str r)
    pub site : (s : String) → truthy r.sec_fetch_site ≡ some s → str.lower s ≢ "cross-site"

  -- The request carries the configured token, which is ASCII, and if it changes things it comes from the same
  -- origin.
  pub record IsAdmitted (token : Option String) (r : HttpRequest) : Type 0 where
    pub expected : String
    pub configured : truthy token ≡ some expected
    pub header : String
    pub sent : truthy r.authorization ≡ some header
    pub bearer : starts_with header "Bearer " ≡ true
    pub carries : str.strip (drop_text 7 header) ≡ expected
    pub plain : is_ascii expected ≡ true
    pub same_origin : is_unsafe str (str.upper r.method) ≡ true → IsSameOrigin r

  check_origin_iff :
      (o : Option String) (expected : String)
      → (check_origin str o expected ≡ ok tt)
        ↔ ((x : String) → o ≡ some x → rstrip_slash x ≡ rstrip_slash expected)
  unfolding check_origin
  check_origin_iff none expected = (λ e x h. ground arith, λ h. refl)
  check_origin_iff (some o) expected = (
    λ e x h. ground (arith, eq_iff (rstrip_slash o) (rstrip_slash expected)),
    λ h. ground (arith, h o refl, eq_iff (rstrip_slash o) (rstrip_slash expected)),
  )

  check_site_iff :
      (o : Option String)
      → (check_site str o ≡ ok tt) ↔ ((x : String) → o ≡ some x → str.lower x ≢ "cross-site")
  unfolding check_site
  check_site_iff none = (λ e x h. ground arith, λ h. refl)
  check_site_iff (some o) = (
    λ e x h l. ground (arith, eq_iff (str.lower o) "cross-site"),
    λ h. ground (arith, h o refl, eq_iff (str.lower o) "cross-site"),
  )

  require_same_origin_iff : (r : HttpRequest) → (require_same_origin str r ≡ ok tt) ↔ IsSameOrigin r
  unfolding require_same_origin
  require_same_origin_iff r = (
    λ e.
        let both = then_ok _ _ e in
        record {
          origin = (check_origin_iff (truthy r.origin) (request_origin str r)).0 both.0;
          site = (check_site_iff (truthy r.sec_fetch_site)).0 both.1;
        },
    λ s.
        rw ((check_origin_iff (truthy r.origin) (request_origin str r)).1 s.origin)
          ((check_site_iff (truthy r.sec_fetch_site)).1 s.site),
  )
    where
      then_ok : (a b : Outcome (Unit {0})) → (a >>= λ _. b) ≡ ok tt → (a ≡ ok tt) × (b ≡ ok tt)
      then_ok (ok x) b e = (refl, e)
      then_ok (raised x) b e = ground arith
      then_ok cancelled b e = ground arith

  supplied_token_iff :
      (authorization : Option String) (t : String)
      → (supplied_token str authorization ≡ ok t) ↔ (
          (header : String) × (authorization ≡ some header)
          × (starts_with header "Bearer " ≡ true)
          × (str.strip (drop_text 7 header) ≡ t))
  unfolding supplied_token
  supplied_token_iff none t = (λ e. ground arith, λ h. ground arith)
  supplied_token_iff (some header) t =
      (λ e. (header, refl, ground arith, ground arith), λ h. ground arith)

  -- The test of the origin, for a method that changes things.
  origin_if_unsafe :
      (b : Bool) (r : HttpRequest)
      → ((if b then require_same_origin str r else ok tt) ≡ ok tt) ↔ (b ≡ true → IsSameOrigin r)
  origin_if_unsafe true r =
      (λ e h. (require_same_origin_iff r).0 e, λ h. (require_same_origin_iff r).1 (h refl))
  origin_if_unsafe false r = (λ e h. ground arith, λ h. refl)

  -- The test of a supplied token, with the rest.
  compared :
      (t expected : String) (rest : Outcome (Unit {0}))
      → ((compare_digest t expected >>= λ same.
            raise_if (not same) (http_error "401" "invalid admin bearer token") >>= λ _. rest)
          ≡ ok tt)
        ↔ ((t ≡ expected) × (is_ascii expected ≡ true) × (rest ≡ ok tt))
  unfolding compare_digest
  compared t expected rest = (
    λ e. elim (Bool-cases (is_ascii t && is_ascii expected)) [
      | inl plain ↦ (ground (arith, eq_iff t expected), ground arith, ground arith)
      | inr other ↦ ground arith
    ],
    λ (same, plain, e). rw (ap is_ascii same) (ground (arith, eq_iff t expected)),
  )

  bind_iff :
      (m : Outcome String) (k : String → Outcome (Unit {0}))
      → ((m >>= k) ≡ ok tt) ↔ ((t : String) × (m ≡ ok t) × (k t ≡ ok tt))
  bind_iff (ok t) k = (λ e. (t, refl, e), λ h. ground arith)
  bind_iff (raised x) k = (λ e. ground arith, λ h. ground arith)
  bind_iff cancelled k = (λ e. ground arith, λ h. ground arith)

  check_token_iff :
      (expected : String) (r : HttpRequest)
      → (check_token str (some expected) r ≡ ok tt) ↔ (
          (t : String) × (supplied_token str (truthy r.authorization) ≡ ok t)
          × (t ≡ expected)
          × (is_ascii expected ≡ true)
          × (is_unsafe str (str.upper r.method) ≡ true → IsSameOrigin r))
  unfolding check_token
  check_token_iff expected r = (
    λ h.
        let (t, e, k) = (bind_iff (supplied_token str (truthy r.authorization)) _).0 h in
        let (same, plain, rest) = (compared t expected _).0 k in
        (t, e, same, plain, (origin_if_unsafe _ r).0 rest),
    λ (t, e, same, plain, origin).
        (bind_iff (supplied_token str (truthy r.authorization)) _).1
          ((t, e, (compared t expected _).1 (same, plain, (origin_if_unsafe _ r).1 origin))),
  )

  IsAdmitted-by :
      (token : Option String) (r : HttpRequest) (expected : String)
      → truthy token ≡ some expected
      → check_token str (some expected) r ≡ ok tt
      → IsAdmitted token r
  IsAdmitted-by token r expected c h =
      let (t, e, same, plain, origin) = (check_token_iff expected r).0 h in
      let (header, sent, bearer, carries) = (supplied_token_iff (truthy r.authorization) t).0 e in
      record {
        expected = expected;
        configured = c;
        header = header;
        sent = sent;
        bearer = bearer;
        carries = carries ∙ same;
        plain = plain;
        same_origin = origin;
      }

  -- `_require_admin_token` lets a request pass exactly if a token that is not empty is configured,
  -- the request's `Authorization` header begins with `Bearer ` and carries, its outer spaces
  -- stripped, that token, which is ASCII, and, for a method that changes things, an `Origin` header that is not
  -- empty names the request's own origin, up to slashes at the end, and `Sec-Fetch-Site` is not
  -- `cross-site` in any case of letters.
  pub require_admin_token_iff :
      (token : Option String) (r : HttpRequest)
      → (require_admin_token str token r ≡ ok tt) ↔ IsAdmitted token r
  unfolding require_admin_token check_token
  require_admin_token_iff token r = (forward, backward)
    where
      forward : check_token str (truthy token) r ≡ ok tt → IsAdmitted token r
      forward e = elim (Option-cases (truthy token)) [
        | inl missing ↦ ground (arith, sym (ap (λ o. check_token str o r) missing) ∙ e)
        | inr (expected, c) ↦
            IsAdmitted-by token r expected c (sym (ap (λ o. check_token str o r) c) ∙ e)
      ]

      backward : IsAdmitted token r → check_token str (truthy token) r ≡ ok tt
      backward a =
          ap (λ o. check_token str o r) a.configured
          ∙ (check_token_iff a.expected r).1 (
              (
                a.expected,
                (supplied_token_iff (truthy r.authorization) a.expected).1
                    (a.header, a.sent, a.bearer, a.carries),
                refl,
                a.plain,
                a.same_origin,
              ))

  -- A check is no point at which a request is cancelled.
  check_token-returns :
      (token : Option String) (r : HttpRequest) → check_token str token r ≢ cancelled
  unfolding check_token supplied_token require_same_origin check_origin check_site
  check_token-returns none r e = ground arith
  check_token-returns (some expected) r e = ground arith

refused : (o : Outcome (Unit {0})) → o ≢ ok tt → o ≢ cancelled → (x : Exn) × (o ≡ raised x)
refused (ok tt) n c = absurd (n refl)
refused (raised x) n c = (x, refl)
refused cancelled n c = absurd (c refl)

module _ (p : Platform) (host : Host) (rounds : ℕ) (r : HttpRequest) (s : Server) where
  stopped :
      (route : Route) (x : Exn)
      → is_public p host route ≡ false
      → require_admin_token p.str host.admin_token r ≡ raised x
      → serve p host rounds r route s ≡ (raised x, s)
  unfolding serve Service.◌>>=◌
  stopped route x private e = rw private (rw e refl)

  private_route : (route : Route) → route ≢ index → route ≢ health → is_public p host route ≡ false
  unfolding is_public
  private_route index ni nh = absurd (ni refl)
  private_route health ni nh = absurd (nh refl)
  private_route _ ni nh = refl

  -- A request that carries no configured token or one that is not ASCII, or comes from another origin where it would change
  -- things, to any route but `/` and `/health`, ends in an exception, and leaves the service, its
  -- store and the calls it has made as they were.
  pub serve-refused :
      (route : Route)
      → route ≢ index
      → route ≢ health
      → (IsAdmitted p.str host.admin_token r → ⊥)
      → (x : Exn) × (serve p host rounds r route s ≡ (raised x, s))
  unfolding require_admin_token
  serve-refused route ni nh unfit =
      let (x, e) =
        refused (require_admin_token p.str host.admin_token r)
          (λ e. unfit ((require_admin_token_iff p.str host.admin_token r).0 e))
          (check_token-returns p.str (truthy host.admin_token) r) in
      (x, stopped route x (private_route route ni nh) e)
