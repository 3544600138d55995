-- ===== src/Service/Admission.antt =====
-- Who may use the service (src/xian_dex_automation/service.py).
pub mod Admitted
use Prim.Native.Char.{Char, code}
use Prim.Native.String
use text.Mathlib.Text.{starts_with}
use xian_dex_automation.Base.{
  ℕ, zero, suc, ltb, String, Bool, true, false, not, ◌&&◌, ◌||◌, Option, none, some, str_eq, ◌==◌,
  text_append, if◌then◌else◌,
}
use xian_dex_automation.Outcome.{Outcome, exn, ok, raised, raise_if, ◌>>=◌, ◌>>◌}
use xian_dex_automation.Credentials.{truthy}
use xian_dex_automation.Runtime.{Text}
use xian_dex_automation.Service.{http_error}

-- The parts of a request that are checked; a header that is not sent is `none`.
pub record HttpRequest : Type 0 where
  pub method : String
  pub scheme : String
  pub netloc : String
  pub host : Option String
  pub origin : Option String
  pub sec_fetch_site : Option String
  pub authorization : Option String

-- `text[n:]`, in characters.
unfoldable pub drop_text : ℕ → String → String
drop_text zero s = s
drop_text (suc n) String.[] = ""
drop_text (suc n) (String.◌∷◌ c s) = drop_text n s

-- `text.rstrip("/")`.
unfoldable pub rstrip_slash : String → String
rstrip_slash String.[] = ""
rstrip_slash (String.◌∷◌ c s) =
    let rest = rstrip_slash s in if str_eq rest "" && code c == b'/' then "" else String.◌∷◌ c rest

-- No character is outside ASCII.
unfoldable pub is_ascii : String → Bool
is_ascii String.[] = true
is_ascii (String.◌∷◌ c s) = ltb (code c) 128 && is_ascii s

-- `hmac.compare_digest` of two `str`, which raises where either is not ASCII.
unfoldable pub compare_digest : String → String → Outcome Bool
compare_digest a b =
    if is_ascii a && is_ascii b
    then ok (str_eq a b)
    else raised (exn "TypeError" "comparing strings with non-ASCII characters is not supported")

-- `headers.get('host', netloc)`.
abbrev host_or : Option String → String → String
host_or none netloc = netloc
host_or (some h) netloc = h

module _ (str : Text) where
  -- `_normalize_admin_token`.
  unfoldable pub normalize_admin_token : Option String → Option String
  normalize_admin_token none = none
  normalize_admin_token (some token) = truthy (some (str.strip token))

  -- `_request_origin`.
  unfoldable pub request_origin : HttpRequest → String
  request_origin r = text_append r.scheme (text_append "://" (host_or r.host r.netloc))

  -- `UNSAFE_METHODS`.
  unfoldable pub is_unsafe : String → Bool
  is_unsafe m = str_eq m "POST" || str_eq m "PUT" || str_eq m "PATCH" || str_eq m "DELETE"

  unfoldable pub check_origin : Option String → String → Outcome (Unit {0})
  unfolding rstrip_slash
  check_origin none expected = ok tt
  check_origin (some origin) expected =
      raise_if (not (str_eq (rstrip_slash origin) (rstrip_slash expected)))
        (http_error "403" "cross-origin admin request rejected")

  unfoldable pub check_site : Option String → Outcome (Unit {0})
  check_site none = ok tt
  check_site (some site) =
      raise_if (str_eq (str.lower site) "cross-site")
        (http_error "403" "cross-site admin request rejected")

  -- `_require_same_origin`.
  unfoldable pub require_same_origin : HttpRequest → Outcome (Unit {0})
  unfolding check_origin check_site
  require_same_origin r = do
    check_origin (truthy r.origin) (request_origin r)
    check_site (truthy r.sec_fetch_site)

  -- The token that an `Authorization` header carries.
  unfoldable pub supplied_token : Option String → Outcome String
  unfolding drop_text
  supplied_token none = raised (http_error "401" "admin bearer token required")
  supplied_token (some header) =
      if starts_with header "Bearer "
      then ok (str.strip (drop_text 7 header))
      else raised (http_error "401" "admin bearer token required")

  unfoldable pub check_token : Option String → HttpRequest → Outcome (Unit {0})
  unfolding supplied_token compare_digest
  check_token none r =
      raised (http_error "503" "XIAN_DEX_AUTOMATION_ADMIN_TOKEN is required for the admin API")
  check_token (some expected) r = do
    supplied ← supplied_token (truthy r.authorization)
    same ← compare_digest supplied expected
    raise_if (not same) (http_error "401" "invalid admin bearer token")
    if is_unsafe (str.upper r.method) then require_same_origin r else ok tt

  -- `_require_admin_token`, given `app.state.admin_token`.
  unfoldable pub require_admin_token : Option String → HttpRequest → Outcome (Unit {0})
  unfolding check_token
  require_admin_token token r = check_token (truthy token) r
