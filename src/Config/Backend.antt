-- ===== src/Config/Backend.antt =====
-- `normalize_backend_url` of config.rs, over what the `url` crate's parser returns.
use Prim.Native.Char.{code}
use stdiod.Base.{
  String, Bool, false, ◌&&◌, ◌||◌, not, Option, none, some, is_some, Result, ok, err, or_fail,
  require, ◌>>=◌, ◌>>◌, if◌then◌else◌, eqb, ◌==◌,
}
use stdiod.Base.Text.{is_blank, has_prefix, eq_ignore_ascii_case}
use stdiod.Config.{
  CredentialKind, client_access_token, legacy_api_key, PersistedConfig, nonempty, usable_credential,
  missing,
}

-- `url::Host`; of an address only whether it is a loopback address.
pub data UrlHost : Type 0 where
  domain : String → UrlHost
  ipv4 ipv6 : (is_loopback : Bool) → UrlHost

-- The parts of a `url::Url` that the program reads; `text` is `as_str()`.
pub record Url : Type 0 where
  pub scheme : String
  pub username : String
  pub password : Option String
  pub host : Option UrlHost
  pub path : String
  pub query : Option String
  pub fragment : Option String
  pub text : String

unfoldable pub is_loopback_host : UrlHost → Bool
is_loopback_host (domain d) = eq_ignore_ascii_case d "localhost"
is_loopback_host (ipv4 is_loopback) = is_loopback
is_loopback_host (ipv6 is_loopback) = is_loopback

-- `authority.contains('@')`, where the authority ends at the first `/`, `?` or `#`.
unfoldable pub at_in_authority : String → Bool
at_in_authority String.[] = false
at_in_authority (String.◌∷◌ c s) =
    let rest = at_in_authority s in
    if eqb (code c) 47 || eqb (code c) 63 || eqb (code c) 35 then false else eqb (code c) 64 || rest

drop_two : String → String
drop_two (String.◌∷◌ a (String.◌∷◌ b t)) = t
drop_two t = ""

-- The remainder of `raw.split_once("://")`, empty without the separator.
unfoldable pub after_separator : String → String
unfolding drop_two
after_separator String.[] = ""
after_separator (String.◌∷◌ c s) =
    let rest = after_separator s in if has_prefix "://" (String.◌∷◌ c s) then drop_two s else rest

-- `trim_end_matches('/')`
unfoldable pub trim_end_slashes : String → String
trim_end_slashes String.[] = ""
trim_end_slashes (String.◌∷◌ c s) =
    let rest = trim_end_slashes s in
    if is_blank rest && eqb (code c) 47 then "" else String.◌∷◌ c rest

host_is_loopback : Option UrlHost → Bool
host_is_loopback none = false
host_is_loopback (some h) = is_loopback_host h

-- The checks on a parsed URL, in their order.
unfoldable pub check_url : String → Url → Result String Unit
unfolding host_is_loopback
check_url raw u = do
  require ((u.scheme == "http" || u.scheme == "https") && is_some u.host)
      "backend URL must be an absolute HTTP(S) URL"
  require
      (is_blank u.username
        && not (is_some u.password)
        && not (at_in_authority (after_separator raw)))
      "backend URL must not contain user information"
  require (not (is_some u.query) && not (is_some u.fragment))
      "backend URL must not contain a query or fragment"
  require (u.path == "" || u.path == "/") "backend URL must not contain a path"
  require (not (u.scheme == "http") || host_is_loopback u.host)
      "cleartext HTTP backend URLs are allowed only for localhost or loopback IPs"

-- What a credential of this kind needs besides its token.
unfoldable pub check_binding : CredentialKind → PersistedConfig → Result String Unit
check_binding client_access_token c =
    require (is_some (nonempty c.client_installation_id))
      "client credential is missing client_installation_id; run `edison-stdiod login` again"
    >> require (is_some (nonempty c.device_id))
        "client credential is missing its server-issued device_id; run `edison-stdiod login` again"
check_binding legacy_api_key c = ok tt

-- `parse` is the `url` crate's parser.
module _ (parse : String → Option Url) where
  unfoldable pub normalize_backend_url : String → Result String String
  normalize_backend_url raw = or_fail (parse raw) "backend URL is invalid" >>= λ u.
      check_url raw u >> ok (trim_end_slashes u.text)

  normalized? : Option String → Option String
  normalized? none = none
  normalized? (some value) = elim (normalize_backend_url value) [ ok u ↦ some u | err e ↦ none ]

  unfoldable pub same_backend : Option String → String → Bool
  unfolding normalized?
  same_backend left right = elim (normalize_backend_url right) [
    | err e ↦ false
    | ok r ↦ elim (normalized? left) [ none ↦ false | some l ↦ l == r ]
  ]

  unfoldable pub ensure_installable : PersistedConfig → Result String Unit
  ensure_installable c = do
    backend ←
        or_fail (nonempty c.backend_url) (missing "backend URL" "--backend / EDISON_BACKEND_URL")
    _ ← normalize_backend_url backend
    credential ←
        or_fail (usable_credential c) "no credentials on disk; run `edison-stdiod login` first"
    check_binding credential.kind c
