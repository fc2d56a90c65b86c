-- ===== src/Auth.antt =====
-- crates/edison-stdiod/src/auth.rs: the authorization of a device, but for the poll loop, which is Auth.Poll.
-- Random bytes, SHA-256, base64, the HTTP library and its JSON decoding are arguments.
pub mod Poll
pub mod Turns
pub mod Deadline
pub mod Tests
use Prim.Native.Char.{Char, code}
use stdiod.Base.{
  ℕ, String, Bool, true, false, ◌&&◌, ◌||◌, not, Option, none, some, List, [], ◌∷◌, Result, ok, err,
  or_fail, require, map_err, ◌>>=◌, ◌>>◌, if◌then◌else◌, eqb, ◌==◌,
}
use stdiod.Base.Text.{append, is_blank, eq_ignore_ascii_case}
use stdiod.Protocol.{Json, text, array, object, Items, nil, cons, Fields, end, field}
use stdiod.Config.Backend.{Url, UrlHost, is_loopback_host, normalize_backend_url}
use stdiod.Http
use stdiod.Http.{HttpError, Request, Response, request_failed}

abbrev pub client_id : String
client_id = "stdiod"

abbrev pub client_scopes : List String
client_scopes =
    "tunnel:connect" ∷ "mcp_requests:create" ∷ "mcp_requests:read" ∷ "servers:self:read" ∷ []

pub data AuthError : Type 0 where
  http : HttpError → AuthError
  access_denied expired backend_rejected : AuthError
  protocol : String → AuthError

pub record Pkce : Type 0 where
  pub verifier : String
  pub challenge : String

-- `fill` is the 32 random bytes in base64, `sha256` the digest of a text in base64.
unfoldable pub generate : Option String → (String → String) → Result AuthError Pkce
generate fill sha256 = or_fail fill (protocol "secure random generation failed") >>= λ verifier.
    ok (record { verifier = verifier; challenge = sha256 verifier })

pub record DeviceCodeResponse : Type 0 where
  pub device_code : String
  pub user_code : String
  pub verification_uri : String
  pub verification_uri_complete : String
  pub expires_in : ℕ
  pub interval : ℕ

pub record DeviceTokenResponse : Type 0 where
  pub access_token : String
  pub token_type : String
  pub client_installation_id : String
  pub device_id : String
  pub scope : List String
  pub user_id : String
  pub org_id : String

pub data ScopeValue : Type 0 where
  list : List String → ScopeValue
  space_delimited : String → ScopeValue

unfoldable pub is_ascii_whitespace : Char → Bool
is_ascii_whitespace c =
    eqb (code c) 9 || eqb (code c) 10 || eqb (code c) 12 || eqb (code c) 13 || eqb (code c) 32

-- A word that is not empty, before the other words.
unfoldable pub add_word : String → List String → List String
add_word String.[] words = words
add_word (String.◌∷◌ c w) words = String.◌∷◌ c w ∷ words

-- The word that a text starts with, empty where it starts with a space, and the words after it.
unfoldable pub first_and_rest : String → String × List String
first_and_rest String.[] = ("", [])
first_and_rest (String.◌∷◌ c s) =
    let r = first_and_rest s in
    if is_ascii_whitespace c then ("", add_word r.0 r.1) else (String.◌∷◌ c r.0, r.1)

-- `split_ascii_whitespace`
unfoldable pub split_ascii_whitespace : String → List String
split_ascii_whitespace s = add_word (first_and_rest s).0 (first_and_rest s).1

unfoldable pub deserialize_scopes : ScopeValue → List String
deserialize_scopes (list scopes) = scopes
deserialize_scopes (space_delimited scopes) = split_ascii_whitespace scopes

-- The checks that a verification URL passes, given what the parser of the `url` crate returns.
unfoldable pub check_http_url : Url → UrlHost → Result AuthError Unit
check_http_url u host =
    require (u.scheme == "https" || (u.scheme == "http" && is_loopback_host host))
      (protocol "verification URL must use https (or http on loopback)")

unfoldable pub validate_token : DeviceTokenResponse → Result AuthError Unit
validate_token token = do
  require (eq_ignore_ascii_case token.token_type "bearer") (protocol "token_type was not Bearer")
  require
      (not (
        is_blank token.access_token
        || is_blank token.client_installation_id
        || is_blank token.device_id
        || is_blank token.user_id
        || is_blank token.org_id))
      (protocol "token response omitted required identity fields")

module _ (parse : String → Option Url) where
  unfoldable pub validate_http_url : String → Result AuthError Unit
  validate_http_url raw = do
    u ← or_fail (parse raw) (protocol "verification URL was invalid")
    host ← or_fail u.host (protocol "verification URL must include a hostname")
    check_http_url u host

  unfoldable pub validate_device_code : DeviceCodeResponse → Result AuthError Unit
  validate_device_code answer = do
    require
        (not (is_blank answer.device_code || is_blank answer.user_code || eqb answer.expires_in 0))
        (protocol "missing device code, user code, or expiry")
    validate_http_url answer.verification_uri
    validate_http_url answer.verification_uri_complete

  -- `AuthClient::new`, whose only state is the base of its URLs.
  unfoldable pub new : String → Result AuthError String
  new base = map_err (λ _. protocol "backend URL was invalid") (normalize_backend_url parse base)

-- The values of the platform that a request names.
pub record Platform : Type 0 where
  pub os : String
  pub version : String

unfoldable pub texts : List String → Items
texts [] = nil
texts (s ∷ more) = cons (text s) (texts more)

-- `skip_serializing_if = "Option::is_none"`
unfoldable pub optional_field : String → Option String → Fields → Fields
optional_field key none rest = rest
optional_field key (some value) rest = field key (text value) rest

-- The JSON of a `DeviceCodeRequest`.
unfoldable pub device_code_request : Platform → String → Option String → Option String → Json
device_code_request platform challenge device_label installation = object (
    field "client_id" (text client_id) (
      field "scope" (array (texts client_scopes)) (
        field "code_challenge" (text challenge) (
          field "code_challenge_method" (text "S256") (
            optional_field "device_label" device_label (
              optional_field "client_installation_id" installation (
                field "platform" (text platform.os)
                  (field "client_version" (text platform.version) end))))))))

unfoldable pub post : String → String → Option String → Option Json → Request
post base path bearer json = record {
  method = "POST";
  url = append base path;
  bearer = bearer;
  json = json;
}

module _ (send : Request → Result String Response) (base : String) where
  unfoldable pub initiate :
      (String → Option Url)
      → (String → Result String DeviceCodeResponse)
      → Platform
      → String
      → Option String
      → Option String
      → Result AuthError DeviceCodeResponse
  initiate parse from_str platform challenge device_label installation =
      let path : String = "/api/v1/auth/device/code" in
      let body = device_code_request platform challenge device_label installation in
      do
        r ←
            map_err (λ e. http (request_failed (append "POST " path) e))
              (send (post base path none (some body)))
        answer ← map_err http (Http.decode_json from_str r (append "POST " path))
        _ ← validate_device_code parse answer
        ok answer

  unfoldable pub revoke : String → Result HttpError Unit
  revoke token =
      let path : String = "/api/v1/auth/device/revoke" in
      map_err (request_failed (append "POST " path)) (send (post base path (some token) none))
      >>= λ r. Http.expect_success r (append "POST " path)
