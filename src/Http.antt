-- ===== src/Http.antt =====
-- crates/edison-stdiod/src/http.rs: the client of the backend's REST calls. What the HTTP library does
-- with a request is the argument `send`; decoding a body is the argument `from_str`.
use stdiod.Base.{
  ℕ, String, Bool, true, false, ◌&&◌, ◌||◌, Option, none, some, List, [], ◌∷◌, value_or, Result, ok,
  err, or_fail, map_err, ◌>>=◌, if◌then◌else◌, eqb, leb, ltb,
}
use stdiod.Base.Text.{append}
use stdiod.Protocol.{Json}
use stdiod.Config.{PersistedConfig, usable_credential}
use stdiod.Config.Backend.{Url, normalize_backend_url}

-- `body` is missing where reading it failed; `retry_after` is the header of that name.
pub record Response : Type 0 where
  pub status : ℕ
  pub body : Option String
  pub retry_after : Option String

pub record Request : Type 0 where
  pub method : String
  pub url : String
  pub bearer : Option String
  pub json : Option Json

-- An error of a library is kept as its text.
pub data HttpError : Type 0 where
  request_failed : (operation source : String) → HttpError
  bad_status : (operation : String) → (code : ℕ) → (body : String) → HttpError
  not_decoded : (operation : String) → (code : ℕ) → (source : String) → HttpError

unfoldable pub status : HttpError → Option ℕ
status (request_failed operation source) = none
status (bad_status operation code body) = some code
status (not_decoded operation code source) = some code

unfoldable pub is_auth_rejection : HttpError → Bool
is_auth_rejection e = elim (status e) [ none ↦ false | some code ↦ eqb code 401 || eqb code 403 ]

-- The `Display` of an error, with the text of a status code as an argument.
unfoldable pub display : (ℕ → String) → HttpError → String
display show (request_failed operation source) =
    append operation (append " request failed: " source)
display show (bad_status operation code body) =
    append operation (append " returned HTTP " (show code))
display show (not_decoded operation code source) =
    append operation
      (append " returned invalid JSON (HTTP " (append (show code) (append "): " source)))

-- The fields that `Debug` prints of an error.
unfoldable pub debug_fields : (ℕ → String) → HttpError → List (String × String)
debug_fields show (request_failed operation source) =
    ("operation", operation) ∷ ("source", source) ∷ []
debug_fields show (bad_status operation code body) =
    ("operation", operation) ∷ ("status", show code) ∷ ("body", "<redacted>") ∷ []
debug_fields show (not_decoded operation code source) =
    ("operation", operation) ∷ ("status", show code) ∷ ("source", source) ∷ []

-- `StatusCode::is_success`
unfoldable pub is_success : ℕ → Bool
is_success code = leb 200 code && ltb code 300

-- `text().await.unwrap_or_default()`
unfoldable pub text_of : Response → String
text_of r = value_or r.body ""

unfoldable pub status_error : Response → String → HttpError
status_error r operation = bad_status operation r.status (text_of r)

unfoldable pub expect_success : Response → String → Result HttpError Unit
expect_success r operation = if is_success r.status then ok tt else err (status_error r operation)

unfoldable pub decode_json :
    {T : Type 0} → (String → Result String T) → Response → String → Result HttpError T
decode_json from_str r operation =
    if is_success r.status
    then map_err (not_decoded operation r.status) (from_str (text_of r))
    else err (bad_status operation r.status (text_of r))

pub record BackendClient : Type 0 where
  pub base : String
  pub token : String

-- `BackendClient::new` and `from_config`, over the parser of URLs.
module _ (parse : String → Option Url) where
  unfoldable pub new : String → String → Result String BackendClient
  new base token = normalize_backend_url parse base >>= λ normalized.
      ok (record { base = normalized; token = token })

  unfoldable pub from_config : PersistedConfig → Result String BackendClient
  from_config c = do
    credential ←
        or_fail (usable_credential c)
          "no credential on disk. Run `edison-stdiod login --backend ...`."
    backend ←
        or_fail c.backend_url "no backend URL on disk. Run `edison-stdiod login --backend ...`."
    new backend credential.token

-- The requests of a client.
module _ (send : Request → Result String Response) (client : BackendClient) where
  unfoldable pub request : String → String → Option Json → Request
  request method path json = record {
    method = method;
    url = append client.base path;
    bearer = some client.token;
    json = json;
  }

  unfoldable pub get_json : {T : Type 0} → (String → Result String T) → String → Result HttpError T
  get_json from_str path =
      map_err (request_failed (append "GET " path)) (send (request "GET" path none)) >>= λ r.
      decode_json from_str r (append "GET " path)

  unfoldable pub post_json :
      {T : Type 0} → (String → Result String T) → String → Json → Result HttpError T
  post_json from_str path body =
      map_err (request_failed (append "POST " path)) (send (request "POST" path (some body)))
      >>= λ r. decode_json from_str r (append "POST " path)

  -- `true` when the backend removed something, `false` when it had nothing of that name.
  unfoldable pub delete : String → Result HttpError Bool
  delete path =
      map_err (request_failed (append "DELETE " path)) (send (request "DELETE" path none)) >>= λ r.
      if eqb r.status 204
      then ok true
      else if eqb r.status 404
      then ok false
      else err (status_error r (append "DELETE " path))
