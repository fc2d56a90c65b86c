-- ===== src/Cli/Login.antt =====
-- crates/edison-stdiod/src/cli/login.rs: authorization of the device, and the login with an API key.
pub mod Accounts
pub mod Outcomes
pub mod Failures
pub mod Secrets
use stdiod.Base.{
  ℕ, String, Bool, true, false, ◌&&◌, ◌||◌, not, Option, none, some, List, [], ◌∷◌, or_else, Result,
  ok, err, or_fail, require, map_err, ◌>>=◌, ◌>>◌, if◌then◌else◌, ◌==◌, same_text?,
}
use stdiod.Base.Text.{append, is_blank}
use stdiod.Config.{PersistedConfig, FileRead, load_from, nonempty, clear_authentication}
use stdiod.Config.Backend.{Url, normalize_backend_url, same_backend}
use stdiod.Http.{Request, Response}
use stdiod.Auth.{
  AuthError, DeviceCodeResponse, DeviceTokenResponse, Pkce, Platform, generate, initiate, post,
  validate_http_url,
}
use stdiod.Auth
use stdiod.Auth.Poll.{Decoders, World, Polled, poll}

pub record LoginArgs : Type 0 where
  pub backend : Option String
  pub api_key : Option String
  pub no_open : Bool
  pub edison_secret_key : Option String
  pub device_id : Option String
  pub device_label : Option String

pub data LoginError : Type 0 where
  config : String → LoginError
  auth : AuthError → LoginError
  not_saved poll_unfinished : LoginError

-- `account_changed`: whether any of the identifiers that the backend issued differs.
unfoldable pub account_changed : PersistedConfig → Bool → DeviceTokenResponse → Bool
account_changed c same_issuer token =
    not same_issuer
    || not (same_text? c.client_installation_id (some token.client_installation_id))
    || not (same_text? c.authenticated_user_id (some token.user_id))
    || not (same_text? c.authenticated_org_id (some token.org_id))

unfoldable pub capture_client_revocation : PersistedConfig → Option (String × String)
capture_client_revocation c = elim c.backend_url [
  | none ↦ none
  | some backend ↦ elim (nonempty c.client_access_token) [
    | none ↦ none
    | some token ↦ some (backend, token)
  ]
]

unfoldable pub reusable_installation : PersistedConfig → Bool → Option String
reusable_installation c same_issuer =
    if same_issuer then nonempty c.client_installation_id else none

unfoldable pub legacy_config : PersistedConfig → String → String → LoginArgs → PersistedConfig
legacy_config c backend api_key args = record c {
  backend_url = some backend;
  api_key = some api_key;
  client_access_token = none;
  client_installation_id = none;
  authenticated_user_id = none;
  authenticated_org_id = none;
  scopes = [];
  edison_secret_key = or_else args.edison_secret_key c.edison_secret_key;
  device_id = or_else args.device_id c.device_id;
  device_label = or_else args.device_label c.device_label;
}

-- `cfg.client_access_token.is_some_and(|token| !token.is_empty())`
has_client_token : PersistedConfig → Bool
has_client_token c = elim (nonempty c.client_access_token) [ none ↦ false | some t ↦ true ]

unfoldable pub configure_legacy_login :
    PersistedConfig → String → Bool → String → LoginArgs → Result String PersistedConfig
unfolding has_client_token
configure_legacy_login c backend same_issuer api_key args =
    let kept = if not same_issuer || has_client_token c then clear_authentication c else c in
    require (not (is_blank api_key)) "legacy API key cannot be empty"
    >> ok (legacy_config kept backend api_key args)

-- What `run` saves of a token.
unfoldable pub authorized_config :
    PersistedConfig → String → Bool → DeviceTokenResponse → LoginArgs → PersistedConfig
authorized_config c backend changed token args = record c {
  backend_url = some backend;
  api_key = none;
  client_access_token = some token.access_token;
  client_installation_id = some token.client_installation_id;
  authenticated_user_id = some token.user_id;
  authenticated_org_id = some token.org_id;
  device_id = some token.device_id;
  scopes = token.scope;
  device_label = or_else args.device_label c.device_label;
  edison_secret_key =
      if changed
      then args.edison_secret_key
      else or_else args.edison_secret_key c.edison_secret_key;
}

-- What a command leaves: the configuration that it saved, if it saved one, the URLs that it handed to
-- the browser, the revocations that it sent after that, and its result.
pub record Login : Type 0 where
  pub saved : Option PersistedConfig
  pub opened : List String
  pub revocations : List Request
  pub result : Result LoginError Unit

abbrev pub failed : List String → LoginError → Login
failed opened e = record { saved = none; opened = opened; revocations = []; result = err e }

-- What the command reads and calls: the configuration file and whether saving fails, randomness and
-- SHA-256, the browser, the HTTP library with its decoders, and the clock.
pub record Host : Type 0 where
  pub path : String
  pub file : FileRead
  pub save_fails : Bool
  pub random : Option String
  pub sha256 : String → String
  pub platform : Platform
  pub open_browser : String → Bool
  pub send : Request → Result String Response
  pub decode_code : String → Result String DeviceCodeResponse
  pub decoders : Decoders
  pub world : World
  pub latest : ℕ
  pub now : ℕ

module _ (parse : String → Option Url) where
  -- The request that `revoke_previous` sends; its outcome is only logged.
  unfoldable pub revoke_previous : Option (String × String) → List Request
  revoke_previous none = []
  revoke_previous (some (backend, token)) = elim (Auth.new parse backend) [
    | err e ↦ []
    | ok base ↦ post base "/api/v1/auth/device/revoke" (some token) none ∷ []
  ]

  -- Whether the opener reported success, and the URLs that it was called with.
  unfoldable pub try_open_browser :
      String → Bool → (String → Bool) → Result AuthError (Bool × List String)
  try_open_browser url no_open opener =
      validate_http_url parse url >> ok (if no_open then (false, []) else (opener url, url ∷ []))

  -- The normalized backend of the arguments, or else of the saved configuration.
  unfoldable pub chosen_backend : LoginArgs → PersistedConfig → Result String String
  chosen_backend args c = elim args.backend [
    | some value ↦ normalize_backend_url parse value
    | none ↦
        or_fail (nonempty c.backend_url) "missing backend URL. Pass --backend on first login."
        >>= normalize_backend_url parse
  ]

  module _ (host : Host) where
    -- `save_login`, and what the command does after it.
    unfoldable pub save_login : PersistedConfig → List String → List Request → Login
    save_login c opened revocations =
        if host.save_fails
        then failed opened not_saved
        else record { saved = some c; opened = opened; revocations = revocations; result = ok tt }

    unfoldable pub legacy_login : PersistedConfig → String → Bool → String → LoginArgs → Login
    legacy_login c backend same_issuer api_key args =
        elim (configure_legacy_login c backend same_issuer api_key args) [
          | err e ↦ failed [] (config e)
          | ok next ↦ save_login next [] (revoke_previous (capture_client_revocation c))
        ]

    -- From the random verifier to the code that the user has to confirm.
    unfoldable pub start_authorization :
        PersistedConfig
        → String
        → Bool
        → LoginArgs
        → Result AuthError (Pkce × String × DeviceCodeResponse)
    start_authorization c backend same_issuer args = do
      pkce ← generate host.random host.sha256
      base ← Auth.new parse backend
      let label = or_else args.device_label c.device_label
      answer ←
          initiate host.send base parse host.decode_code host.platform pkce.challenge label
            (reusable_installation c same_issuer)
      ok (pkce, base, answer)

    unfoldable pub poll_token :
        Pkce → String → DeviceCodeResponse → Result LoginError DeviceTokenResponse
    poll_token pkce base answer =
        or_fail (poll host.decoders host.world base host.latest host.now answer pkce.verifier)
          poll_unfinished
        >>= λ p. map_err auth p.result

    -- The last part: the token replaces the account.
    unfoldable pub finish_login :
        PersistedConfig → String → Bool → LoginArgs → List String → DeviceTokenResponse → Login
    finish_login c backend same_issuer args opened token =
        let changed = account_changed c same_issuer token in
        save_login (authorized_config c backend changed token args) opened
          (if changed then revoke_previous (capture_client_revocation c) else [])

    unfoldable pub wait_login :
        PersistedConfig → String → Bool → LoginArgs → Pkce × String × DeviceCodeResponse → Login
    wait_login c backend same_issuer args (pkce, base, answer) =
        elim (try_open_browser answer.verification_uri_complete args.no_open host.open_browser) [
          | err e ↦ failed [] (auth e)
          | ok (_, opened) ↦ elim (poll_token pkce base answer) [
            | err e ↦ failed opened e
            | ok token ↦ finish_login c backend same_issuer args opened token
          ]
        ]

    unfoldable pub device_login : PersistedConfig → String → Bool → LoginArgs → Login
    device_login c backend same_issuer args =
        elim (start_authorization c backend same_issuer args) [
          | err e ↦ failed [] (auth e)
          | ok started ↦ wait_login c backend same_issuer args started
        ]

    -- The command with a loaded configuration and a chosen backend, by whether a key was given.
    unfoldable pub login_with : Option String → LoginArgs → PersistedConfig → String → Login
    login_with (some api_key) args c backend =
        legacy_login c backend (same_backend parse c.backend_url backend) api_key args
    login_with none args c backend =
        device_login c backend (same_backend parse c.backend_url backend) args

    unfoldable pub run : LoginArgs → Login
    run args = elim (load_from host.path host.file) [
      | err e ↦ failed [] (config e)
      | ok c ↦ elim (chosen_backend args c) [
        | err e ↦ failed [] (config e)
        | ok backend ↦ login_with args.api_key args c backend
      ]
    ]
