-- ===== src/Cli/Login/Accounts.antt =====
-- What a login leaves in the configuration file, and what the daemon makes of it.
use stdiod.Base.{
  String, Bool, false, ◌≡◌, refl, ◌∙◌, ap, subst, inl, inr, Option, none, some, List, ok,
  Result-cases, bind-inv, map_err-inv, or_fail-inv, arith, or_fail, map_err,
}
use stdiod.Base.Text.{is_blank}
use stdiod.Config.{
  PersistedConfig, Machine, load_from, nonempty, usable_credential, choose_credential,
}
use stdiod.Config.Backend.{
  Url, ensure_installable, normalize_backend_url, check_binding, same_backend,
}
use stdiod.DaemonAuth.Installed.{Runs, ensure_installable-Runs}
use stdiod.Auth.{
  AuthError, DeviceCodeResponse, DeviceTokenResponse, Pkce, validate_token, generate, initiate,
  protocol,
}
use stdiod.Auth
use stdiod.Auth.Poll.{poll}
use stdiod.Auth.Deadline.{poll-validate_token}
use stdiod.Cli.Login.{
  LoginArgs, Login, Host, account_changed, authorized_config, start_authorization, poll_token,
  finish_login, wait_login, device_login, login_with, run, save_login, chosen_backend,
  try_open_browser, poll_unfinished,
}

-- A token that was accepted has what the daemon needs.
record IsUsable (token : DeviceTokenResponse) : Type 0 where
  pub access : is_blank token.access_token ≡ false
  pub installation : is_blank token.client_installation_id ≡ false
  pub device : is_blank token.device_id ≡ false

validate_token-IsUsable :
    (token : DeviceTokenResponse) → validate_token token ≡ ok tt → IsUsable token
unfolding validate_token
validate_token-IsUsable token valid = record {
  access = ground arith;
  installation = ground arith;
  device = ground arith;
}

backend_not_blank :
    (parse : String → Option Url) (backend base : String)
    → parse "" ≡ none
    → normalize_backend_url parse backend ≡ ok base
    → is_blank backend ≡ false
unfolding normalize_backend_url
backend_not_blank parse String.[] base empty known = cc
backend_not_blank parse (String.◌∷◌ c s) base empty known = refl

authorized_config-ensure_installable :
    (parse : String → Option Url) (c : PersistedConfig) (backend base : String) (changed : Bool)
    (token : DeviceTokenResponse) (args : LoginArgs)
    → parse "" ≡ none
    → normalize_backend_url parse backend ≡ ok base
    → validate_token token ≡ ok tt
    → ensure_installable parse (authorized_config c backend changed token args) ≡ ok tt
unfolding authorized_config ensure_installable usable_credential choose_credential nonempty
    check_binding
authorized_config-ensure_installable parse c backend base changed token args empty known valid =
    let u = validate_token-IsUsable token valid in
    rw (backend_not_blank parse backend base empty known, known, u.access, u.installation, u.device)
      refl

poll_token-validate_token :
    (parse : String → Option Url) (host : Host) (pkce : Pkce) (base : String)
    (answer : DeviceCodeResponse) (token : DeviceTokenResponse)
    → poll_token parse host pkce base answer ≡ ok token
    → validate_token token ≡ ok tt
unfolding poll_token
poll_token-validate_token parse host pkce base answer token e =
    let (p, polled, got) =
      bind-inv
        (or_fail (poll host.decoders host.world base host.latest host.now answer pkce.verifier)
          poll_unfinished)
        _ token e in
    (poll-validate_token host.decoders host.world base host.latest host.now answer pkce.verifier p
      token (or_fail-inv _ _ p polled) (map_err-inv _ _ token got)).0

-- A login by authorization that succeeded went to its end with an accepted token.
record IsFinished (parse : String → Option Url) (host : Host) (args : LoginArgs)
    (c : PersistedConfig) (backend : String) (same_issuer : Bool) (l : Login) : Type 0 where
  pub token : DeviceTokenResponse
  pub base : String
  pub opened : List String
  pub valid : validate_token token ≡ ok tt
  pub known : normalize_backend_url parse backend ≡ ok base
  pub ending : l ≡ finish_login parse host c backend same_issuer args opened token

started_base :
    (parse : String → Option Url) (host : Host) (c : PersistedConfig) (backend : String)
    (same_issuer : Bool) (args : LoginArgs) (started : Pkce × String × DeviceCodeResponse)
    → start_authorization parse host c backend same_issuer args ≡ ok started
    → (base : String) × (normalize_backend_url parse backend ≡ ok base)
unfolding start_authorization Auth.new
started_base parse host c backend same_issuer args started e =
    let (pkce, _, f) = bind-inv (generate host.random host.sha256) _ started e in
    let (base, known, _) =
      bind-inv
        (map_err (λ _. protocol "backend URL was invalid") (normalize_backend_url parse backend)) _
        started f in
    (base, map_err-inv _ _ base known)

module _ (parse : String → Option Url) (host : Host) (args : LoginArgs) (c : PersistedConfig)
    (backend : String) (same_issuer : Bool) where
  wait_login-IsFinished :
      (pkce : Pkce) (at base : String) (answer : DeviceCodeResponse)
      → normalize_backend_url parse backend ≡ ok base
      → let l = wait_login parse host c backend same_issuer args (pkce, at, answer) in
        l.result ≡ ok tt → IsFinished parse host args c backend same_issuer l
  unfolding wait_login
  wait_login-IsFinished pkce at base answer known =
      elim (Result-cases
        (try_open_browser parse answer.verification_uri_complete args.no_open host.open_browser)) [
          | inr (e, bad) ↦ rw (bad, wait_login) (λ done. cc)
          | inl ((shown, opened), fine) ↦
              rw (fine, wait_login)
                elim (Result-cases (poll_token parse host pkce at answer)) [
                  | inr (e, bad) ↦ rw bad (λ done. cc)
                  | inl (token, polled) ↦ rw polled (λ done. record {
                    token = token;
                    base = base;
                    opened = opened;
                    valid = poll_token-validate_token parse host pkce at answer token polled;
                    known = known;
                    ending = refl;
                  })
                ]
        ]

  device_login-IsFinished :
      let l = device_login parse host c backend same_issuer args in
      l.result ≡ ok tt → IsFinished parse host args c backend same_issuer l
  unfolding device_login
  device_login-IsFinished =
      elim (Result-cases (start_authorization parse host c backend same_issuer args)) [
        | inr (e, bad) ↦ rw (bad, device_login) (λ done. cc)
        | inl ((pkce, at, answer), fine) ↦
            rw (fine, device_login)
              (wait_login-IsFinished pkce at _ answer
                (started_base parse host c backend same_issuer args _ fine).1)
      ]

-- A login that succeeded loaded a configuration and chose a backend.
record IsRun (parse : String → Option Url) (host : Host) (args : LoginArgs) (l : Login)
    : Type 0 where
  pub loaded : PersistedConfig
  pub backend : String
  pub loads : load_from host.path host.file ≡ ok loaded
  pub chooses : chosen_backend parse args loaded ≡ ok backend
  pub continues : l ≡ login_with parse host args.api_key args loaded backend

module _ (parse : String → Option Url) (host : Host) (args : LoginArgs) where
  run-IsRun : (run parse host args).result ≡ ok tt → IsRun parse host args (run parse host args)
  unfolding run
  run-IsRun = elim (Result-cases (load_from host.path host.file)) [
    | inr (e, bad) ↦ rw (bad, run) (λ done. cc)
    | inl (c, loads) ↦
        rw (loads, run)
          elim (Result-cases (chosen_backend parse args c)) [
            | inr (e, bad) ↦ rw bad (λ done. cc)
            | inl (backend, chooses) ↦ rw chooses (λ done. record {
              loaded = c;
              backend = backend;
              loads = loads;
              chooses = chooses;
              continues = refl;
            })
          ]
  ]

  -- The configuration that a finished login saved, when saving succeeded.
  finish_login-saved :
      (c : PersistedConfig) (backend : String) (same_issuer : Bool) (opened : List String)
      (token : DeviceTokenResponse)
      → let l = finish_login parse host c backend same_issuer args opened token in
        l.result ≡ ok tt
        → l.saved
          ≡ some (authorized_config c backend (account_changed c same_issuer token) token args)
  unfolding finish_login save_login
  finish_login-saved c backend same_issuer opened token = ground arith

  device_login-Runs :
      (machine : Machine) (c : PersistedConfig) (backend : String)
      → parse "" ≡ none
      → let same = same_backend parse c.backend_url backend in
        let l = device_login parse host c backend same args in
        l.result ≡ ok tt
        → (saved : PersistedConfig) × (l.saved ≡ some saved) × Runs parse machine saved
  device_login-Runs machine c backend empty done =
      let same = same_backend parse c.backend_url backend in
      let f = device_login-IsFinished parse host args c backend same done in
      let ended = subst (λ l. l.result ≡ ok tt) f.ending done in
      let changed = account_changed c same f.token in
      (
        authorized_config c backend changed f.token args,
        ap (λ l. l.saved) f.ending ∙ finish_login-saved c backend same f.opened f.token ended,
        ensure_installable-Runs parse machine _ (
            authorized_config-ensure_installable parse c backend f.base changed f.token args empty
              f.known f.valid),
      )

  -- A login by authorization that reports success saved a configuration with which the daemon,
  -- started without arguments, connects to the backend of that configuration with its credential.
  -- The parser of URLs is assumed to reject the empty text.
  pub run-Runs :
      (machine : Machine)
      → parse "" ≡ none
      → args.api_key ≡ none
      → (run parse host args).result ≡ ok tt
      → (saved : PersistedConfig) × ((run parse host args).saved ≡ some saved)
        × Runs parse machine saved
  unfolding login_with
  run-Runs machine empty asks done =
      let r = run-IsRun done in
      let step : run parse host args ≡ login_with parse host none args r.loaded r.backend =
        r.continues ∙ ap (λ key. login_with parse host key args r.loaded r.backend) asks in
      let (saved, e, runs) =
        device_login-Runs machine r.loaded r.backend empty
          (subst (λ l. l.result ≡ ok tt) step done) in
      (saved, ap (λ l. l.saved) step ∙ e, runs)
