-- ===== src/Cli/Login/Outcomes.antt =====
-- The ways in which a login can end.
use stdiod.Base.{String, Bool, ◌≡◌, ◌≢◌, inl, inr, Option, List, [], ok, err, Result-cases}
use stdiod.Config.{PersistedConfig, load_from}
use stdiod.Config.Backend.{Url}
use stdiod.Auth.{DeviceCodeResponse, DeviceTokenResponse, Pkce}
use stdiod.Auth.Deadline.{poll-terminates}
use stdiod.Cli.Login.{
  LoginArgs, Login, LoginError, Host, failed, start_authorization, poll_token, finish_login,
  wait_login, device_login, legacy_login, configure_legacy_login, login_with, run, save_login,
  chosen_backend, try_open_browser, poll_unfinished, revoke_previous, capture_client_revocation,
  config, auth,
}

-- The poll of a login has fuel enough.
poll_token-poll_unfinished :
    (parse : String → Option Url) (host : Host) (pkce : Pkce) (base : String)
    (answer : DeviceCodeResponse) (e : LoginError)
    → poll_token parse host pkce base answer ≡ err e
    → e ≢ poll_unfinished
unfolding poll_token
poll_token-poll_unfinished parse host pkce base answer e failed_with =
    let (p, returned, _, _, _) =
      poll-terminates host.decoders host.world base host.latest host.now answer pkce.verifier in
    elim (Result-cases p.result) [
      | inl (token, got) ↦ let h = rw (returned, got) at failed_with in cc
      | inr (x, got) ↦ let h = rw (returned, got) at failed_with in cc
    ]

-- A property of logins that every ending has, is one that the command has.
module _ (parse : String → Option Url) (host : Host) (args : LoginArgs) (P : Login → Type 0)
    (fails : (opened : List String) (e : LoginError)
      → e ≢ poll_unfinished
      → P (failed opened e)) where
  pub by_key :
      (c : PersistedConfig) (backend : String) (same_issuer : Bool) (key : String)
      → ((next : PersistedConfig)
          → configure_legacy_login c backend same_issuer key args ≡ ok next
          → P (save_login parse host next [] (revoke_previous parse (capture_client_revocation c))))
      → P (legacy_login parse host c backend same_issuer key args)
  unfolding legacy_login
  by_key c backend same_issuer key saves =
      elim (Result-cases (configure_legacy_login c backend same_issuer key args)) [
        | inr (e, bad) ↦ rw (bad, legacy_login) (fails [] (config e) cc)
        | inl (next, fine) ↦ rw (fine, legacy_login) (saves next fine)
      ]

  by_waiting :
      (c : PersistedConfig) (backend : String) (same_issuer : Bool)
      (started : Pkce × String × DeviceCodeResponse)
      → ((opened : List String) (token : DeviceTokenResponse)
          → P (finish_login parse host c backend same_issuer args opened token))
      → P (wait_login parse host c backend same_issuer args started)
  unfolding wait_login
  by_waiting c backend same_issuer (pkce, base, answer) ends =
      elim (Result-cases
        (try_open_browser parse answer.verification_uri_complete args.no_open host.open_browser)) [
          | inr (e, bad) ↦ rw (bad, wait_login) (fails [] (auth e) cc)
          | inl ((shown, opened), fine) ↦
              rw (fine, wait_login)
                elim (Result-cases (poll_token parse host pkce base answer)) [
                  | inr (e, bad) ↦ rw bad (
                      fails opened e (poll_token-poll_unfinished parse host pkce base answer e bad))
                  | inl (token, polled) ↦ rw polled (ends opened token)
                ]
        ]

  pub by_device :
      (c : PersistedConfig) (backend : String) (same_issuer : Bool)
      → ((opened : List String) (token : DeviceTokenResponse)
          → P (finish_login parse host c backend same_issuer args opened token))
      → P (device_login parse host c backend same_issuer args)
  unfolding device_login
  by_device c backend same_issuer ends =
      elim (Result-cases (start_authorization parse host c backend same_issuer args)) [
        | inr (e, bad) ↦ rw (bad, device_login) (fails [] (auth e) cc)
        | inl (started, fine) ↦
            rw (fine, device_login) (by_waiting c backend same_issuer started ends)
      ]

  pub by_loaded :
      ((c : PersistedConfig) (backend : String)
        → load_from host.path host.file ≡ ok c
        → P (login_with parse host args.api_key args c backend))
      → P (run parse host args)
  unfolding run
  by_loaded continues = elim (Result-cases (load_from host.path host.file)) [
    | inr (e, bad) ↦ rw (bad, run) (fails [] (config e) cc)
    | inl (c, loads) ↦
        rw (loads, run)
          elim (Result-cases (chosen_backend parse args c)) [
            | inr (e, bad) ↦ rw bad (fails [] (config e) cc)
            | inl (backend, chooses) ↦ rw chooses (continues c backend loads)
          ]
  ]
