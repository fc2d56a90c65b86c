-- ===== src/Cli/Login/Failures.antt =====
-- What a login that fails has changed.
use stdiod.Base.{String, Bool, ◌≡◌, ◌≢◌, refl, Option, none, some, List, [], err, if_rule}
use stdiod.Config.{PersistedConfig}
use stdiod.Config.Backend.{Url}
use stdiod.Auth.{DeviceTokenResponse}
use stdiod.Http.{Request}
use stdiod.Cli.Login.{
  LoginArgs, Login, LoginError, Host, failed, finish_login, login_with, run, save_login,
  poll_unfinished,
}
use stdiod.Cli.Login.Outcomes.{by_key, by_device, by_loaded}

-- A login that reports an error saved nothing and revoked nothing.
abbrev IsWhole : Login → Type 0
IsWhole l =
    (e : LoginError)
    → l.result ≡ err e
    → (l.saved ≡ none) × (l.revocations ≡ []) × (e ≢ poll_unfinished)

save_login-IsWhole :
    (parse : String → Option Url) (host : Host) (c : PersistedConfig) (opened : List String)
    (revocations : List Request)
    → IsWhole (save_login parse host c opened revocations)
unfolding save_login
save_login-IsWhole parse host c opened revocations =
    if_rule IsWhole host.save_fails _ _ (λ _ e h. (refl, refl, cc)) (λ _ e h. cc)

module _ (parse : String → Option Url) (host : Host) (args : LoginArgs) where
  failed-IsWhole :
      (opened : List String) (e : LoginError) → e ≢ poll_unfinished → IsWhole (failed opened e)
  failed-IsWhole opened e other e' h = (refl, refl, λ same. other cc)

  finish-IsWhole :
      (c : PersistedConfig) (backend : String) (same_issuer : Bool) (opened : List String)
      (token : DeviceTokenResponse)
      → IsWhole (finish_login parse host c backend same_issuer args opened token)
  unfolding finish_login
  finish-IsWhole c backend same_issuer opened token = save_login-IsWhole parse host _ opened _

  with-IsWhole :
      (key : Option String) (c : PersistedConfig) (backend : String)
      → IsWhole (login_with parse host key args c backend)
  unfolding login_with
  with-IsWhole (some key) c backend =
      by_key parse host args IsWhole failed-IsWhole c backend _ key
        (λ next _. save_login-IsWhole parse host next [] _)
  with-IsWhole none c backend =
      by_device parse host args IsWhole failed-IsWhole c backend _ (finish-IsWhole c backend _)

  -- A login that reports an error has saved nothing and has not revoked the credential before it, and
  -- the error is never that the fuel of the poll ran out.
  pub run-error :
      (e : LoginError)
      → (run parse host args).result ≡ err e
      → ((run parse host args).saved ≡ none)
        × ((run parse host args).revocations ≡ [])
        × (e ≢ poll_unfinished)
  run-error =
      by_loaded parse host args IsWhole failed-IsWhole
        (λ c backend _. with-IsWhole args.api_key c backend)
