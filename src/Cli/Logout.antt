-- ===== src/Cli/Logout.antt =====
-- crates/edison-stdiod/src/cli/logout.rs: the saved login is removed before it is revoked.
pub mod Offline
use stdiod.Base.{String, Bool, Option, none, some, List, [], ◌∷◌, Result, ok, err, if◌then◌else◌}
use stdiod.Config.{
  PersistedConfig, FileRead, CredentialRef, client_access_token, legacy_api_key, load_from,
  usable_credential, clear_authentication,
}
use stdiod.Config.Backend.{Url}
use stdiod.Http.{Request}
use stdiod.Cli.Login.{Login, failed, config, not_saved, revoke_previous}

abbrev pub only_client : String → CredentialRef → Option (String × String)
only_client backend credential = elim credential.kind [
  | client_access_token ↦ some (backend, credential.token)
  | legacy_api_key ↦ none
]

abbrev pub capture_of : Option String → Option CredentialRef → Option (String × String)
capture_of none credential = none
capture_of (some backend) none = none
capture_of (some backend) (some credential) = only_client backend credential

-- The backend and the token to revoke; an API key is not revoked.
unfoldable pub capture_revocation : PersistedConfig → Option (String × String)
capture_revocation c = capture_of c.backend_url (usable_credential c)

-- `run`: a failure to save ends the command before anything is sent.
unfoldable pub run : (String → Option Url) → String → FileRead → (save_fails : Bool) → Login
run parse path file save_fails = elim (load_from path file) [
  | err e ↦ failed [] (config e)
  | ok c ↦ if save_fails then failed [] not_saved else record {
    saved = some (clear_authentication c);
    opened = [];
    revocations = revoke_previous parse (capture_revocation c);
    result = ok tt;
  }
]
