-- ===== src/DaemonAuth.antt =====
-- crates/edison-stdiod/src/daemon_auth.rs: the connection values that the daemon runs with.
pub mod Installed
pub mod Reset
pub mod Tests
use stdiod.Base.{
  String, Bool, true, false, ◌&&◌, ◌||◌, not, Option, none, some, is_some, same_text?, Result, ok,
  err, or_fail, map_err, ◌>>=◌, if◌then◌else◌, ◌==◌, ◌≡◌, refl,
}
use stdiod.Base.Text.{append, is_blank, replace}
use stdiod.Tunnel.{
  ConnectError, SessionCloseError, connect_needs_reauth, close_needs_reauth, needs_upgrade,
}
use stdiod.Config.{
  CredentialKind, client_access_token, legacy_api_key, CredentialRef, PersistedConfig, Resolved,
  Machine, nonempty, resolved_credential, backend_url, device_id, device_label,
}
use stdiod.Config.Backend.{Url}
use stdiod.Config.Merge.{merge}

pub record RunArgs : Type 0 where
  pub backend : Option String
  pub api_key : Option String
  pub edison_secret_key : Option String
  pub device_id : Option String
  pub label : Option String

pub data ResolveRunError : Type 0 where
  awaiting_login : ResolveRunError
  invalid : String → ResolveRunError

pub record ResolvedRun : Type 0 where
  pub backend : String
  pub credential : String
  pub credential_kind : CredentialKind
  pub client_installation_id : Option String
  pub edison_secret_key : Option String
  pub device_id : String
  pub label : String

unfoldable pub same_kind : CredentialKind → CredentialKind → Bool
same_kind client_access_token client_access_token = true
same_kind client_access_token legacy_api_key = false
same_kind legacy_api_key client_access_token = false
same_kind legacy_api_key legacy_api_key = true

-- The `Resolved` that the arguments make.
abbrev pub overrides : RunArgs → Resolved
overrides args = record {
  backend_url = args.backend;
  api_key = args.api_key;
  client_access_token = none;
  client_installation_id = none;
  edison_secret_key = args.edison_secret_key;
  device_id = args.device_id;
  device_label = args.label;
}

-- The installation that a client credential needs; none for a legacy key.
unfoldable pub installation_for : CredentialKind → Resolved → Result ResolveRunError (Option String)
installation_for client_access_token r =
    or_fail (nonempty r.client_installation_id) awaiting_login >>= λ id. ok (some id)
installation_for legacy_api_key r = ok none

unfoldable pub device_for : CredentialKind → Machine → Resolved → Result ResolveRunError String
device_for client_access_token machine r = or_fail (nonempty r.device_id) awaiting_login
device_for legacy_api_key machine r = ok (device_id machine r)

-- What `from_args` does with the merged values.
unfoldable pub from_merged : Machine → Resolved → Result ResolveRunError ResolvedRun
from_merged machine merged = do
  credential ← map_err (λ _. awaiting_login) (resolved_credential merged)
  client_installation_id ← installation_for credential.kind merged
  device ← device_for credential.kind machine merged
  backend ← map_err (λ _. awaiting_login) (backend_url merged)
  ok (record {
    backend = backend;
    credential = credential.token;
    credential_kind = credential.kind;
    client_installation_id = client_installation_id;
    edison_secret_key = merged.edison_secret_key;
    device_id = device;
    label = device_label machine merged;
  })

-- `load` is what loading the persisted configuration came to.
unfoldable pub from_args :
    (String → Option Url)
    → Machine
    → Result String PersistedConfig
    → RunArgs
    → Result ResolveRunError ResolvedRun
from_args parse machine load args = do
  persisted ← map_err invalid load
  merged ← map_err invalid (merge parse persisted (overrides args))
  from_merged machine merged

unfoldable pub same_connection : ResolvedRun → ResolvedRun → Bool
same_connection a b =
    a.backend == b.backend
    && a.credential == b.credential
    && same_kind a.credential_kind b.credential_kind
    && same_text? a.client_installation_id b.client_installation_id
    && same_text? a.edison_secret_key b.edison_secret_key
    && a.device_id == b.device_id
    && a.label == b.label

unfoldable pub env_namespace : ResolvedRun → Option String
env_namespace r = elim r.client_installation_id [
  | none ↦ none
  | some installation_id ↦ some (append r.backend (append "\n" installation_id))
]

unfoldable pub requires_child_reset : ResolvedRun → ResolvedRun → Bool
requires_child_reset current next =
    not (current.backend == next.backend)
    || not (same_kind current.credential_kind next.credential_kind)
    || not (same_text? current.client_installation_id next.client_installation_id)
    || not (current.device_id == next.device_id)
    || (same_kind current.credential_kind legacy_api_key
        && not (current.credential == next.credential))

-- An error of a connection attempt or a session, as `downcast_ref` tells them apart.
pub data ConnectionError : Type 0 where
  from_connect : ConnectError → ConnectionError
  from_close : SessionCloseError → ConnectionError
  from_elsewhere : String → ConnectionError

unfoldable pub is_auth_rejection : ConnectionError → Bool
is_auth_rejection (from_connect e) = connect_needs_reauth e
is_auth_rejection (from_close e) = close_needs_reauth e
is_auth_rejection (from_elsewhere e) = false

unfoldable pub is_protocol_rejection : ConnectionError → Bool
is_protocol_rejection (from_connect e) = false
is_protocol_rejection (from_close e) = needs_upgrade e
is_protocol_rejection (from_elsewhere e) = false

redact_secret : Option String → String → String
redact_secret none message = message
redact_secret (some secret) message = replace message secret "<redacted>"

-- `error_text` is what the error displays.
unfoldable pub connection_error_message : String → ResolvedRun → String
unfolding redact_secret
connection_error_message error_text r =
    redact_secret (nonempty r.edison_secret_key) (replace error_text r.credential "<redacted>")
