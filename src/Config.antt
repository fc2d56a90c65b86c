-- ===== src/Config.antt =====
-- crates/edison-stdiod/src/config.rs: the persisted configuration and its credentials.
pub mod Backend
pub mod Merge
pub mod Bindings
pub mod Tests
use stdiod.Base.{◌≡◌, arith}
use stdiod.Base.{
  String, Bool, true, false, ◌||◌, Option, none, some, List, [], or_else, is_some, value_or, Result,
  ok, err, or_fail, require, ◌>>=◌, ◌>>◌, if◌then◌else◌, ◌≡◌, refl,
}
use stdiod.Base.Text.{append, is_blank, trim}

pub data CredentialKind : Type 0 where
  client_access_token legacy_api_key : CredentialKind

pub record CredentialRef : Type 0 where
  pub token : String
  pub kind : CredentialKind

pub record PersistedConfig : Type 0 where
  pub backend_url : Option String
  pub api_key : Option String
  pub client_access_token : Option String
  pub client_installation_id : Option String
  pub authenticated_user_id : Option String
  pub authenticated_org_id : Option String
  pub scopes : List String
  pub edison_secret_key : Option String
  pub device_id : Option String
  pub device_label : Option String

-- `PersistedConfig::default()`
abbrev pub default_config : PersistedConfig
default_config = record {
  backend_url = none;
  api_key = none;
  client_access_token = none;
  client_installation_id = none;
  authenticated_user_id = none;
  authenticated_org_id = none;
  scopes = [];
  edison_secret_key = none;
  device_id = none;
  device_label = none;
}

pub record Resolved : Type 0 where
  pub backend_url : Option String
  pub api_key : Option String
  pub client_access_token : Option String
  pub client_installation_id : Option String
  pub edison_secret_key : Option String
  pub device_id : Option String
  pub device_label : Option String

-- `value.filter(|value| !value.is_empty())`
unfoldable pub nonempty : Option String → Option String
nonempty none = none
nonempty (some value) = if is_blank value then none else some value

-- A credential of one kind, if the value is there.
abbrev pub credential_of : CredentialKind → Option String → Option CredentialRef
credential_of kind none = none
credential_of kind (some token) = some (record { token = token; kind = kind })

-- The choice that `PersistedConfig::usable_credential` and `Resolved::usable_credential` both make.
unfoldable pub choose_credential : Option String → Option String → Option CredentialRef
choose_credential token key =
    or_else (credential_of client_access_token (nonempty token))
      (credential_of legacy_api_key (nonempty key))

unfoldable pub usable_credential : PersistedConfig → Option CredentialRef
usable_credential c = choose_credential c.client_access_token c.api_key

unfoldable pub missing : String → String → String
missing name flag =
    append "missing " (append name (append ": run `edison-stdiod login` first, or pass " flag))

unfoldable pub clear_authentication : PersistedConfig → PersistedConfig
clear_authentication c = record c {
  api_key = none;
  client_access_token = none;
  client_installation_id = none;
  authenticated_user_id = none;
  authenticated_org_id = none;
  scopes = [];
  edison_secret_key = none;
  device_id = none;
}

unfoldable pub has_issuer_bound_values : PersistedConfig → Bool
has_issuer_bound_values c =
    is_some (usable_credential c)
    || is_some (nonempty c.client_installation_id)
    || is_some (nonempty c.authenticated_user_id)
    || is_some (nonempty c.authenticated_org_id)
    || is_some (nonempty c.edison_secret_key)
    || is_some (nonempty c.device_id)

-- What the process can read of its machine's name.
pub record Machine : Type 0 where
  pub hostname_var : Option String
  pub computername_var : Option String
  pub hostname_command : Option String

-- The first value that is not blank after trimming.
unfoldable pub first_name : Option String → String → String
first_name none otherwise = otherwise
first_name (some h) otherwise = let t = trim h in if is_blank t then otherwise else t

unfoldable pub hostname : Machine → String
hostname m =
    first_name m.hostname_var
      (first_name m.computername_var (first_name m.hostname_command "unknown"))

-- `Resolved::backend_url`
unfoldable pub backend_url : Resolved → Result String String
backend_url r = or_fail r.backend_url (missing "backend URL" "--backend / EDISON_BACKEND_URL")

-- `Resolved::usable_credential`
unfoldable pub resolved_credential : Resolved → Result String CredentialRef
resolved_credential r =
    or_fail (choose_credential r.client_access_token r.api_key)
      (missing "credentials" "--api-key / EDISON_API_KEY")

-- `Resolved::device_id`, which never fails.
unfoldable pub device_id : Machine → Resolved → String
device_id m r = value_or r.device_id (hostname m)

unfoldable pub device_label : Machine → Resolved → String
device_label m r = value_or r.device_label (hostname m)

-- What reading the file and parsing it as TOML came to.
pub data FileRead : Type 0 where
  parsed : PersistedConfig → FileRead
  not_found invalid_toml : FileRead
  unreadable : String → FileRead

unfoldable pub load_from : String → FileRead → Result String PersistedConfig
load_from path (parsed c) = ok c
load_from path not_found = ok default_config
load_from path invalid_toml =
    err (append "failed to parse " (append path "; config contains invalid TOML"))
load_from path (unreadable e) = err (append "failed to read " path)

pub nonempty-inv : (v : Option String) (s : String) → nonempty v ≡ some s → v ≡ some s
unfolding nonempty
nonempty-inv none s e = cc
nonempty-inv (some v) s e = ground arith
