-- ===== src/Cli/Server/Tests.antt =====
-- The theorems on the server commands at a backend with three servers.
use stdiod.Base.{
  String, Bool, true, ◌&&◌, ◌≡◌, refl, ap, Option, none, some, List, [], ◌∷◌, Result, ok, err,
  if◌then◌else◌, All, arith,
}
use stdiod.Base.Text.{has_prefix, append}
use stdiod.Config.{
  PersistedConfig, default_config, Machine, client_access_token, legacy_api_key, usable_credential,
  choose_credential, nonempty,
}
use stdiod.Http.{Request, Response, BackendClient, get_json, decode_json, is_success, text_of}
use stdiod.Cli.Server.{
  remove, ServerListItem, Backend, run_command, list_for, list_with, credential_kind, render,
  own_device, is_own,
}
use stdiod.Cli.Server.Listing.{count, IsSorted, IsOwn, is_own_iff}
use stdiod.Cli.Server.Scope.{sending, run_command-IsClientRequest, list_with-IsSorted}

abbrev machine : Machine
machine = record { hostname_var = none; computername_var = none; hostname_command = some "laptop" }

abbrev client : BackendClient
client = record { base = "https://edison.test"; token = "token" }

abbrev item : String → Option String → ServerListItem
item name device = record {
  name = name;
  display_name = none;
  enabled = true;
  tool_count = 2;
  transport_type = some "stdio_tunnel";
  device_id = device;
}

abbrev files : ServerListItem
files = item "files" (some "device-1")

abbrev git : ServerListItem
git = item "git" (some "device-1")

abbrev mail : ServerListItem
mail = item "mail" (some "device-2")

abbrev backend : Backend
backend = record {
  send = λ r. ok (record { status = 200; body = none; retry_after = none });
  decode_created = λ body. err "not asked for";
  decode_list = λ body. ok (mail ∷ git ∷ files ∷ []);
  pretty = λ json. "[]";
  encode = λ name. name;
}

abbrev authorized : PersistedConfig
authorized = record default_config { client_access_token = some "token" }

abbrev with_key : PersistedConfig
with_key = record default_config { api_key = some "key"; device_id = some "device-1" }

-- A network that refuses everything but the client's requests.
abbrev guarded : Request → Result String Response
guarded r =
    if has_prefix "https://edison.test/api/v1/client/" r.url then backend.send r else err "refused"

run_command-IsClientRequest_example :
    run_command (sending guarded backend) machine client (remove "git") authorized
    ≡ run_command backend machine client (remove "git") authorized
unfolding usable_credential choose_credential nonempty has_prefix append
run_command-IsClientRequest_example =
    run_command-IsClientRequest backend machine client authorized
      (record { token = "token"; kind = client_access_token }) guarded (remove "git") refl refl
      λ r (path, at, bearer).
        ap
          (λ u.
            if has_prefix "https://edison.test/api/v1/client/" u
            then backend.send r
            else err "refused")
          at

-- The enabled servers of this device.
abbrev enabled_own : ServerListItem → Bool
enabled_own i = is_own "device-1" i && i.enabled

enabled_own-IsOwn : (i : ServerListItem) → enabled_own i ≡ true → IsOwn "device-1" i
enabled_own-IsOwn i e = (is_own_iff "device-1" i).0 (ground arith)

abbrev printed : String
printed = "[]"

list_with-IsSorted_example :
    (items : List ServerListItem) × (shown : List ServerListItem) × (get_json backend.send client
        backend.decode_list "/api/v1/servers?page=1&per_page=200"
      ≡ ok items)
    × (printed ≡ render backend machine client true legacy_api_key with_key shown)
    × IsSorted shown
    × All (IsOwn "device-1") shown
    × (count enabled_own shown ≡ count enabled_own items)
unfolding list_with list_for credential_kind usable_credential choose_credential nonempty own_device
    get_json decode_json is_success text_of render
list_with-IsSorted_example =
    list_with-IsSorted backend machine client with_key
      (record { token = "key"; kind = legacy_api_key }) true printed enabled_own refl refl
      enabled_own-IsOwn refl
