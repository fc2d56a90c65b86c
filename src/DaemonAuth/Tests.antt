-- ===== src/DaemonAuth/Tests.antt =====
-- The theorems on the daemon's connection values at a saved login.
use stdiod.DaemonAuth.{from_merged, installation_for, device_for}
use stdiod.Config.{resolved_credential, backend_url, device_label, hostname, first_name}
use stdiod.Base.Text.{trim, trim_start, trim_end, trim_last, is_whitespace}
use stdiod.Config.Backend.{trim_end_slashes}
use stdiod.Config.Merge.{
  merge, merge_with, normalize_opt, saved_backend, merge_checked, check_backend, check_device,
  merge_saved,
}
use stdiod.Config.{nonempty, usable_credential, choose_credential}
use stdiod.Base.Text.{has_prefix}
use stdiod.Config.Backend.{
  normalize_backend_url, check_url, at_in_authority, after_separator, check_binding,
}
use stdiod.Base.{String, ◌≡◌, refl, false, Option, none, some, ok, if◌then◌else◌, ◌==◌, arith}
use stdiod.Base.Text.{contains}
use stdiod.Config.{client_access_token, PersistedConfig, default_config, Machine}
use stdiod.Config.Backend.{Url, domain, ensure_installable}
use stdiod.DaemonAuth.{ResolvedRun, from_args, connection_error_message}
use stdiod.DaemonAuth.Installed.{
  IsComplete, Runs, no_args, from_args-IsComplete, ensure_installable-Runs,
}
use stdiod.DaemonAuth.Reset.{IsHideable, connection_error_message_lem}

abbrev site : String
site = "https://edison.test"

-- A parser that knows one URL.
abbrev parse : String → Option Url
parse raw =
    if raw == site
    then some (record {
      scheme = "https";
      username = "";
      password = none;
      host = some (domain "edison.test");
      path = "/";
      query = none;
      fragment = none;
      text = "https://edison.test/";
    })
    else none

abbrev machine : Machine
machine = record { hostname_var = none; computername_var = none; hostname_command = some "laptop" }

abbrev config : PersistedConfig
config = record default_config {
  backend_url = some site;
  client_access_token = some "client-token";
  client_installation_id = some "install-1";
  device_id = some "device-1";
}

abbrev run : ResolvedRun
run = record {
  backend = site;
  credential = "client-token";
  credential_kind = client_access_token;
  client_installation_id = some "install-1";
  edison_secret_key = none;
  device_id = "device-1";
  label = "laptop";
}

abbrev with_secret : ResolvedRun
with_secret = record run { edison_secret_key = some "edison-secret" }

ensure_installable-Runs_example : Runs parse machine config
unfolding ensure_installable normalize_backend_url check_url at_in_authority after_separator
    check_binding has_prefix nonempty usable_credential choose_credential
ensure_installable-Runs_example = ensure_installable-Runs parse machine config refl

from_args-IsComplete_example : IsComplete run
unfolding merge merge_with normalize_opt saved_backend merge_checked check_backend check_device
    normalize_backend_url check_url at_in_authority after_separator trim_end_slashes has_prefix
    nonempty merge_saved choose_credential resolved_credential backend_url device_label hostname
    first_name trim trim_start trim_end trim_last is_whitespace from_args from_merged
    installation_for device_for
from_args-IsComplete_example = from_args-IsComplete parse machine (ok config) no_args run refl

token-IsHideable : IsHideable "client-token"
token-IsHideable = record { no_open = ground arith; no_close = ground arith; longer = omega arith }

secret-IsHideable : IsHideable "edison-secret"
secret-IsHideable = record { no_open = ground arith; no_close = ground arith; longer = omega arith }

connection_error_message_lem_example :
    (contains "client-token" (connection_error_message "echoed client-token" with_secret) ≡ false)
    × (contains "edison-secret" (connection_error_message "echoed client-token" with_secret)
        ≡ false)
connection_error_message_lem_example =
    connection_error_message_lem "echoed client-token" with_secret token-IsHideable
      secret-IsHideable
