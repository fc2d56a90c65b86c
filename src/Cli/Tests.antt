-- ===== src/Cli/Tests.antt =====
-- The theorems on the login and the logout at one backend.
use stdiod.Base.{
  ◌*◌, String, ◌≡◌, ◌≢◌, ap, refl, false, true, ◌⊎◌, Option, none, some, [], ◌∷◌, ok, err,
  if◌then◌else◌, ◌==◌,
}
use stdiod.Config.{
  PersistedConfig, default_config, Machine, parsed, load_from, nonempty, clear_authentication,
  client_access_token,
}
use stdiod.Config.Backend.{
  Url, domain, normalize_backend_url, check_url, at_in_authority, after_separator, trim_end_slashes,
  same_backend,
}
use stdiod.Base.Text.{has_prefix, eq_ignore_ascii_case, lower_code}
use stdiod.DaemonAuth.{ResolvedRun, from_args}
use stdiod.DaemonAuth.Installed.{Runs, no_args}
use stdiod.Http.{Request, Response, decode_json, is_success, text_of}
use stdiod.Auth.{
  DeviceCodeResponse, DeviceTokenResponse, generate, new, initiate, check_http_url,
  validate_device_code, validate_http_url, validate_token,
}
use stdiod.Auth.Poll.{
  Decoders, World, second, accept, after_response, after_sleep, last_turn, max_duration, on_sent,
  on_turn, poll, poll_loop, read_body,
}
use stdiod.Cli.Login.{
  LoginArgs, Host, run, chosen_backend, login_with, device_login, start_authorization,
  account_changed, authorized_config, finish_login, poll_token, save_login, try_open_browser,
  wait_login, not_saved, poll_unfinished,
}
use stdiod.Cli.Login.Accounts.{run-Runs}
use stdiod.Cli.Login.Secrets.{run-KeepsSecret, KeepsSecret}
use stdiod.Cli.Login.Failures.{run-error}
use stdiod.Cli.Logout
use stdiod.Cli.Logout.Offline.{run-from_args, run-IsOwn, IsOwn}

abbrev site : String
site = "https://edison.test"

abbrev url : Url
url = record {
  scheme = "https";
  username = "";
  password = none;
  host = some (domain "edison.test");
  path = "/";
  query = none;
  fragment = none;
  text = site;
}

abbrev parse : String → Option Url
parse raw = if raw == site then some url else none

abbrev machine : Machine
machine = record { hostname_var = none; computername_var = none; hostname_command = some "laptop" }

abbrev saved_config : PersistedConfig
saved_config = record default_config {
  backend_url = some site;
  client_access_token = some "old-token";
  client_installation_id = some "install-1";
  authenticated_user_id = some "user-1";
  authenticated_org_id = some "org-1";
  device_id = some "device-1";
  edison_secret_key = some "secret";
}

abbrev token : DeviceTokenResponse
token = record {
  access_token = "token";
  token_type = "Bearer";
  client_installation_id = "install-1";
  device_id = "device-1";
  scope = [];
  user_id = "user-1";
  org_id = "org-1";
}

abbrev device_code : DeviceCodeResponse
device_code = record {
  device_code = "device-code";
  user_code = "ABCD";
  verification_uri = site;
  verification_uri_complete = site;
  expires_in = 60;
  interval = 5;
}

abbrev decoders : Decoders
decoders = record { token = λ body. ok token; error_code = λ body. ok body; date = λ header. none }

abbrev success : Response
success = record { status = 200; body = none; retry_after = none }

abbrev world : World
world = record {
  late = λ n. 0;
  replies = λ n. record { sent = ok success; send_time = 1; text_time = 1; utc = 0 };
}

abbrev host : Host
host = record {
  path = "config.toml";
  file = parsed saved_config;
  save_fails = false;
  random = some "verifier";
  sha256 = λ text. "challenge";
  platform = record { os = "linux"; version = "1.0.0" };
  open_browser = λ u. false;
  send = λ r. ok success;
  decode_code = λ body. ok device_code;
  decoders = decoders;
  world = world;
  latest = 1000 * second;
  now = 0;
}

abbrev kept : PersistedConfig
kept = record saved_config { client_access_token = some "token" }

abbrev args : LoginArgs
args = record {
  backend = none;
  api_key = none;
  no_open = false;
  edison_secret_key = none;
  device_id = none;
  device_label = none;
}

-- The login opens the browser, gets a token for the same account and keeps the secret key.
login_saves :
    run parse host args
    ≡ record { saved = some kept; opened = site ∷ []; revocations = []; result = ok tt }
unfolding run load_from chosen_backend nonempty normalize_backend_url check_url at_in_authority
    after_separator has_prefix login_with device_login start_authorization generate new
    trim_end_slashes initiate decode_json accept after_response after_sleep last_turn max_duration
    on_sent on_turn poll poll_loop read_body check_http_url validate_device_code validate_http_url
    validate_token eq_ignore_ascii_case lower_code account_changed authorized_config finish_login
    poll_token save_login try_open_browser wait_login same_backend is_success text_of
login_saves = refl

abbrev full_disk : Host
full_disk = record host { save_fails = true }

login_fails : (run parse full_disk args).result ≡ err not_saved
unfolding run load_from chosen_backend nonempty normalize_backend_url check_url at_in_authority
    after_separator has_prefix login_with device_login start_authorization generate new
    trim_end_slashes initiate decode_json accept after_response after_sleep last_turn max_duration
    on_sent on_turn poll poll_loop read_body check_http_url validate_device_code validate_http_url
    validate_token eq_ignore_ascii_case lower_code account_changed authorized_config finish_login
    poll_token save_login try_open_browser wait_login same_backend is_success text_of
login_fails = refl

run-Runs_example :
    (saved : PersistedConfig) × ((run parse host args).saved ≡ some saved)
    × Runs parse machine saved
run-Runs_example = run-Runs parse host args machine refl refl (ap (λ l. l.result) login_saves)

run-error_example :
    ((run parse full_disk args).saved ≡ none)
    × ((run parse full_disk args).revocations ≡ [])
    × (not_saved ≢ poll_unfinished)
run-error_example = run-error parse full_disk args not_saved login_fails

run-KeepsSecret_example :
    (before : PersistedConfig) × (load_from "config.toml" (parsed saved_config) ≡ ok before)
    × KeepsSecret parse args before kept
run-KeepsSecret_example = run-KeepsSecret parse host args kept (ap (λ l. l.saved) login_saves)

abbrev cleared : PersistedConfig
cleared = record default_config { backend_url = some site }

abbrev old_run : ResolvedRun
old_run = record {
  backend = site;
  credential = "old-token";
  credential_kind = client_access_token;
  client_installation_id = some "install-1";
  edison_secret_key = some "secret";
  device_id = "device-1";
  label = "laptop";
}

run-from_args_example : from_args parse machine (ok cleared) no_args ≢ ok old_run
unfolding Logout.run load_from clear_authentication
run-from_args_example =
    run-from_args parse "config.toml" (parsed saved_config) false cleared machine no_args old_run
      refl refl

run-IsOwn_example :
    let l = Logout.run parse "config.toml" (parsed saved_config) false in
    (l.revocations ≡ [])
    ⊎ ((l.result ≡ ok tt) × (r : Request) × (l.revocations ≡ r ∷ []) × IsOwn parse saved_config r)
unfolding load_from
run-IsOwn_example = run-IsOwn parse "config.toml" (parsed saved_config) false saved_config refl
