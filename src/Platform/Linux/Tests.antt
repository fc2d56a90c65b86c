-- ===== src/Platform/Linux/Tests.antt =====
-- The theorems on the systemd unit at a host where every call succeeds.
use stdiod.Base.{String, ◌≡◌, true, Option, none, some, [], ◌∷◌, ok, err, if◌then◌else◌, ◌==◌}
use stdiod.Config.{PersistedConfig, default_config, Machine}
use stdiod.Config.Backend.{Url, domain}
use stdiod.Platform.Linux.{Os, Service, Output, unit_name, render_unit, uninstall, systemctl}
use stdiod.Platform.Linux.Removal.{uninstall-IsRemoval}

abbrev site : String
site = "https://edison.test"

abbrev parse : String → Option Url
parse raw =
    if raw == site
    then some (record {
      scheme = "https";
      username = "";
      password = none;
      host = some (domain "edison.test");
      path = "/";
      query = none;
      fragment = none;
      text = site;
    })
    else none

abbrev machine : Machine
machine = record { hostname_var = none; computername_var = none; hostname_command = some "laptop" }

abbrev saved : PersistedConfig
saved = record default_config { backend_url = some site; api_key = some "key" }

abbrev fine : Output
fine = record { success = true; stdout = "active"; stderr = "" }

abbrev os : Os
os = record {
  home_dir = some "/home/me";
  systemctl = λ n args. ok fine;
  current_exe = ok "/usr/bin/edison-stdiod";
  daemon_log_file = ok "/home/me/daemon.log";
  make_log_dir = ok tt;
  make_unit_dir = ok tt;
  write_temporary = ok tt;
  rename_temporary = ok tt;
  remove_unit = none;
}

abbrev before : Service
before = record { unit = none; temporary = none; calls = [] }

abbrev after : Service
after = record {
  unit = some (render_unit "/usr/bin/edison-stdiod" "/home/me/daemon.log");
  temporary = none;
  calls =
      ("enable" ∷ "--now" ∷ unit_name ∷ [])
      ∷ ("daemon-reload" ∷ [])
      ∷ ("is-system-running" ∷ [])
      ∷ [];
}

uninstall-IsRemoval_example :
    let r = uninstall os after in
    (r.0 ≡ ok tt → r.1.unit ≡ none) × ((e : String) → r.0 ≡ err e → r.1.unit ≡ after.unit)
uninstall-IsRemoval_example = uninstall-IsRemoval os after
