-- ===== src/Daemon/Tests.antt =====
-- The theorems on the daemon at short runs.
use stdiod.Base.{
  ℕ, ◌*◌, ◌≤◌, ◌≡◌, refl, ◌⊎◌, true, false, none, some, List, [], ◌∷◌, ok, err, All, length, arith,
}
use stdiod.Base.Text.{append}
use stdiod.Protocol.{linux, DesiredServer, server_hello, ping}
use stdiod.State.{default_state}
use stdiod.Tunnel.{OutgoingHandle}
use stdiod.Config.{client_access_token}
use stdiod.DaemonAuth.{
  ResolvedRun, awaiting_login, same_connection, same_kind, env_namespace, requires_child_reset,
}
use stdiod.Supervisor.{Supervisor}
use stdiod.Daemon.{Tick, heartbeat, jittered}
use stdiod.Daemon.Waiting.{Poll, wait_for_config}
use stdiod.Daemon.Session.{Environment, Round, Loop, websocket, switch_account}
use stdiod.Daemon.Timing.{jittered_lem, heartbeat_lem}
use stdiod.Daemon.Accounts.{IsKept, switch_account-IsKept}
use stdiod.Daemon.Logout.{IsPaused, IsUnusable, wait_for_config-IsPaused, wait_for_config-spins}

abbrev run : ResolvedRun
run = record {
  backend = "https://edison.test";
  credential = "client-token";
  credential_kind = client_access_token;
  client_installation_id = some "install-1";
  edison_secret_key = none;
  device_id = "device-1";
  label = "laptop";
}

abbrev rotated : ResolvedRun
rotated = record run { credential = "rotated-token" }

abbrev files_server : DesiredServer
files_server = record {
  server_id = "files";
  name = "Files";
  command = "npx";
  args = [];
  env = [];
  working_dir = none;
  enabled = true;
}

abbrev nothing_runs : Supervisor
nothing_runs = record {
  children = [];
  tunnel_outgoing = record { inner = none };
  state = default_state;
  env_store = record { path = "/config/server_envs/digest.json"; entries = [] };
  disk = record { files = λ p. none; writes = 0 };
  attempts = 0;
  spawned = [];
  stopped = [];
}

abbrev env : Environment
env = record {
  host = record { spawn = λ n d. ok (some n); order = λ m. m; write_fails = λ n. none };
  hostname = "laptop";
  os = linux;
  client_version = "1.0.0";
  config_dir = "/config";
  digest = λ s. "digest";
  display = λ e. "connection lost";
}

abbrev start : Loop
start = record { resolved = run; supervisor = nothing_runs; backoff = 1000 }

abbrev rounds : List Round
rounds =
    record {
      frames =
          (1, server_hello (record { version = 2; servers = files_server ∷ [] })) ∷ (2, ping) ∷ [];
      ended = websocket none;
      connected_at = 0;
      nanos = 7;
      waits_from = 3;
      polls = record { now = 4; found = ok rotated } ∷ [];
    }
    ∷ []

switch_account-IsKept_example :
    (nothing_runs.children ≡ []) ⊎ IsKept run rotated nothing_runs nothing_runs
unfolding switch_account same_connection same_kind env_namespace append requires_child_reset
switch_account-IsKept_example = switch_account-IsKept env run rotated nothing_runs nothing_runs refl

abbrev removed : Poll
removed = record { now = 2000; found = err awaiting_login }

wait_for_config-IsPaused_example :
    let w = wait_for_config run (some 1000) false (removed ∷ removed ∷ []) nothing_runs in
    IsPaused w.supervisor × (All IsUnusable (removed ∷ []) → w.returned ≡ none)
wait_for_config-IsPaused_example =
    wait_for_config-IsPaused run (some 1000) removed (removed ∷ []) nothing_runs tt

wait_for_config-spins_example :
    let w = wait_for_config run (some 1000) true (removed ∷ removed ∷ []) nothing_runs in
    All (λ ms. ms ≡ 0) w.sleeps × (length w.sleeps ≡ 2)
wait_for_config-spins_example =
    wait_for_config-spins run 1000 (removed ∷ removed ∷ []) nothing_runs (tt, (tt, tt))
      (omega arith, (omega arith, tt))

abbrev tick_at : ℕ → Tick
tick_at ms = record { wall = ms; now = ms; last_pong = 0 }

abbrev closed_handle : OutgoingHandle
closed_handle = record { inner = none }

heartbeat_lem_example :
    let r = heartbeat 0 (tick_at 0 ∷ tick_at 15000 ∷ tick_at 30000 ∷ []) closed_handle in
    (r.1 ≤ 2) × (r.2 ≡ true) × (r.0.inner ≡ none)
heartbeat_lem_example =
    heartbeat_lem 0 0 (tick_at 0) (tick_at 15000) (tick_at 30000) [] closed_handle
      (omega arith, (omega arith, (omega arith, tt)))
      (omega arith, (omega arith, (omega arith, tt)))

jittered_lem_example : (3 * 1000 ≤ 4 * jittered 7 1000) × (4 * jittered 7 1000 ≤ 5 * 1000)
jittered_lem_example = jittered_lem 7 1000
