-- ===== src/Supervisor/Tests.antt =====
-- The theorems on the supervisor at a small session of frames.
use stdiod.Base.{ℕ, refl, true, false, none, some, List, [], ◌∷◌, ok}
use stdiod.Base.Assoc.{lookup, values}
use stdiod.Protocol.{
  DesiredServer, TunnelFrame, server_hello, desired_state_update, mcp_frame, server_env_update,
  ping, null,
}
use stdiod.State.{default_state}
use stdiod.Supervisor.{Host, Supervisor}
use stdiod.Supervisor.Commands.{collect, apply_snapshot}
use stdiod.Supervisor.Drain.{drain_incoming}
use stdiod.Supervisor.Current.{IsCurrent}
use stdiod.Supervisor.Invariant.{drain_incoming-IsCurrent}
use stdiod.Supervisor.Steps.{IsKeyed}
use stdiod.Supervisor.Steps.Frames.{IsOrder}
use stdiod.Supervisor.Processes.{IsAccounted, tally, drain_incoming-IsAccounted}
use stdiod.Supervisor.Snapshot.{Reconciled, apply_snapshot_lem}

abbrev host : Host
host = record { spawn = λ n d. ok (some n); order = λ m. m; write_fails = λ n. none }

abbrev files_server : DesiredServer
files_server = record {
  server_id = "files";
  name = "Files";
  command = "npx";
  args = "server-filesystem" ∷ "{path}" ∷ [];
  env = ("HOME", "/home/a") ∷ [];
  working_dir = none;
  enabled = true;
}

abbrev git_server : DesiredServer
git_server = record files_server { server_id = "git"; command = "uvx" }

abbrev session : List (ℕ × TunnelFrame)
session =
    (1, server_hello (record { version = 2; servers = files_server ∷ git_server ∷ [] }))
    ∷ (2, mcp_frame (record { server_id = "files"; frame = null }))
    ∷ (3, server_env_update (record { server_id = "files"; env = ("HOME", "/home/b") ∷ [] }))
    ∷ (
      4,
      desired_state_update (record {
        added = [];
        updated = record git_server { enabled = false } ∷ [];
        removed = "files" ∷ [];
      }),
    )
    ∷ (5, ping)
    ∷ []

abbrev nothing_runs : Supervisor
nothing_runs = record {
  children = [];
  tunnel_outgoing = record { inner = some (record { is_closed = false; queued = [] }) };
  state = default_state;
  env_store = record { path = "env.json"; entries = [] };
  disk = record { files = λ p. none; writes = 0 };
  attempts = 0;
  spawned = [];
  stopped = [];
}

nothing_runs-IsCurrent : IsCurrent nothing_runs
unfolding lookup
nothing_runs-IsCurrent = record { distinct = tt; launched = λ k c e. cc }

nothing_runs-IsKeyed : IsKeyed nothing_runs
unfolding lookup
nothing_runs-IsKeyed = record { distinct = tt; raw_ids = λ k c e. cc }

nothing_runs-IsAccounted : IsAccounted nothing_runs
unfolding tally values
nothing_runs-IsAccounted = record { balance = λ p. refl }

host-IsOrder : IsOrder host.order
host-IsOrder = record { same_entries = λ m k d. refl; each_once = λ m d. d }

drain_incoming-IsCurrent_example : IsCurrent (drain_incoming host session 0 nothing_runs).0
drain_incoming-IsCurrent_example =
    drain_incoming-IsCurrent host (λ n. refl) session 0 nothing_runs nothing_runs-IsCurrent

drain_incoming-IsAccounted_example : IsAccounted (drain_incoming host session 0 nothing_runs).0
drain_incoming-IsAccounted_example =
    drain_incoming-IsAccounted host session 0 nothing_runs host-IsOrder nothing_runs-IsKeyed
      nothing_runs-IsAccounted

apply_snapshot_lem_example :
    Reconciled host nothing_runs.env_store
      (lookup "git" (collect (files_server ∷ git_server ∷ [])))
      none
      (lookup "git" (apply_snapshot host (files_server ∷ git_server ∷ []) nothing_runs).children)
unfolding lookup
apply_snapshot_lem_example =
    apply_snapshot_lem host (files_server ∷ git_server ∷ []) nothing_runs "git" host-IsOrder
