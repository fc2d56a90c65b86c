-- ===== src/Supervisor.antt =====
-- `Supervisor` of crates/edison-stdiod/src/daemon.rs: desired servers against running children.
pub mod Commands
pub mod Drain
pub mod Touch
pub mod Current
pub mod Invariant
pub mod Steps
pub mod Account
pub mod Processes
pub mod Ensure
pub mod Snapshot
pub mod Tests
use stdiod.Base.{
  ℕ, suc, ◌+◌, String, Bool, true, false, ◌&&◌, not, Option, none, some, List, [], ◌∷◌, ◌++◌,
  if◌then◌else◌, Result, ok, err, ◌==◌,
}
use stdiod.Base.Assoc.{lookup, insert, remove, values, is_empty}
use stdiod.Base.Text.{append}
use stdiod.Protocol.{
  EnvMap, Json, DesiredServer, DesiredServer-discrete, DesiredStateUpdate, ServerSpecUpdate,
  TunnelFrame, TunnelError, server_spawn_result, tunnel_error,
}
use stdiod.EnvStore
use stdiod.EnvStore.{EnvStore, Disk, WriteFault, resolve_env_for_spawn, substitute_templated_args}
use stdiod.Tunnel
use stdiod.Tunnel.{OutgoingHandle}
use stdiod.Proc.{ChildServer, has_exited, started}
use stdiod.State
use stdiod.State.{State, ServerEntry, running}

-- What the operating system answers to the n-th attempt to start a process, the order in which a
-- `HashMap` of desired servers is iterated, and the fault of the n-th write of a private file, if it has one.
pub record Host : Type 0 where
  pub spawn : ℕ → DesiredServer → Result String (Option ℕ)
  pub order : List (String × DesiredServer) → List (String × DesiredServer)
  pub write_fails : ℕ → Option WriteFault

-- `spawned` and `stopped` are the history of the processes: every child that was started, and every
-- child whose process group was killed by `ChildServer::shutdown`.
pub record Supervisor : Type 0 where
  pub children : List (String × ChildServer)
  pub tunnel_outgoing : OutgoingHandle
  pub state : State
  pub env_store : EnvStore
  pub disk : Disk
  pub attempts : ℕ
  pub spawned : List ChildServer
  pub stopped : List ChildServer

unfoldable pub enrich_with : Option EnvStore.ServerSpec → DesiredServer → DesiredServer
enrich_with none desired = record desired { env = resolve_env_for_spawn none desired.env }
enrich_with (some spec) desired = record desired {
  args =
      if is_empty spec.templated_args
      then desired.args
      else substitute_templated_args desired.args spec.templated_args;
  env = resolve_env_for_spawn (some spec) desired.env;
}

unfoldable pub enrich : EnvStore → DesiredServer → DesiredServer
enrich store desired = enrich_with (EnvStore.get desired.server_id store) desired

entries : List (String × ChildServer) → List ServerEntry
entries [] = []
entries ((name, child) ∷ more) =
    record { name = name; status = running; pid = child.pid } ∷ entries more

unfoldable pub snapshot_entries : Supervisor → List ServerEntry
unfolding entries
snapshot_entries sup = entries sup.children

unfoldable pub publish_state : Supervisor → Supervisor
publish_state sup = record sup {
  state = State.update (λ s. record s { servers = snapshot_entries sup }) sup.state;
}

-- A frame through the broker; whether it was queued is ignored.
unfoldable pub send_frame : TunnelFrame → Supervisor → Supervisor
send_frame frame sup = record sup { tunnel_outgoing = (Tunnel.send frame sup.tunnel_outgoing).0 }

-- `if let Some(child) = self.children.remove(id) { child.shutdown().await }`
unfoldable pub stop_child : String → Supervisor → Supervisor
stop_child server_id sup = elim (lookup server_id sup.children) [
  | none ↦ sup
  | some child ↦ record sup {
    children = remove server_id sup.children;
    stopped = child ∷ sup.stopped;
  }
]

unfoldable pub shutdown_children : Supervisor → Supervisor
shutdown_children sup =
    publish_state (record sup { children = []; stopped = values sup.children ++ sup.stopped })

unfoldable pub switch_env_store : EnvStore → Supervisor → Supervisor
switch_env_store store sup =
    let s : Supervisor = shutdown_children sup in record s { env_store = store }

sensitive_of : Option EnvStore.ServerSpec → List String
sensitive_of none = []
sensitive_of (some spec) = values spec.templated_args

-- The frames that report a spawn attempt.
unfoldable pub spawn_report : String → Option String → TunnelFrame
spawn_report server_id none =
    server_spawn_result (record { server_id = server_id; success = true; error = none })
spawn_report server_id (some message) =
    server_spawn_result (record { server_id = server_id; success = false; error = some message })

unfoldable pub spawn_failed : String → String → TunnelFrame
spawn_failed server_id message = tunnel_error (record {
  server_id = some server_id;
  related_jsonrpc_id = none;
  error_code = "spawn_failed";
  message = message;
})

unfoldable pub spawn_message : DesiredServer → String → String
spawn_message enriched e = append "failed to spawn `" (append enriched.command (append "`: " e))

-- `existing.desired_raw == desired && !existing.has_exited()`
unfoldable pub is_unchanged : ChildServer → DesiredServer → Bool
is_unchanged child desired = elim (DesiredServer-discrete child.desired_raw desired) [
  | yes _ ↦ not (has_exited child)
  | no _ ↦ false
]

-- The two arms of `try_spawn`, on what `ChildServer::spawn` answered.
unfoldable pub finish_spawn :
    DesiredServer → DesiredServer → List String → Result String (Option ℕ) → Supervisor → Supervisor
finish_spawn raw enriched sensitive (ok pid) sup =
    let child : ChildServer = started raw enriched pid sensitive in
    send_frame (spawn_report raw.server_id none) (record sup {
      children = insert raw.server_id child sup.children;
      attempts = suc sup.attempts;
      spawned = child ∷ sup.spawned;
    })
finish_spawn raw enriched sensitive (err e) sup =
    send_frame (spawn_failed raw.server_id (spawn_message enriched e)) (
      send_frame (spawn_report raw.server_id (some (spawn_message enriched e)))
        (record sup { attempts = suc sup.attempts }))

unfoldable pub try_spawn : Host → DesiredServer → Supervisor → Supervisor
unfolding sensitive_of
try_spawn host raw sup =
    let enriched : DesiredServer = enrich sup.env_store raw in
    finish_spawn raw enriched (sensitive_of (EnvStore.get raw.server_id sup.env_store))
      (host.spawn sup.attempts enriched) sup
