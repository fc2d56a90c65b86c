-- ===== src/Daemon/Session.antt =====
-- `run` and `run_one_session` of daemon.rs, over what happens in each round.
use stdiod.Base.{
  ℕ, ◌+◌, String, Bool, false, ◌||◌, not, Option, none, some, List, [], ◌∷◌, same_text?, Result, ok,
  ◌>>=◌, if◌then◌else◌,
}
use stdiod.Protocol.{TunnelFrame, Os, client_hello, protocol_version}
use stdiod.EnvStore
use stdiod.EnvStore.{StoreError, Disk}
use stdiod.Tunnel
use stdiod.Tunnel.{ConnectError, Sender}
use stdiod.Proc.{ChildServer, has_exited}
use stdiod.State
use stdiod.State.{State, connected, reconnecting, needs_reauth, needs_upgrade}
use stdiod.DaemonAuth.{
  ResolvedRun, ConnectionError, from_connect, from_elsewhere, same_connection, requires_child_reset,
  env_namespace, is_auth_rejection, is_protocol_rejection, connection_error_message,
  ResolveRunError,
}
use stdiod.Supervisor.{Host, Supervisor, shutdown_children, switch_env_store, send_frame}
use stdiod.Supervisor.Drain.{drain_incoming}
use stdiod.Daemon.{backoff_min, jittered, next_backoff}
use stdiod.Daemon.Waiting.{Poll, Wait, wait_for_config, wait_for_connection_change}

-- What the daemon reads of its machine: the answers of the operating system, names and versions,
-- the directory of its files, the digest that names them, and what an error displays.
pub record Environment : Type 0 where
  pub host : Host
  pub hostname : String
  pub os : Os
  pub client_version : String
  pub config_dir : String
  pub digest : String → String
  pub display : ConnectionError → String

-- How a session ends once its frames so far are handled.
pub data SessionEnd : Type 0 where
  connect_failed : ConnectError → SessionEnd
  websocket : Option ConnectionError → SessionEnd
  stale : SessionEnd
  config_polled : List (Result ResolveRunError ResolvedRun) → SessionEnd

-- What happens from one connection attempt to the next.
pub record Round : Type 0 where
  pub frames : List (ℕ × TunnelFrame)
  pub ended : SessionEnd
  pub connected_at : ℕ
  pub nanos : ℕ
  pub waits_from : ℕ
  pub polls : List Poll

-- The state that `run` keeps from round to round.
pub record Loop : Type 0 where
  pub resolved : ResolvedRun
  pub supervisor : Supervisor
  pub backoff : ℕ

unfoldable pub set_state : (State → State) → Supervisor → Supervisor
set_state f sup = record sup { state = State.update f sup.state }

unfoldable pub clear_outgoing : Supervisor → Supervisor
clear_outgoing sup = record sup { tunnel_outgoing = Tunnel.clear sup.tunnel_outgoing }

running_ids : List (String × ChildServer) → List String
running_ids [] = []
running_ids ((id, c) ∷ more) =
    let rest = running_ids more in if has_exited c then rest else id ∷ rest

-- The connection is up: the status, the broker, and the frame that announces the daemon.
unfoldable pub announce : Environment → ResolvedRun → ℕ → Supervisor → Supervisor
unfolding running_ids
announce env args connected_at sup =
    let up : Supervisor =
      set_state
        (λ s. record s {
          connection_state = connected;
          last_connected_at = some connected_at;
          last_error = none;
        })
        sup in
    let tx : Sender = record { is_closed = false; queued = [] } in
    send_frame
      (client_hello (record {
        version = protocol_version;
        device_id = args.device_id;
        hostname = env.hostname;
        label = args.label;
        os = env.os;
        client_version = env.client_version;
        currently_running = running_ids sup.children;
      }))
      (record up { tunnel_outgoing = Tunnel.set tx up.tunnel_outgoing })

-- The other arms of the session's `select!`, when the frames so far raised no error.
unfoldable pub end_session :
    ResolvedRun → SessionEnd → Supervisor → Supervisor × Option ConnectionError
end_session args (connect_failed e) sup = (sup, some (from_connect e))
end_session args (websocket result) sup = (sup, result)
end_session args stale sup = (clear_outgoing sup, none)
end_session args (config_polled polls) sup = ((wait_for_connection_change args polls sup).1, none)

unfoldable pub run_frames :
    Environment → ResolvedRun → Round → Supervisor → Supervisor × Option ConnectionError
run_frames env args r sup =
    let drained =
      drain_incoming env.host r.frames r.connected_at (announce env args r.connected_at sup) in
    elim drained.2 [
      | none ↦ end_session args r.ended drained.0
      | some message ↦ (drained.0, some (from_elsewhere message))
    ]

-- The error of a connection attempt that failed.
unfoldable pub refused : SessionEnd → Option ConnectError
refused (connect_failed e) = some e
refused (websocket result) = none
refused stale = none
refused (config_polled polls) = none

-- The supervisor afterwards, and the error of the session; none for a clean end.
unfoldable pub run_one_session :
    Environment → ResolvedRun → Round → Supervisor → Supervisor × Option ConnectionError
run_one_session env args r sup = elim (refused r.ended) [
  | some e ↦ (sup, some (from_connect e))
  | none ↦ run_frames env args r sup
]

-- The backend rejected the credential or the protocol: wait without a limit.
unfoldable pub rejected : (upgrade : Bool) → String → Loop → Loop × Option ℕ
rejected upgrade message l = (
  record l {
    supervisor =
        set_state
          (λ s. record s {
            connection_state = if upgrade then needs_upgrade else needs_reauth;
            last_error = some message;
          })
          (shutdown_children (clear_outgoing l.supervisor));
    backoff = backoff_min;
  },
  none,
)

-- Any other error: the children stay, and the connection is tried again.
unfoldable pub retry : ℕ → String → Loop → Loop × Option ℕ
retry nanos message l = (
  record l {
    supervisor =
        set_state (λ s. record s { connection_state = reconnecting; last_error = some message })
          (clear_outgoing l.supervisor);
  },
  some (jittered nanos l.backoff),
)

-- What a session's end does to the loop, and how long to wait; no limit when the backend rejected
-- the credential or the protocol.
unfoldable pub after_session : Environment → ℕ → Option ConnectionError → Loop → Loop × Option ℕ
after_session env nanos none l = (
  record l {
    supervisor =
        set_state (λ s. record s { connection_state = reconnecting; last_error = none })
          (clear_outgoing l.supervisor);
    backoff = backoff_min;
  },
  some (jittered nanos backoff_min),
)
after_session env nanos (some e) l =
    let message = connection_error_message (env.display e) l.resolved in
    if is_auth_rejection e || is_protocol_rejection e
    then rejected (is_protocol_rejection e) message l
    else retry nanos message l

-- The children for the connection `next`: a new store for a new namespace, or a reset.
unfoldable pub switch_account :
    Environment → ResolvedRun → ResolvedRun → Supervisor → Result StoreError Supervisor
switch_account env current next sup =
    if same_text? (env_namespace current) (env_namespace next)
    then ok (if requires_child_reset current next then shutdown_children sup else sup)
    else (EnvStore.open_for env.digest env.config_dir (env_namespace next) sup.disk >>= λ store.
        ok (switch_env_store store sup))

unfoldable pub adopt : Environment → ResolvedRun → Loop → Result StoreError Loop
adopt env next l = switch_account env l.resolved next l.supervisor >>= λ sup. ok (record {
  resolved = next;
  supervisor =
      set_state
        (λ s. record s {
          connection_state = reconnecting;
          backend_url = some next.backend;
          device_id = some next.device_id;
          device_label = some next.label;
          last_error = none;
        })
        sup;
  backoff = next_backoff (not (same_connection l.resolved next)) l.backoff;
})

unfoldable pub deadline_from : ℕ → Option ℕ → Option ℕ
deadline_from now none = none
deadline_from now (some delay) = some (now + delay)

unfoldable pub after_wait : Environment → Loop → Wait → Result StoreError Loop
after_wait env l w =
    let kept : Loop = record l { supervisor = w.supervisor } in
    elim w.returned [ none ↦ ok kept | some next ↦ adopt env next kept ]

-- One round of the loop; if the wait has not returned yet, the loop stands as it waits.
unfoldable pub run_round : Environment → Round → Loop → Result StoreError Loop
run_round env r l =
    let (sup, failure) = run_one_session env l.resolved r l.supervisor in
    let (next, limit) = after_session env r.nanos failure (record l { supervisor = sup }) in
    after_wait env next (
      wait_for_config next.resolved (deadline_from r.waits_from limit) false r.polls
        next.supervisor)

unfoldable pub run_rounds : Environment → List Round → Loop → Result StoreError Loop
run_rounds env [] l = ok l
run_rounds env (r ∷ rounds) l = run_round env r l >>= λ next. run_rounds env rounds next
