-- ===== src/Supervisor/Drain.antt =====
-- `drain_incoming` of daemon.rs: one frame of the backend after another.
use stdiod.Base.{ℕ, String, Option, none, some, List, [], ◌∷◌, if◌then◌else◌}
use stdiod.Base.Assoc.{lookup, insert}
use stdiod.Protocol.{
  Json, TunnelFrame, TunnelError, client_hello, server_hello, desired_state_update, mcp_frame,
  tunnel_error, server_env_update, server_spec_update, server_spawn_result, ping, pong,
}
use stdiod.Proc.{ChildServer, TrySend, queued, full, closed, has_exited, try_send, take_child_error}
use stdiod.Supervisor.{Host, Supervisor, send_frame}
use stdiod.Supervisor.Commands.{
  apply_snapshot, apply_delta, apply_spec_update, apply_env_update, restart_unresponsive,
}

-- The child map holds the child that `get_mut` changed.
unfoldable pub put_child : String → ChildServer → Supervisor → Supervisor
put_child server_id c sup = record sup { children = insert server_id c sup.children }

unfoldable pub send_error : Option TunnelError → Supervisor → Supervisor
send_error none sup = sup
send_error (some e) sup = send_frame (tunnel_error e) sup

abbrev pub unresponsive : String → TunnelError
unresponsive server_id = record {
  server_id = some server_id;
  related_jsonrpc_id = none;
  error_code = "server_unresponsive";
  message = "Local MCP process stopped accepting requests; restarting it.";
}

unfoldable pub report_exit : String → ChildServer → Supervisor → Supervisor
report_exit server_id child sup =
    let (c, e) = take_child_error child in send_error e (put_child server_id c sup)

unfoldable pub deliver : Host → String → ChildServer → TrySend → Supervisor → Supervisor
deliver host server_id child (queued c) sup = put_child server_id c sup
deliver host server_id child closed sup = report_exit server_id child sup
deliver host server_id child full sup =
    restart_unresponsive host server_id (send_frame (tunnel_error (unresponsive server_id)) sup)

-- An `mcp_frame`: to the child's queue, or an answer in its place.
unfoldable pub route : Host → String → Json → Supervisor → Supervisor
route host server_id frame sup = elim (lookup server_id sup.children) [
  | none ↦ sup
  | some child ↦
      if has_exited child
      then report_exit server_id child sup
      else deliver host server_id child (try_send frame child) sup
]

-- One frame; a message ends the session with that error.
unfoldable pub handle : Host → TunnelFrame → Supervisor → Supervisor × Option String
handle host (server_hello h) sup = (apply_snapshot host h.servers sup, none)
handle host (desired_state_update u) sup = (apply_delta host u sup, none)
handle host (mcp_frame m) sup = (route host m.server_id m.frame sup, none)
handle host (tunnel_error e) sup = (sup, elim e.server_id [ none ↦ some e.message | some _ ↦ none ])
handle host ping sup = (send_frame pong sup, none)
handle host (server_env_update u) sup = (apply_env_update host u.server_id u.env sup, none)
handle host (server_spec_update u) sup = (apply_spec_update host u sup, none)
handle host (server_spawn_result r) sup = (sup, none)
handle host (client_hello c) sup = (sup, none)
handle host pong sup = (sup, none)

-- The frames with their times of arrival; the state, the time of the last traffic, and the error.
unfoldable pub drain_incoming :
    Host → List (ℕ × TunnelFrame) → ℕ → Supervisor → Supervisor × ℕ × Option String
drain_incoming host [] last_pong sup = (sup, last_pong, none)
drain_incoming host ((now, frame) ∷ frames) last_pong sup =
    let (next, failure) = handle host frame sup in
    elim failure [
      | none ↦ drain_incoming host frames now next
      | some message ↦ (next, now, some message)
    ]
