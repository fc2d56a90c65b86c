-- ===== src/Proc/Pumps.antt =====
-- The pumps of proc.rs between a child's pipes and the daemon's channels, over what each read or
-- write comes to.
pub mod Offline
use stdiod.Base.{String, Bool, true, false, Option, none, some, List, [], ◌∷◌}
use stdiod.Protocol.{Json, TunnelError, mcp_frame, tunnel_error}
use stdiod.Tunnel
use stdiod.Tunnel.{OutgoingHandle}
use stdiod.Proc.{ExitStatus, take_terminal_error}
use stdiod.Proc.Diagnostics.{ChildDiagnostics}

-- What a pump changes: the shared diagnostics and the broker.
abbrev pub Shared : Type 0
Shared = ChildDiagnostics × OutgoingHandle

unfoldable pub send_terminal : Option TunnelError → OutgoingHandle → OutgoingHandle
send_terminal none outgoing = outgoing
send_terminal (some e) outgoing = (Tunnel.send (tunnel_error e) outgoing).0

unfoldable pub report_terminal : String → ExitStatus → Shared → Shared
report_terminal server_id status (d, outgoing) =
    let (next, e) = take_terminal_error server_id status d in (next, send_terminal e outgoing)

-- A line of the child's stdout, trimmed and parsed, or a failed read.
pub data StdoutLine : Type 0 where
  blank not_json read_failed : StdoutLine
  value : Json → StdoutLine

-- The end of the lines is the end of the file.
unfoldable pub stdout_pump : String → ExitStatus → List StdoutLine → Shared → Shared
stdout_pump server_id status [] s = report_terminal server_id status s
stdout_pump server_id status (blank ∷ lines) s = stdout_pump server_id status lines s
stdout_pump server_id status (not_json ∷ lines) s = stdout_pump server_id status lines s
stdout_pump server_id status (read_failed ∷ lines) s = report_terminal server_id status s
stdout_pump server_id status (value v ∷ lines) (d, outgoing) =
    stdout_pump server_id status lines
      (d, (Tunnel.send (mcp_frame (record { server_id = server_id; frame = v })) outgoing).0)

-- What became of a frame that was taken from the child's queue.
pub data StdinWrite : Type 0 where
  written unserialisable failed : StdinWrite

-- The end of the writes is the end of the queue.
unfoldable pub stdin_pump : String → ExitStatus → List StdinWrite → Shared → Shared
stdin_pump server_id status [] s = s
stdin_pump server_id status (written ∷ writes) s = stdin_pump server_id status writes s
stdin_pump server_id status (unserialisable ∷ writes) s = stdin_pump server_id status writes s
stdin_pump server_id status (failed ∷ writes) s = report_terminal server_id status s
