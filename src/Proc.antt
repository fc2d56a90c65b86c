-- ===== src/Proc.antt =====
-- crates/edison-stdiod/src/proc.rs: a child process as the supervisor sees it. Its pipes, pumps and
-- pid belong to the host; what they do to the shared state is an operation below.
pub mod Diagnostics
pub mod Sanitize
pub mod Pumps
pub mod Search
pub mod CommandLine
pub mod Tests
use stdiod.Base.{
  ℕ, String, Bool, true, false, Option, none, some, List, [], ◌∷◌, ◌++◌, if◌then◌else◌, length, ltb,
}
use stdiod.Base.Assoc.{values}
use stdiod.Base.Text.{append}
use stdiod.Protocol.{DesiredServer, Json, TunnelError}
use Diagnostics
use Diagnostics.{ChildDiagnostics}

-- `Child::try_wait`: the process has not been reaped, or it ended with an exit code (kept as its
-- decimal text) or without one.
pub data ExitStatus : Type 0 where
  not_reaped without_code : ExitStatus
  with_code : String → ExitStatus

-- `launched` is the enriched spec from which the process was started; `outbound` is the queue
-- between the supervisor and the stdin pump.
pub record ChildServer : Type 0 where
  pub server_id : String
  pub desired_raw : DesiredServer
  pub launched : DesiredServer
  pub pid : Option ℕ
  pub outbound : List Json
  pub receiver_gone : Bool
  pub status : ExitStatus
  pub diagnostics : ChildDiagnostics

abbrev pub outbound_capacity : ℕ
outbound_capacity = 64

abbrev pub has_exited : ChildServer → Bool
has_exited c = c.diagnostics.exited

-- `mpsc::Sender::try_send`
pub data TrySend : Type 0 where
  queued : ChildServer → TrySend
  full closed : TrySend

unfoldable pub try_send : Json → ChildServer → TrySend
try_send frame c =
    if c.receiver_gone
    then closed
    else if ltb (length c.outbound) outbound_capacity
    then queued (record c { outbound = c.outbound ++ frame ∷ [] })
    else full

unfoldable pub exit_line : ExitStatus → String
exit_line not_reaped = "Local MCP process exited."
exit_line without_code = "Local MCP process exited."
exit_line (with_code n) = append "Local MCP process exited with code " (append n ".")

unfoldable pub join_lines : List String → String
join_lines [] = ""
join_lines (line ∷ []) = line
join_lines (line ∷ next ∷ lines) = append line (append "\n" (join_lines (next ∷ lines)))

unfoldable pub last_output : List String → String
last_output [] = ""
last_output (line ∷ lines) = append "\nLast output:\n" (join_lines (line ∷ lines))

unfoldable pub terminal_error : String → ExitStatus → ChildDiagnostics → TunnelError
terminal_error server_id status d = record {
  server_id = some server_id;
  related_jsonrpc_id = none;
  error_code = "server_offline";
  message = append (exit_line status) (last_output d.stderr_tail);
}

-- The flags afterwards, and the error if none was reported before. Both the pumps and the
-- supervisor report through it.
unfoldable pub take_terminal_error :
    String → ExitStatus → ChildDiagnostics → ChildDiagnostics × Option TunnelError
take_terminal_error server_id status d =
    if d.reported
    then (record d { exited = true }, none)
    else (record d { exited = true; reported = true }, some (terminal_error server_id status d))

unfoldable pub take_child_error : ChildServer → ChildServer × Option TunnelError
take_child_error c =
    let (d, e) = take_terminal_error c.server_id c.status c.diagnostics in
    (record c { diagnostics = d }, e)

-- `ChildServer::spawn` once the process runs: the pipes are captured and the pumps started.
unfoldable pub started : DesiredServer → DesiredServer → Option ℕ → List String → ChildServer
started raw enriched pid sensitive_arg_values = record {
  server_id = enriched.server_id;
  desired_raw = raw;
  launched = enriched;
  pid = pid;
  outbound = [];
  receiver_gone = false;
  status = not_reaped;
  diagnostics = Diagnostics.new (values enriched.env ++ sensitive_arg_values);
}
