-- ===== src/Proc/Pumps/Offline.antt =====
-- The end of a child is reported once, whichever pump sees it first.
use stdiod.Base.{
  ℕ, ◌+◌, String, ◌≡◌, refl, Bool, true, false, some, List, [], ◌∷◌, ◌++◌, ◌⊎◌, arith, inl, inr,
}
use stdiod.Protocol.{Json, TunnelFrame, mcp_frame, tunnel_error}
use stdiod.Tunnel
use stdiod.Tunnel.{OutgoingHandle}
use stdiod.Proc.{ExitStatus, take_terminal_error, terminal_error}
use stdiod.Proc.Diagnostics.{ChildDiagnostics}
use stdiod.Proc.Pumps.{
  Shared, send_terminal, report_terminal, StdoutLine, blank, not_json, read_failed, value,
  stdout_pump, StdinWrite, written, unserialisable, failed, stdin_pump,
}

abbrev is_error : TunnelFrame → ℕ
is_error f = elim f [ tunnel_error e ↦ 1 | _ ↦ 0 ]

-- How many of the frames are errors.
unfoldable pub errors : List TunnelFrame → ℕ
errors [] = 0
errors (f ∷ fs) = is_error f + errors fs

errors-append : (fs gs : List TunnelFrame) → errors (fs ++ gs) ≡ errors fs + errors gs
unfolding errors
errors-append [] gs = omega arith
errors-append (f ∷ fs) gs = omega (arith, errors-append fs gs)

-- A broker with a connection, and what is queued on it.
abbrev pub connected_to : List TunnelFrame → OutgoingHandle
connected_to queued = record { inner = some (record { is_closed = false; queued = queued }) }

-- `n` errors were queued since `before`, and whether the end of the child was reported.
pub record Reports (n : ℕ) (told : Bool) (before : List TunnelFrame) (s : Shared) : Type 0 where
  pub queued : List TunnelFrame
  pub handle : s.1 ≡ connected_to queued
  pub count : errors queued ≡ n + errors before
  pub reported : s.0.reported ≡ told

-- Not reported yet, or reported with one error.
abbrev Seen : List TunnelFrame → Shared → Type 0
Seen before s = Reports 0 false before s ⊎ Reports 1 true before s

module _ (server_id : String) (status : ExitStatus) (before : List TunnelFrame) where
  report-new :
      (s : Shared)
      → Reports 0 false before s
      → Reports 1 true before (report_terminal server_id status s)
  unfolding report_terminal take_terminal_error send_terminal Tunnel.send errors terminal_error
  report-new (d, outgoing) r =
      rw (r.reported, r.handle)
        (record {
          queued = r.queued ++ tunnel_error (terminal_error server_id status d) ∷ [];
          handle = refl;
          count = omega (
            arith,
            r.count,
            errors-append r.queued (tunnel_error (terminal_error server_id status d) ∷ []),
          );
          reported = refl;
        })

  report-again :
      (s : Shared)
      → Reports 1 true before s
      → Reports 1 true before (report_terminal server_id status s)
  unfolding report_terminal take_terminal_error send_terminal
  report-again (d, outgoing) r =
      rw r.reported
        (record { queued = r.queued; handle = r.handle; count = r.count; reported = refl })

  report-Reports :
      (s : Shared) → Seen before s → Reports 1 true before (report_terminal server_id status s)
  report-Reports s (inl r) = report-new s r
  report-Reports s (inr r) = report-again s r

  forward-Reports :
      (v : Json) (n : ℕ) (told : Bool) (d : ChildDiagnostics) (outgoing : OutgoingHandle)
      → Reports n told before (d, outgoing)
      → Reports n told before
          (d, (Tunnel.send (mcp_frame (record { server_id = server_id; frame = v })) outgoing).0)
  unfolding Tunnel.send errors
  forward-Reports v n told d outgoing r =
      let f = mcp_frame (record { server_id = server_id; frame = v }) in
      rw r.handle (record {
        queued = r.queued ++ f ∷ [];
        handle = refl;
        count = omega (arith, r.count, errors-append r.queued (f ∷ []));
        reported = r.reported;
      })

  stdout_pump-Reports :
      (lines : List StdoutLine) (s : Shared)
      → Seen before s
      → Reports 1 true before (stdout_pump server_id status lines s)
  unfolding stdout_pump
  stdout_pump-Reports [] s h = report-Reports s h
  stdout_pump-Reports (blank ∷ lines) s h = stdout_pump-Reports lines s h
  stdout_pump-Reports (not_json ∷ lines) s h = stdout_pump-Reports lines s h
  stdout_pump-Reports (read_failed ∷ lines) s h = report-Reports s h
  stdout_pump-Reports (value v ∷ lines) (d, outgoing) (inl r) =
      stdout_pump-Reports lines _ (inl (forward-Reports v 0 false d outgoing r))
  stdout_pump-Reports (value v ∷ lines) (d, outgoing) (inr r) =
      stdout_pump-Reports lines _ (inr (forward-Reports v 1 true d outgoing r))

  stdin_pump-Seen :
      (writes : List StdinWrite) (s : Shared)
      → Seen before s
      → Seen before (stdin_pump server_id status writes s)
  unfolding stdin_pump
  stdin_pump-Seen [] s h = h
  stdin_pump-Seen (written ∷ writes) s h = stdin_pump-Seen writes s h
  stdin_pump-Seen (unserialisable ∷ writes) s h = stdin_pump-Seen writes s h
  stdin_pump-Seen (failed ∷ writes) s h = inr (report-Reports s h)

-- While the broker is connected and the end of a child was not reported before, whatever the child
-- reads and writes, once its stdout has ended exactly one error was sent, whether or not a write
-- to its stdin failed first.
pub stdout_pump-once :
    (server_id : String) (first last : ExitStatus) (writes : List StdinWrite)
    (lines : List StdoutLine) (d : ChildDiagnostics) (before : List TunnelFrame)
    → d.reported ≡ false
    → let s =
        stdout_pump server_id last lines
          (stdin_pump server_id first writes (d, connected_to before)) in
      Reports 1 true before s
stdout_pump-once server_id first last writes lines d before new =
    stdout_pump-Reports server_id last before lines _ (
      stdin_pump-Seen server_id first before writes _
        (inl (record { queued = before; handle = refl; count = omega arith; reported = new })))
