-- ===== src/Daemon.antt =====
-- crates/edison-stdiod/src/daemon.rs without its supervisor: backoff and heartbeat. Times are in
-- milliseconds of a monotonic or a wall clock.
pub mod Waiting
pub mod Session
pub mod Timing
pub mod Accounts
pub mod Logout
pub mod Stores
pub mod Rounds
pub mod Tests
use stdiod.Base.{
  ℕ, suc, ◌+◌, ◌-◌, ◌*◌, ◌/◌, ◌%◌, Bool, true, false, List, [], ◌∷◌, if◌then◌else◌, ltb, leb, min,
}
use stdiod.Protocol.{TunnelFrame, ping}
use stdiod.Tunnel
use stdiod.Tunnel.{OutgoingHandle}

abbrev pub heartbeat_interval : ℕ
heartbeat_interval = 15000

abbrev pub heartbeat_stale_after : ℕ
heartbeat_stale_after = 25000

abbrev pub heartbeat_resume_gap : ℕ
heartbeat_resume_gap = 45000

abbrev pub backoff_min : ℕ
backoff_min = 1000

abbrev pub backoff_max : ℕ
backoff_max = 30000

abbrev pub config_poll_interval : ℕ
config_poll_interval = 1000

-- The division of signed numbers rounds towards zero, so that a negative delta has the magnitude
-- of the division of its absolute value.
unfoldable pub jittered : ℕ → ℕ → ℕ
jittered nanos base =
    let p = nanos % 51 in
    if leb 25 p then base + base * (p - 25) / 100 else base - base * (25 - p) / 100

-- `(backoff * 2).min(BACKOFF_MAX)`, or a fresh start after a changed configuration.
unfoldable pub next_backoff : Bool → ℕ → ℕ
next_backoff changed backoff = if changed then backoff_min else min (backoff * 2) backoff_max

-- What a tick of the heartbeat reads: both clocks, and the time of the last traffic.
pub record Tick : Type 0 where
  pub wall : ℕ
  pub now : ℕ
  pub last_pong : ℕ

-- The heartbeat over its ticks: the broker afterwards, the pings that were sent, and whether the
-- task ended. A clock that went back counts as no gap.
unfoldable pub heartbeat : ℕ → List Tick → OutgoingHandle → OutgoingHandle × ℕ × Bool
heartbeat last_wall [] outgoing = (outgoing, 0, false)
heartbeat last_wall (t ∷ ticks) outgoing =
    let (handle, pings, ended) = heartbeat t.wall ticks (Tunnel.send ping outgoing).0 in
    if ltb heartbeat_resume_gap (t.wall - last_wall)
    then (Tunnel.clear outgoing, 0, true)
    else if ltb heartbeat_stale_after (t.now - t.last_pong)
    then (Tunnel.clear outgoing, 0, true)
    else (handle, suc pings, ended)
