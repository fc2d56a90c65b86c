-- ===== src/Daemon/Timing.antt =====
-- The waiting times of the daemon: backoff, heartbeat, and the polling of the configuration.
use stdiod.Base.{
  ℕ, suc, ◌+◌, ◌-◌, ◌*◌, ◌%◌, ◌≤◌, ◌≡◌, refl, Bool, true, none, List, [], ◌∷◌, if◌then◌else◌,
  if_rule, leb, ltb, All, arith,
}
use stdiod.Protocol.{ping}
use stdiod.Tunnel
use stdiod.Tunnel.{OutgoingHandle}
use stdiod.Daemon.{
  jittered, Tick, heartbeat, heartbeat_interval, heartbeat_resume_gap, heartbeat_stale_after,
}

mul_le : (base a b : ℕ) → a ≤ b → base * a ≤ base * b
mul_le base a b h = grind arith

-- The jitter is at most a quarter of the wait, whatever the clock reads.
pub jittered_lem :
    (nanos base : ℕ) → (3 * base ≤ 4 * jittered nanos base) × (4 * jittered nanos base ≤ 5 * base)
unfolding jittered
jittered_lem nanos base =
    let up : base * (nanos % 51 - 25) ≤ base * 25 =
      mul_le base (nanos % 51 - 25) 25 (omega arith) in
    let down : base * (25 - nanos % 51) ≤ base * 25 =
      mul_le base (25 - nanos % 51) 25 (omega arith) in
    if_rule (λ j. (3 * base ≤ 4 * j) × (4 * j ≤ 5 * base)) (leb 25 (nanos % 51)) _ _
      (λ _. (omega arith, omega arith)) (λ _. (omega arith, omega arith))

-- Ticks that come at least the interval apart, from `now` on.
abbrev pub Spaced : ℕ → List Tick → Type 0
Spaced now [] = Unit
Spaced now (t ∷ ticks) = (now ≤ t.now) × Spaced (t.now + heartbeat_interval) ticks

-- No traffic comes after `start`.
abbrev pub IsSilent : ℕ → List Tick → Type 0
IsSilent start = All (λ t. t.last_pong ≤ start)

-- The task ended, the broker is cleared, and at most `n` pings were sent.
record IsEnded (n : ℕ) (r : OutgoingHandle × ℕ × Bool) : Type 0 where
  pub few_pings : r.1 ≤ n
  pub ended : r.2 ≡ true
  pub cleared : r.0.inner ≡ none

-- A tick either ends the task or sends one ping.
tick-IsEnded :
    (n last_wall : ℕ) (t : Tick) (ticks : List Tick) (outgoing : OutgoingHandle)
    → ((handle : OutgoingHandle) → IsEnded n (heartbeat t.wall ticks handle))
    → IsEnded (suc n) (heartbeat last_wall (t ∷ ticks) outgoing)
unfolding heartbeat Tunnel.clear
tick-IsEnded n last_wall t ticks outgoing later =
    let next = later (Tunnel.send ping outgoing).0 in
    let r = heartbeat t.wall ticks (Tunnel.send ping outgoing).0 in
    let over : OutgoingHandle × ℕ × Bool = (Tunnel.clear outgoing, 0, true) in
    let pinged : OutgoingHandle × ℕ × Bool = (r.0, suc r.1, r.2) in
    let stop : IsEnded (suc n) over = record {
      few_pings = omega arith;
      ended = refl;
      cleared = refl;
    } in
    if_rule (IsEnded (suc n)) (ltb heartbeat_resume_gap (t.wall - last_wall)) over
      (if ltb heartbeat_stale_after (t.now - t.last_pong) then over else pinged) (λ _. stop)
      λ _.
        if_rule (IsEnded (suc n)) (ltb heartbeat_stale_after (t.now - t.last_pong)) over pinged
          (λ _. stop)
          λ _. record {
            few_pings = omega (arith, next.few_pings);
            ended = next.ended;
            cleared = next.cleared;
          }

-- A tick that sees no traffic for too long ends the task.
late-IsEnded :
    (last_wall : ℕ) (t : Tick) (ticks : List Tick) (outgoing : OutgoingHandle)
    → t.last_pong + heartbeat_stale_after + 1 ≤ t.now
    → IsEnded 0 (heartbeat last_wall (t ∷ ticks) outgoing)
unfolding heartbeat Tunnel.clear
late-IsEnded last_wall t ticks outgoing h =
    let r = heartbeat t.wall ticks (Tunnel.send ping outgoing).0 in
    let over : OutgoingHandle × ℕ × Bool = (Tunnel.clear outgoing, 0, true) in
    let pinged : OutgoingHandle × ℕ × Bool = (r.0, suc r.1, r.2) in
    let stop : IsEnded 0 over = record { few_pings = omega arith; ended = refl; cleared = refl } in
    if_rule (IsEnded 0) (ltb heartbeat_resume_gap (t.wall - last_wall)) over
      (if ltb heartbeat_stale_after (t.now - t.last_pong) then over else pinged) (λ _. stop)
      λ _.
        if_rule (IsEnded 0) (ltb heartbeat_stale_after (t.now - t.last_pong)) over pinged
          (λ _. stop) (λ e. absurd (ground arith))

-- If no traffic comes after `start`, and the ticks come at least 15 seconds apart from then on,
-- then three ticks are enough: the heartbeat ends, with the broker cleared, after at most two
-- pings, whatever the wall clock shows.
pub heartbeat_lem :
    (start last_wall : ℕ) (a b c : Tick) (ticks : List Tick) (outgoing : OutgoingHandle)
    → Spaced start (a ∷ b ∷ c ∷ ticks)
    → IsSilent start (a ∷ b ∷ c ∷ ticks)
    → let r = heartbeat last_wall (a ∷ b ∷ c ∷ ticks) outgoing in
      (r.1 ≤ 2) × (r.2 ≡ true) × (r.0.inner ≡ none)
heartbeat_lem start last_wall a b c ticks outgoing s q =
    let r = tick-IsEnded 1 last_wall a (b ∷ c ∷ ticks) outgoing λ h.
      tick-IsEnded 0 a.wall b (c ∷ ticks) h
        λ h'. late-IsEnded b.wall c ticks h' (omega (arith, s.0, s.1.0, s.1.1.0, q.1.1.0)) in
    (r.few_pings, r.ended, r.cleared)
