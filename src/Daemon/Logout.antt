-- ===== src/Daemon/Logout.antt =====
-- What a removed login does while the daemon waits.
use stdiod.Base.{
  ℕ, ◌≤◌, ◌≡◌, refl, true, false, ◌||◌, not, Option, none, some, List, [], ◌∷◌, ok, err, if_rule,
  All, length, arith, Result-cases, inl, inr,
}
use stdiod.State
use stdiod.State.{ConnectionState, needs_reauth}
use stdiod.DaemonAuth.{ResolvedRun, same_connection}
use stdiod.Supervisor.{Supervisor, shutdown_children, publish_state}
use stdiod.Daemon.Waiting.{Poll, pause, sleep_for, keep_waiting, wait_for_config}

-- No child runs, and the status asks for a login.
pub record IsPaused (sup : Supervisor) : Type 0 where
  pub no_children : sup.children ≡ []
  pub asks_login : sup.state.connection_state ≡ needs_reauth

pause-IsPaused : (sup : Supervisor) → IsPaused (pause sup)
unfolding pause shutdown_children publish_state State.update
pause-IsPaused sup = record { no_children = refl; asks_login = refl }

-- The poll found no usable configuration.
abbrev pub IsUnusable : Poll → Type 0
IsUnusable p = elim p.found [ ok next ↦ ⊥ | err e ↦ Unit ]

module _ (current : ResolvedRun) (deadline : Option ℕ) where
  -- Once a poll failed, the supervisor is not touched again.
  stays-IsPaused :
      (polls : List Poll) (sup : Supervisor)
      → IsPaused sup
      → IsPaused (wait_for_config current deadline true polls sup).supervisor
  unfolding wait_for_config keep_waiting
  stays-IsPaused [] sup v = v
  stays-IsPaused (p ∷ polls) sup v = elim (Result-cases p.found) [
    | inl (next, e) ↦
        rw (e, wait_for_config)
          (let rest = wait_for_config current deadline true polls sup in
            if_rule (λ w. IsPaused w.supervisor) (not (same_connection current next) || true)
              (record { returned = some next; supervisor = sup; sleeps = [] })
              (record rest { sleeps = sleep_for deadline p.now ∷ rest.sleeps }) (λ _. v)
              (λ _. stays-IsPaused polls sup v))
    | inr (x, e) ↦ rw (e, wait_for_config) (stays-IsPaused polls sup v)
  ]

  -- While no poll finds a usable configuration, the loop does not return.
  stays_waiting :
      (polls : List Poll) (sup : Supervisor)
      → All IsUnusable polls
      → (wait_for_config current deadline true polls sup).returned ≡ none
  unfolding wait_for_config keep_waiting
  stays_waiting [] sup u = refl
  stays_waiting (p ∷ polls) sup u = elim (Result-cases p.found) [
    | inl (next, e) ↦ absurd (rw e at u.0)
    | inr (x, e) ↦ rw (e, wait_for_config) (stays_waiting polls sup u.1)
  ]

  -- If the first poll of a wait finds no usable configuration, then whatever the later polls find
  -- no child runs any more and the status asks for a login; and as long as they find none, the
  -- wait does not return, also past its deadline.
  pub wait_for_config-IsPaused :
      (p : Poll) (polls : List Poll) (sup : Supervisor)
      → IsUnusable p
      → let w = wait_for_config current deadline false (p ∷ polls) sup in
        IsPaused w.supervisor × (All IsUnusable polls → w.returned ≡ none)
  unfolding wait_for_config keep_waiting
  wait_for_config-IsPaused p polls sup u = elim (Result-cases p.found) [
    | inl (next, e) ↦ absurd (rw e at u)
    | inr (x, e) ↦
        rw (e, wait_for_config)
          (stays-IsPaused polls (pause sup) (pause-IsPaused sup), stays_waiting polls (pause sup))
  ]

-- Once the configuration was unusable and the deadline has passed, polls that find no usable
-- configuration follow each other without any sleep between them.
pub wait_for_config-spins :
    (current : ResolvedRun) (deadline : ℕ) (polls : List Poll) (sup : Supervisor)
    → All IsUnusable polls
    → All (λ p. deadline ≤ p.now) polls
    → let w = wait_for_config current (some deadline) true polls sup in
      All (λ ms. ms ≡ 0) w.sleeps × (length w.sleeps ≡ length polls)
unfolding wait_for_config keep_waiting sleep_for
wait_for_config-spins current deadline [] sup u late = (tt, refl)
wait_for_config-spins current deadline (p ∷ polls) sup u late = elim (Result-cases p.found) [
  | inl (next, e) ↦ absurd (rw e at u.0)
  | inr (x, e) ↦
      rw (e, wait_for_config)
        (let rest = wait_for_config-spins current deadline polls sup u.1 late.1 in
          ((omega (arith, late.0), rest.0), omega (arith, rest.1)))
]
