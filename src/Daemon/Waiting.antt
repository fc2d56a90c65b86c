-- ===== src/Daemon/Waiting.antt =====
-- The loops of daemon.rs that poll the configuration, over what each poll observes.
use stdiod.Base.{
  ℕ, ◌-◌, String, Bool, true, false, ◌&&◌, ◌||◌, not, Option, none, some, List, [], ◌∷◌, Result, ok,
  err, if◌then◌else◌, leb, min,
}
use stdiod.State
use stdiod.State.{needs_reauth}
use stdiod.DaemonAuth.{ResolvedRun, ResolveRunError, same_connection, requires_child_reset}
use stdiod.Supervisor.{Supervisor, shutdown_children}
use stdiod.Daemon.{config_poll_interval}

-- One poll: the time, and what `ResolvedRun::from_args` returned.
pub record Poll : Type 0 where
  pub now : ℕ
  pub found : Result ResolveRunError ResolvedRun

abbrev pub removed_message : String
removed_message = "credentials were removed or are incomplete; run `edison-stdiod login`"

-- The children are shut down and the status asks for a login.
unfoldable pub pause : Supervisor → Supervisor
pause sup =
    let stopped : Supervisor = shutdown_children sup in
    record stopped {
      state =
          State.update
            (λ s. record s { connection_state = needs_reauth; last_error = some removed_message })
            stopped.state;
    }

-- How long the loop sleeps before the next poll.
unfoldable pub sleep_for : Option ℕ → ℕ → ℕ
sleep_for none now = config_poll_interval
sleep_for (some deadline) now = min (deadline - now) config_poll_interval

abbrev pub reached : Option ℕ → ℕ → Bool
reached none now = false
reached (some deadline) now = leb deadline now

-- How the loop stands after some polls: it returned, or it still polls.
pub record Wait : Type 0 where
  pub returned : Option ResolvedRun
  pub supervisor : Supervisor
  pub sleeps : List ℕ

-- The end of one round: the deadline, or a sleep and `rest`, the rounds that follow.
unfoldable pub keep_waiting : ResolvedRun → Option ℕ → Bool → ℕ → Supervisor → Wait → Wait
keep_waiting current deadline saw_unusable now sup rest =
    if not saw_unusable && reached deadline now
    then record { returned = some current; supervisor = sup; sleeps = [] }
    else record rest { sleeps = sleep_for deadline now ∷ rest.sleeps }

unfoldable pub wait_for_config : ResolvedRun → Option ℕ → Bool → List Poll → Supervisor → Wait
wait_for_config current deadline saw_unusable [] sup = record {
  returned = none;
  supervisor = sup;
  sleeps = [];
}
wait_for_config current deadline saw_unusable (p ∷ polls) sup = elim p.found [
  | ok next ↦
      let rest = wait_for_config current deadline saw_unusable polls sup in
      if not (same_connection current next) || saw_unusable
      then record { returned = some next; supervisor = sup; sleeps = [] }
      else keep_waiting current deadline saw_unusable p.now sup rest
  | err e ↦
      let paused : Supervisor = if saw_unusable then sup else pause sup in
      keep_waiting current deadline true p.now paused
        (wait_for_config current deadline true polls paused)
]

-- Whether the loop that runs beside a session ended it, and the supervisor.
unfoldable pub wait_for_connection_change :
    ResolvedRun → List (Result ResolveRunError ResolvedRun) → Supervisor → Bool × Supervisor
wait_for_connection_change current [] sup = (false, sup)
wait_for_connection_change current (ok next ∷ polls) sup =
    let rest = wait_for_connection_change current polls sup in
    if not (same_connection current next)
    then (true, if requires_child_reset current next then shutdown_children sup else sup)
    else rest
wait_for_connection_change current (err e ∷ polls) sup = (true, shutdown_children sup)
