-- ===== src/Daemon/Accounts.antt =====
-- The children across sessions, logins and changes of account.
use stdiod.Base.{ok_inj}
use stdiod.Base.{
  ℕ, ◌≡◌, refl, sym, ap, ◌⊎◌, inl, inr, Bool, true, ◌||◌, ◌&&◌, not, Option, none, some, same_text?,
  List, [], ◌∷◌, Result, ok, err, Result-cases, bind-inv, Bool-cases, if◌then◌else◌, if_rule,
}
use stdiod.Base.Assoc.{lookup}
use stdiod.EnvStore
use stdiod.EnvStore.{EnvStore, StoreError}
use stdiod.State
use stdiod.DaemonAuth.{
  ResolvedRun, ConnectionError, ResolveRunError, is_auth_rejection, is_protocol_rejection,
  connection_error_message, env_namespace, requires_child_reset, same_connection,
}
use stdiod.DaemonAuth.Reset.{IsSameAccount, requires_child_reset-IsSameAccount}
use stdiod.Supervisor.{Supervisor, shutdown_children, switch_env_store, send_frame, publish_state}
use stdiod.Supervisor.Current.{IsCurrent}
use stdiod.Daemon.Waiting.{
  Wait, Poll, pause, sleep_for, reached, keep_waiting, wait_for_config, wait_for_connection_change,
}
use stdiod.Daemon.Session.{
  Environment, SessionEnd, connect_failed, websocket, stale, config_polled, Loop, set_state,
  clear_outgoing, announce, end_session, after_session, rejected, retry, switch_account,
}

-- The children and the store of an account are those of the state before.
pub record IsKept (current next : ResolvedRun) (before after : Supervisor) : Type 0 where
  pub account : IsSameAccount current next
  pub children : after.children ≡ before.children
  pub store : after.env_store ≡ before.env_store

-- After a change of login either no child is left, or all are, with their store, and the account
-- is the same: backend, installation, device, namespace of the environment, and a legacy key.
pub switch_account-IsKept :
    (env : Environment) (current next : ResolvedRun) (before after : Supervisor)
    → switch_account env current next before ≡ ok after
    → (after.children ≡ []) ⊎ IsKept current next before after
unfolding switch_account shutdown_children switch_env_store publish_state
switch_account-IsKept env current next before after e =
    elim (Bool-cases (same_text? (env_namespace current) (env_namespace next))) [
      | inl same ↦ elim (Bool-cases (requires_child_reset current next)) [
        | inl reset ↦
            let f : shutdown_children before ≡ after = ok_inj (rw (same, reset) at e) in
            inl (ap (λ s. s.children) (sym f))
        | inr keep ↦
            let f : before ≡ after = ok_inj (rw (same, keep) at e) in
            inr (record {
              account = requires_child_reset-IsSameAccount current next keep;
              children = ap (λ s. s.children) (sym f);
              store = ap (λ s. s.env_store) (sym f);
            })
      ]
      | inr other ↦
          let (store, f, g) =
            bind-inv (EnvStore.open_for env.digest env.config_dir (env_namespace next) before.disk)
              _ after (rw other at e) in
          inl (ap (λ s. s.children) (sym (ok_inj g)))
    ]

pub none-IsCurrent : (sup : Supervisor) → sup.children ≡ [] → IsCurrent sup
unfolding lookup
none-IsCurrent sup e = record {
  distinct = rw e tt;
  launched = λ k c f. absurd (let f' : none ≡ some c = rw e at f in cc);
}

pub same-IsCurrent :
    (before after : Supervisor)
    → after.children ≡ before.children
    → after.env_store ≡ before.env_store
    → IsCurrent before
    → IsCurrent after
same-IsCurrent before after p q v = record {
  distinct = rw p v.distinct;
  launched = rw (p, q) v.launched;
}

shutdown_children-IsCurrent : (sup : Supervisor) → IsCurrent (shutdown_children sup)
unfolding shutdown_children publish_state
shutdown_children-IsCurrent sup = none-IsCurrent (shutdown_children sup) refl

module _ (env : Environment) where
  pub announce-IsCurrent :
      (args : ResolvedRun) (at : ℕ) (sup : Supervisor)
      → IsCurrent sup
      → IsCurrent (announce env args at sup)
  unfolding announce send_frame set_state
  announce-IsCurrent args at sup v = record { distinct = v.distinct; launched = v.launched }

  wait_for_connection_change-IsCurrent :
      (current : ResolvedRun) (polls : List (Result ResolveRunError ResolvedRun)) (sup : Supervisor)
      → IsCurrent sup
      → IsCurrent (wait_for_connection_change current polls sup).1
  unfolding wait_for_connection_change
  wait_for_connection_change-IsCurrent current [] sup v = v
  wait_for_connection_change-IsCurrent current (ok next ∷ polls) sup v =
      let reset = if requires_child_reset current next then shutdown_children sup else sup in
      if_rule (λ w. IsCurrent w.1) (not (same_connection current next)) (true, reset)
        (wait_for_connection_change current polls sup)
        (λ _.
          if_rule IsCurrent (requires_child_reset current next) (shutdown_children sup) sup
            (λ _. shutdown_children-IsCurrent sup) (λ _. v))
        (λ _. wait_for_connection_change-IsCurrent current polls sup v)
  wait_for_connection_change-IsCurrent current (err e ∷ polls) sup v =
      shutdown_children-IsCurrent sup

  pub end_session-IsCurrent :
      (args : ResolvedRun) (ended : SessionEnd) (sup : Supervisor)
      → IsCurrent sup
      → IsCurrent (end_session args ended sup).0
  unfolding end_session clear_outgoing
  end_session-IsCurrent args (connect_failed e) sup v = v
  end_session-IsCurrent args (websocket result) sup v = v
  end_session-IsCurrent args stale sup v = record { distinct = v.distinct; launched = v.launched }
  end_session-IsCurrent args (config_polled polls) sup v =
      wait_for_connection_change-IsCurrent args polls sup v

  pause-IsCurrent : (sup : Supervisor) → IsCurrent (pause sup)
  unfolding pause shutdown_children publish_state
  pause-IsCurrent sup = none-IsCurrent (pause sup) refl

  keep_waiting-IsCurrent :
      (current : ResolvedRun) (deadline : Option ℕ) (saw : Bool) (now : ℕ) (sup : Supervisor)
      (rest : Wait)
      → IsCurrent sup
      → IsCurrent rest.supervisor
      → IsCurrent (keep_waiting current deadline saw now sup rest).supervisor
  unfolding keep_waiting
  keep_waiting-IsCurrent current deadline saw now sup rest v w =
      if_rule (λ r. IsCurrent r.supervisor) (not saw && reached deadline now)
        (record { returned = some current; supervisor = sup; sleeps = [] })
        (record rest { sleeps = sleep_for deadline now ∷ rest.sleeps }) (λ _. v) (λ _. w)

  pub wait_for_config-IsCurrent :
      (current : ResolvedRun) (deadline : Option ℕ) (saw : Bool) (polls : List Poll)
      (sup : Supervisor)
      → IsCurrent sup
      → IsCurrent (wait_for_config current deadline saw polls sup).supervisor
  unfolding wait_for_config
  wait_for_config-IsCurrent current deadline saw [] sup v = v
  wait_for_config-IsCurrent current deadline saw (p ∷ polls) sup v = elim (Result-cases p.found) [
    | inl (next, e) ↦
        rw (e, wait_for_config)
          (let rest = wait_for_config current deadline saw polls sup in
            if_rule (λ w. IsCurrent w.supervisor) (not (same_connection current next) || saw)
              (record { returned = some next; supervisor = sup; sleeps = [] })
              (keep_waiting current deadline saw p.now sup rest) (λ _. v)
              (λ _.
                keep_waiting-IsCurrent current deadline saw p.now sup rest v
                  (wait_for_config-IsCurrent current deadline saw polls sup v)))
    | inr (x, e) ↦
        rw (e, wait_for_config)
          (let paused : Supervisor = if saw then sup else pause sup in
            let w : IsCurrent paused =
              if_rule IsCurrent saw sup (pause sup) (λ _. v) (λ _. pause-IsCurrent sup) in
            keep_waiting-IsCurrent current deadline true p.now paused _ w
              (wait_for_config-IsCurrent current deadline true polls paused w))
  ]

  pub set_state-IsCurrent :
      (f : State.State → State.State) (sup : Supervisor)
      → IsCurrent sup
      → IsCurrent (set_state f sup)
  unfolding set_state
  set_state-IsCurrent f sup v = record { distinct = v.distinct; launched = v.launched }

  clear_outgoing-IsCurrent : (sup : Supervisor) → IsCurrent sup → IsCurrent (clear_outgoing sup)
  unfolding clear_outgoing
  clear_outgoing-IsCurrent sup v = record { distinct = v.distinct; launched = v.launched }

  pub after_session-IsCurrent :
      (nanos : ℕ) (failure : Option ConnectionError) (l : Loop)
      → IsCurrent l.supervisor
      → IsCurrent (after_session env nanos failure l).0.supervisor
  unfolding after_session rejected retry
  after_session-IsCurrent nanos none l v =
      set_state-IsCurrent _ _ (clear_outgoing-IsCurrent l.supervisor v)
  after_session-IsCurrent nanos (some e) l v =
      let message = connection_error_message (env.display e) l.resolved in
      let holds : Loop × Option ℕ → Type 0 = λ r. IsCurrent r.0.supervisor in
      if_rule holds (is_auth_rejection e || is_protocol_rejection e)
        (rejected (is_protocol_rejection e) message l) (retry nanos message l)
        (λ _. set_state-IsCurrent _ _ (shutdown_children-IsCurrent _))
        (λ _. set_state-IsCurrent _ _ (clear_outgoing-IsCurrent l.supervisor v))
