-- ===== src/Daemon/Stores.antt =====
-- Which account's store the loop of `run` has open.
use stdiod.Base.{ok_inj}
use stdiod.Base.{
  ℕ, ◌≡◌, refl, sym, ◌∙◌, ap, inl, inr, Bool, true, not, ◌||◌, ◌&&◌, String, Option, none, some,
  List, [], ◌∷◌, same_text?, same_text?_iff, Result, ok, err, Result-cases, bind-inv, Bool-cases,
  Option-cases, if_rule, if◌then◌else◌,
}
use stdiod.EnvStore
use stdiod.EnvStore.{EnvStore, Disk, File, servers, malformed, unreadable, store_path}
use stdiod.DaemonAuth.{
  ResolvedRun, ConnectionError, ResolveRunError, is_auth_rejection, is_protocol_rejection,
  connection_error_message, env_namespace, requires_child_reset, same_connection,
}
use stdiod.Supervisor.{Supervisor, shutdown_children, switch_env_store, send_frame, publish_state}
use stdiod.Supervisor.Account.{SamePath, drain_incoming-SamePath}
use stdiod.Supervisor.Drain.{drain_incoming}
use stdiod.Daemon.Waiting.{
  Wait, Poll, pause, sleep_for, reached, keep_waiting, wait_for_config, wait_for_connection_change,
}
use stdiod.Daemon.Session.{
  Environment, Round, SessionEnd, connect_failed, websocket, stale, config_polled, Loop, set_state,
  clear_outgoing, announce, end_session, after_session, rejected, retry, switch_account, refused,
  run_frames, run_one_session,
}

-- The file of the values that belong to the login.
abbrev pub account_path : Environment → ResolvedRun → String
account_path env r = store_path env.digest env.config_dir (env_namespace r)

open_at-path :
    (path : String) (disk : Disk) (store : EnvStore)
    → EnvStore.open_at path disk ≡ ok store
    → store.path ≡ path
unfolding EnvStore.open_at
open_at-path path disk store e = elim (Option-cases (disk.files path)) [
  | inl f ↦ ap (λ s. s.path) (sym (ok_inj (rw (f, EnvStore.open_at) at e)))
  | inr (file, f) ↦ by_file file (rw (f, EnvStore.open_at) at e)
]
  where
    by_file :
        (file : File)
        → elim file [
          | servers m ↦ ok (record { path = path; entries = m })
          | malformed ↦ err EnvStore.parse_failed
          | unreadable ↦ err EnvStore.read_failed
        ]
          ≡ ok store
        → store.path ≡ path
    by_file (servers m) g = ap (λ s. s.path) (sym (ok_inj g))
    by_file malformed g = cc
    by_file unreadable g = cc

-- A change of login leaves the store of the new account open.
pub switch_account-path :
    (env : Environment) (current next : ResolvedRun) (before after : Supervisor)
    → switch_account env current next before ≡ ok after
    → before.env_store.path ≡ account_path env current
    → after.env_store.path ≡ account_path env next
unfolding switch_account switch_env_store shutdown_children publish_state EnvStore.open_for
switch_account-path env current next before after e own =
    elim (Bool-cases (same_text? (env_namespace current) (env_namespace next))) [
      | inl same ↦
          let f = ok_inj (rw same at e) in
          let g = (same_text?_iff (env_namespace current) (env_namespace next)).0 same in
          ap (λ s. s.env_store.path) (sym f)
          ∙ if_rule (λ s. s.env_store.path ≡ before.env_store.path)
              (requires_child_reset current next) (shutdown_children before) before (λ _. refl)
              (λ _. refl)
          ∙ own
          ∙ ap (store_path env.digest env.config_dir) g
      | inr other ↦
          let (store, f, g) =
            bind-inv (EnvStore.open_for env.digest env.config_dir (env_namespace next) before.disk)
              _ after (rw other at e) in
          ap (λ s. s.env_store.path) (sym (ok_inj g))
          ∙ open_at-path (account_path env next) before.disk store f
    ]

-- What a reset and a pause of the children leave.
if-SamePath :
    (b : Bool) (sup x y : Supervisor)
    → SamePath sup x
    → SamePath sup y
    → SamePath sup (if b then x else y)
if-SamePath b sup x y p q = if_rule (SamePath sup) b x y (λ _. p) (λ _. q)

wait_for_connection_change-SamePath :
    (current : ResolvedRun) (polls : List (Result ResolveRunError ResolvedRun)) (sup : Supervisor)
    → SamePath sup (wait_for_connection_change current polls sup).1
unfolding wait_for_connection_change shutdown_children publish_state
wait_for_connection_change-SamePath current [] sup = refl
wait_for_connection_change-SamePath current (ok next ∷ polls) sup =
    if_rule (λ w. SamePath sup w.1) (not (same_connection current next))
      (true, if requires_child_reset current next then shutdown_children sup else sup)
      (wait_for_connection_change current polls sup)
      (λ _.
        if-SamePath (requires_child_reset current next) sup (shutdown_children sup) sup refl refl)
      (λ _. wait_for_connection_change-SamePath current polls sup)
wait_for_connection_change-SamePath current (err e ∷ polls) sup = refl

keep_waiting-SamePath :
    (current : ResolvedRun) (deadline : Option ℕ) (saw : Bool) (now : ℕ) (before sup : Supervisor)
    (rest : Wait)
    → SamePath before sup
    → SamePath before rest.supervisor
    → SamePath before (keep_waiting current deadline saw now sup rest).supervisor
unfolding keep_waiting
keep_waiting-SamePath current deadline saw now before sup rest p q =
    if_rule (λ (w : Wait). SamePath before w.supervisor) (not saw && reached deadline now)
      (record { returned = some current; supervisor = sup; sleeps = [] })
      (record rest { sleeps = sleep_for deadline now ∷ rest.sleeps }) (λ _. p) (λ _. q)

pub wait_for_config-SamePath :
    (current : ResolvedRun) (deadline : Option ℕ) (saw : Bool) (polls : List Poll)
    (sup : Supervisor)
    → SamePath sup (wait_for_config current deadline saw polls sup).supervisor
unfolding wait_for_config pause shutdown_children publish_state
wait_for_config-SamePath current deadline saw [] sup = refl
wait_for_config-SamePath current deadline saw (p ∷ polls) sup = elim (Result-cases p.found) [
  | inl (next, e) ↦
      rw (e, wait_for_config)
        (if_rule (λ (w : Wait). SamePath sup w.supervisor)
          (not (same_connection current next) || saw)
          (record { returned = some next; supervisor = sup; sleeps = [] })
          (keep_waiting current deadline saw p.now sup
            (wait_for_config current deadline saw polls sup))
          (λ _. refl)
          (λ _.
            keep_waiting-SamePath current deadline saw p.now sup sup _ refl
              (wait_for_config-SamePath current deadline saw polls sup)))
  | inr (x, e) ↦
      rw (e, wait_for_config)
        (let paused : Supervisor = if saw then sup else pause sup in
          let p1 : SamePath sup paused = if-SamePath saw sup sup (pause sup) refl refl in
          keep_waiting-SamePath current deadline true p.now sup paused _ p1
            (wait_for_config-SamePath current deadline true polls paused ∙ p1))
]

module _ (env : Environment) where
  end_session-SamePath :
      (args : ResolvedRun) (ended : SessionEnd) (sup : Supervisor)
      → SamePath sup (end_session args ended sup).0
  unfolding end_session clear_outgoing
  end_session-SamePath args (connect_failed e) sup = refl
  end_session-SamePath args (websocket result) sup = refl
  end_session-SamePath args stale sup = refl
  end_session-SamePath args (config_polled polls) sup =
      wait_for_connection_change-SamePath args polls sup

  run_frames-SamePath :
      (args : ResolvedRun) (r : Round) (sup : Supervisor)
      → SamePath sup (run_frames env args r sup).0
  unfolding run_frames announce set_state send_frame
  run_frames-SamePath args r sup =
      let up = announce env args r.connected_at sup in
      let drained = drain_incoming env.host r.frames r.connected_at up in
      let d : SamePath sup drained.0 =
        drain_incoming-SamePath env.host r.frames r.connected_at up in
      elim (Option-cases drained.2) [
        | inl e ↦ rw (e, run_frames) (end_session-SamePath args r.ended drained.0 ∙ d)
        | inr (m, e) ↦ rw (e, run_frames) d
      ]

  run_one_session-SamePath :
      (args : ResolvedRun) (r : Round) (sup : Supervisor)
      → SamePath sup (run_one_session env args r sup).0
  unfolding run_one_session
  run_one_session-SamePath args r sup = elim (Option-cases (refused r.ended)) [
    | inl e ↦ rw (e, run_one_session) (run_frames-SamePath args r sup)
    | inr (x, e) ↦ rw (e, run_one_session) refl
  ]

  -- The login and the store once a session has ended.
  after_session-account :
      (nanos : ℕ) (failure : Option ConnectionError) (l : Loop)
      → let n = (after_session env nanos failure l).0 in
        SamePath l.supervisor n.supervisor × (n.resolved ≡ l.resolved)
  unfolding after_session rejected retry set_state clear_outgoing shutdown_children publish_state
  after_session-account nanos none l = (refl, refl)
  after_session-account nanos (some e) l =
      let message = connection_error_message (env.display e) l.resolved in
      if_rule (λ n. SamePath l.supervisor n.0.supervisor × (n.0.resolved ≡ l.resolved))
        (is_auth_rejection e || is_protocol_rejection e)
        (rejected (is_protocol_rejection e) message l) (retry nanos message l) (λ _. (refl, refl))
        (λ _. (refl, refl))

  pub own_store-after_session :
      (r : Round) (l : Loop)
      → l.supervisor.env_store.path ≡ account_path env l.resolved
      → let s = run_one_session env l.resolved r l.supervisor in
        let n = (after_session env r.nanos s.1 (record l { supervisor = s.0 })).0 in
        n.supervisor.env_store.path ≡ account_path env n.resolved
  own_store-after_session r l own =
      let s = run_one_session env l.resolved r l.supervisor in
      let a = after_session-account r.nanos s.1 (record l { supervisor = s.0 }) in
      a.0
      ∙ run_one_session-SamePath l.resolved r l.supervisor
      ∙ own
      ∙ ap (account_path env) (sym a.1)
