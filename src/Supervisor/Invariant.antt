-- ===== src/Supervisor/Invariant.antt =====
-- Whatever frames the backend sends, the running children agree with the store.
use mathlib.Core.Path.{subst₂}
use stdiod.Base.{
  ℕ, String, ◌≡◌, refl, ap, ◌∙◌, Option, none, some, List, [], ◌∷◌, inl, inr, ok, Option-cases,
  if_rule,
}
use stdiod.Base.Assoc.{lookup, insert-Distinct, lookup-insert_cases, keys}
use stdiod.Protocol.{
  DesiredServer, Json, EnvMap, ServerSpecUpdate, TunnelFrame, client_hello, server_hello,
  desired_state_update, mcp_frame, tunnel_error, server_env_update, server_spec_update,
  server_spawn_result, ping, pong,
}
use stdiod.EnvStore
use stdiod.EnvStore.{EnvStore, Disk, ServerSpec}
use stdiod.EnvStore.Merge.{get-merge_env_other, get-merge_template_values_other}
use stdiod.Proc.{ChildServer, TrySend, queued, full, closed, has_exited, take_child_error}
use stdiod.Supervisor.{Host, Supervisor, send_frame}
use stdiod.Supervisor.Commands.{
  apply_snapshot, apply_spec_update, apply_env_update, restart_unresponsive, collect,
}
use stdiod.Supervisor.Touch.{IsSameLaunch, SameLaunch?, try_send-SameLaunch?}
use stdiod.Supervisor.Current.{
  IsCurrent, IsLaunched, publish_state-IsCurrent, ensure_all-IsCurrent, drop_unwanted-IsCurrent,
  apply_delta-IsCurrent, stored-IsCurrent, respawn-IsCurrent,
}
use stdiod.Supervisor.Drain.{
  put_child, send_error, report_exit, deliver, route, handle, drain_incoming,
}

send_frame-IsCurrent :
    (f : TunnelFrame) (sup : Supervisor) → IsCurrent sup → IsCurrent (send_frame f sup)
unfolding send_frame
send_frame-IsCurrent f sup v = record { distinct = v.distinct; launched = v.launched }

send_error-IsCurrent :
    (e : Option _) (sup : Supervisor) → IsCurrent sup → IsCurrent (send_error e sup)
unfolding send_error
send_error-IsCurrent none sup v = v
send_error-IsCurrent (some e) sup v = send_frame-IsCurrent _ sup v

put_child-IsCurrent :
    (k : String) (c c' : ChildServer) (sup : Supervisor)
    → IsSameLaunch c c'
    → lookup k sup.children ≡ some c
    → IsCurrent sup
    → IsCurrent (put_child k c' sup)
unfolding put_child
put_child-IsCurrent k c c' sup s found v = record {
  distinct = insert-Distinct k c' sup.children v.distinct;
  launched = λ j d e. elim (lookup-insert_cases k j c' d sup.children e) [
    | inl (p, q) ↦
        let l : IsLaunched sup.env_store k c = v.launched k c found in
        subst₂ (IsLaunched sup.env_store) p q (record {
          own_id = s.id_kept ∙ l.own_id;
          raw_id = ap (λ r. r.server_id) s.raw_kept ∙ l.raw_id;
          up_to_date = rw (s.launched_kept, s.raw_kept) l.up_to_date;
        })
    | inr before ↦ v.launched j d before
  ];
}

report_exit-IsCurrent :
    (k : String) (c : ChildServer) (sup : Supervisor)
    → lookup k sup.children ≡ some c
    → IsCurrent sup
    → IsCurrent (report_exit k c sup)
unfolding report_exit take_child_error
report_exit-IsCurrent k c sup found v = send_error-IsCurrent _ _ (
    put_child-IsCurrent k c _ sup
      (record { id_kept = refl; raw_kept = refl; launched_kept = refl; pid_kept = refl }) found v)

deliver-IsCurrent :
    (host : Host) (k : String) (c : ChildServer) (t : TrySend) (sup : Supervisor)
    → SameLaunch? c t
    → lookup k sup.children ≡ some c
    → IsCurrent sup
    → IsCurrent (deliver host k c t sup)
unfolding deliver restart_unresponsive
deliver-IsCurrent host k c (queued c') sup s found v = put_child-IsCurrent k c c' sup s found v
deliver-IsCurrent host k c full sup s found v =
    respawn-IsCurrent host k _ (send_frame-IsCurrent _ sup v)
deliver-IsCurrent host k c closed sup s found v = report_exit-IsCurrent k c sup found v

module _ (host : Host) where
  route-IsCurrent :
      (k : String) (frame : Json) (sup : Supervisor)
      → IsCurrent sup
      → IsCurrent (route host k frame sup)
  unfolding route
  route-IsCurrent k frame sup v = elim (Option-cases (lookup k sup.children)) [
    | inl e ↦ rw (e, route) v
    | inr (c, e) ↦
        rw (e, route)
          (if_rule IsCurrent (has_exited c) _ _ (λ _. report_exit-IsCurrent k c sup e v)
            (λ _. deliver-IsCurrent host k c _ sup (try_send-SameLaunch? frame c) e v))
  ]

  apply_snapshot-IsCurrent :
      (desired : List DesiredServer) (sup : Supervisor)
      → IsCurrent sup
      → IsCurrent (apply_snapshot host desired sup)
  unfolding apply_snapshot
  apply_snapshot-IsCurrent desired sup v = publish_state-IsCurrent _ (
      ensure_all-IsCurrent host _ _
        (drop_unwanted-IsCurrent (collect desired) (keys sup.children) sup v))

  module _ (writable : (n : ℕ) → host.write_fails n ≡ none) where
    set-ok :
        (id : String) (spec : ServerSpec) (store : EnvStore) (disk : Disk)
        → (EnvStore.set host.write_fails id spec store disk).2 ≡ ok tt
    unfolding EnvStore.set EnvStore.flush EnvStore.write_file
    set-ok id spec store disk = rw (writable disk.writes) refl

    apply_env_update-IsCurrent :
        (id : String) (env : EnvMap) (sup : Supervisor)
        → IsCurrent sup
        → IsCurrent (apply_env_update host id env sup)
    unfolding apply_env_update EnvStore.merge_env
    apply_env_update-IsCurrent id env sup v =
        stored-IsCurrent host id _ sup
          (get-merge_env_other host.write_fails id sup.env_store sup.disk env)
          (set-ok id _ sup.env_store sup.disk) v

    apply_spec_update-IsCurrent :
        (u : ServerSpecUpdate) (sup : Supervisor)
        → IsCurrent sup
        → IsCurrent (apply_spec_update host u sup)
    unfolding apply_spec_update EnvStore.merge_template_values
    apply_spec_update-IsCurrent u sup v =
        stored-IsCurrent host u.server_id _ sup
          (get-merge_template_values_other host.write_fails u.server_id sup.env_store sup.disk u.env
            u.templated_args)
          (set-ok u.server_id _ sup.env_store sup.disk) v

    handle-IsCurrent :
        (f : TunnelFrame) (sup : Supervisor) → IsCurrent sup → IsCurrent (handle host f sup).0
    unfolding handle
    handle-IsCurrent (server_hello h) sup v = apply_snapshot-IsCurrent h.servers sup v
    handle-IsCurrent (desired_state_update u) sup v = apply_delta-IsCurrent host u sup v
    handle-IsCurrent (mcp_frame m) sup v = route-IsCurrent m.server_id m.frame sup v
    handle-IsCurrent (tunnel_error e) sup v = v
    handle-IsCurrent ping sup v = send_frame-IsCurrent _ sup v
    handle-IsCurrent (server_env_update u) sup v =
        apply_env_update-IsCurrent u.server_id u.env sup v
    handle-IsCurrent (server_spec_update u) sup v = apply_spec_update-IsCurrent u sup v
    handle-IsCurrent (server_spawn_result r) sup v = v
    handle-IsCurrent (client_hello c) sup v = v
    handle-IsCurrent pong sup v = v

    -- If every write of a private file succeeds, then from a state in which every child runs under
    -- its own id with what the store makes of its raw spec, any frames of the backend lead to such
    -- a state again: new values are never left unapplied, and an id never has two children.
    pub drain_incoming-IsCurrent :
        (frames : List (ℕ × TunnelFrame)) (last_pong : ℕ) (sup : Supervisor)
        → IsCurrent sup
        → IsCurrent (drain_incoming host frames last_pong sup).0
    unfolding drain_incoming
    drain_incoming-IsCurrent [] last_pong sup v = v
    drain_incoming-IsCurrent ((now, f) ∷ frames) last_pong sup v =
        elim (Option-cases (handle host f sup).1) [
          | inl e ↦
              rw (e, drain_incoming)
                (drain_incoming-IsCurrent frames now (handle host f sup).0
                  (handle-IsCurrent f sup v))
          | inr (m, e) ↦ rw (e, drain_incoming) (handle-IsCurrent f sup v)
        ]
