-- ===== src/Supervisor/Account.antt =====
-- Which file the store of the daemon's values is kept in, from frame to frame.
use stdiod.Base.{
  ℕ, String, ◌≡◌, refl, ◌∙◌, Option, none, some, List, [], ◌∷◌, ◌++◌, inl, inr, Option-cases,
  if_rule, Result, ok, err,
}
use stdiod.Base.Assoc.{lookup, keys}
use stdiod.Protocol.{
  DesiredServer, Json, TunnelFrame, client_hello, server_hello, desired_state_update, mcp_frame,
  tunnel_error, server_env_update, server_spec_update, server_spawn_result, ping, pong,
}
use stdiod.EnvStore
use stdiod.EnvStore.{EnvStore, Disk, Written}
use stdiod.EnvStore.Merge.{flush-store}
use stdiod.Proc.{ChildServer, TrySend, queued, full, closed, has_exited, try_send, take_child_error}
use stdiod.Supervisor.{
  Host, Supervisor, send_frame, try_spawn, finish_spawn, stop_child, publish_state, is_unchanged,
  enrich,
}
use stdiod.Supervisor.Commands.{
  ensure, ensure_all, apply_desired, apply_all, forget, forget_all, apply_delta, respawn, stored,
  apply_spec_update, apply_env_update, drop_unwanted, is_wanted, restart_unresponsive, collect,
  apply_snapshot,
}
use stdiod.Supervisor.Drain.{
  put_child, send_error, report_exit, deliver, route, handle, drain_incoming,
}

abbrev pub SamePath : Supervisor → Supervisor → Type 0
SamePath before after = after.env_store.path ≡ before.env_store.path

drop-SamePath : (id : String) (sup : Supervisor) → SamePath sup (stop_child id sup)
unfolding stop_child
drop-SamePath id sup = elim (Option-cases (lookup id sup.children)) [
  | inl e ↦ rw (e, stop_child) refl
  | inr (c, e) ↦ rw (e, stop_child) refl
]

remove-path :
    (fails : ℕ → Option EnvStore.WriteFault) (id : String) (store : EnvStore) (disk : Disk)
    → (EnvStore.remove fails id store disk).0.path ≡ store.path
unfolding EnvStore.remove
remove-path fails id store disk = elim (Option-cases (lookup id store.entries)) [
  | inl e ↦ rw (e, EnvStore.remove) refl
  | inr (spec, e) ↦ rw (e, EnvStore.remove, flush-store) refl
]

set-path :
    (fails : ℕ → Option EnvStore.WriteFault) (id : String) (spec : EnvStore.ServerSpec)
    (store : EnvStore) (disk : Disk)
    → (EnvStore.set fails id spec store disk).0.path ≡ store.path
unfolding EnvStore.set
set-path fails id spec store disk = rw flush-store refl

drop_unwanted-SamePath :
    (wanted : List (String × DesiredServer)) (ids : List String) (sup : Supervisor)
    → SamePath sup (drop_unwanted wanted ids sup)
unfolding drop_unwanted
drop_unwanted-SamePath wanted [] sup = refl
drop_unwanted-SamePath wanted (id ∷ ids) sup =
    drop_unwanted-SamePath wanted ids _
    ∙ if_rule (SamePath sup) (is_wanted wanted id) sup (stop_child id sup) (λ _. refl)
        (λ _. drop-SamePath id sup)

send_error-SamePath : (e : Option _) (sup : Supervisor) → SamePath sup (send_error e sup)
unfolding send_error send_frame
send_error-SamePath none sup = refl
send_error-SamePath (some e) sup = refl

module _ (host : Host) where
  try_spawn-SamePath : (d : DesiredServer) (sup : Supervisor) → SamePath sup (try_spawn host d sup)
  unfolding try_spawn finish_spawn send_frame
  try_spawn-SamePath d sup = finished d _ _ (host.spawn sup.attempts (enrich sup.env_store d))
    where
      finished :
          (raw enriched : DesiredServer) (sensitive : List String) (r : Result String (Option ℕ))
          → SamePath sup (finish_spawn raw enriched sensitive r sup)
      finished raw enriched sensitive (ok pid) = refl
      finished raw enriched sensitive (err e) = refl

  restart-SamePath :
      (d : DesiredServer) (id : String) (sup : Supervisor)
      → SamePath sup (try_spawn host d (stop_child id sup))
  restart-SamePath d id sup = try_spawn-SamePath d _ ∙ drop-SamePath id sup

  ensure-SamePath :
      (id : String) (d : DesiredServer) (sup : Supervisor) → SamePath sup (ensure host id d sup)
  unfolding ensure
  ensure-SamePath id d sup = elim (Option-cases (lookup id sup.children)) [
    | inl e ↦ rw (e, ensure) (try_spawn-SamePath d sup)
    | inr (c, e) ↦
        rw (e, ensure)
          (if_rule (SamePath sup) (is_unchanged c d) sup _ (λ _. refl)
            (λ _. restart-SamePath d id sup))
  ]

  ensure_all-SamePath :
      (wanted : List (String × DesiredServer)) (sup : Supervisor)
      → SamePath sup (ensure_all host wanted sup)
  unfolding ensure_all
  ensure_all-SamePath [] sup = refl
  ensure_all-SamePath ((id, d) ∷ more) sup =
      ensure_all-SamePath more _
      ∙ if_rule (SamePath sup) d.enabled (ensure host id d sup) sup (λ _. ensure-SamePath id d sup)
          (λ _. refl)

  apply_all-SamePath :
      (ds : List DesiredServer) (sup : Supervisor) → SamePath sup (apply_all host ds sup)
  unfolding apply_all apply_desired
  apply_all-SamePath [] sup = refl
  apply_all-SamePath (d ∷ ds) sup =
      apply_all-SamePath ds _
      ∙ if_rule (SamePath sup) d.enabled (ensure host d.server_id d sup)
          (stop_child d.server_id sup) (λ _. ensure-SamePath d.server_id d sup)
          (λ _. drop-SamePath d.server_id sup)

  forget_all-SamePath :
      (ids : List String) (sup : Supervisor) → SamePath sup (forget_all host ids sup)
  unfolding forget_all forget
  forget_all-SamePath [] sup = refl
  forget_all-SamePath (id ∷ ids) sup =
      forget_all-SamePath ids _ ∙ remove-path host.write_fails id _ _ ∙ drop-SamePath id sup

  respawn-SamePath : (id : String) (sup : Supervisor) → SamePath sup (respawn host id sup)
  unfolding respawn publish_state
  respawn-SamePath id sup = elim (Option-cases (lookup id sup.children)) [
    | inl e ↦ rw (e, respawn) refl
    | inr (c, e) ↦ rw (e, respawn) (restart-SamePath c.desired_raw id sup)
  ]

  stored-SamePath :
      (id : String) (w : Written) (sup : Supervisor)
      → w.0.path ≡ sup.env_store.path
      → SamePath sup (stored host id w sup)
  unfolding stored
  stored-SamePath id (store, disk, ok _) sup e = respawn-SamePath id _ ∙ e
  stored-SamePath id (store, disk, err _) sup e = e

  deliver-SamePath :
      (id : String) (child : ChildServer) (t : TrySend) (sup : Supervisor)
      → SamePath sup (deliver host id child t sup)
  unfolding deliver put_child report_exit restart_unresponsive send_frame
  deliver-SamePath id child (queued c) sup = refl
  deliver-SamePath id child closed sup = send_error-SamePath (take_child_error child).1 _
  deliver-SamePath id child full sup = respawn-SamePath id _

  route-SamePath :
      (id : String) (frame : Json) (sup : Supervisor) → SamePath sup (route host id frame sup)
  unfolding route report_exit put_child
  route-SamePath id frame sup = elim (Option-cases (lookup id sup.children)) [
    | inl e ↦ rw (e, route) refl
    | inr (c, e) ↦
        rw (e, route)
          (if_rule (SamePath sup) (has_exited c) (report_exit id c sup) _
            (λ _. send_error-SamePath (take_child_error c).1 _)
            (λ _. deliver-SamePath id c (try_send frame c) sup))
  ]

  handle-SamePath : (f : TunnelFrame) (sup : Supervisor) → SamePath sup (handle host f sup).0
  unfolding handle apply_snapshot apply_delta apply_env_update apply_spec_update publish_state
      send_frame EnvStore.merge_env EnvStore.merge_template_values
  handle-SamePath (server_hello h) sup =
      ensure_all-SamePath (host.order (collect h.servers)) _
      ∙ drop_unwanted-SamePath (collect h.servers) (keys sup.children) sup
  handle-SamePath (desired_state_update u) sup =
      forget_all-SamePath u.removed _ ∙ apply_all-SamePath (u.added ++ u.updated) sup
  handle-SamePath (mcp_frame m) sup = route-SamePath m.server_id m.frame sup
  handle-SamePath (tunnel_error e) sup = refl
  handle-SamePath ping sup = refl
  handle-SamePath (server_env_update u) sup =
      stored-SamePath u.server_id _ sup (set-path host.write_fails u.server_id _ _ _)
  handle-SamePath (server_spec_update u) sup =
      stored-SamePath u.server_id _ sup (set-path host.write_fails u.server_id _ _ _)
  handle-SamePath (server_spawn_result r) sup = refl
  handle-SamePath (client_hello c) sup = refl
  handle-SamePath pong sup = refl

  -- No frame moves the store to another file.
  pub drain_incoming-SamePath :
      (frames : List (ℕ × TunnelFrame)) (last_pong : ℕ) (sup : Supervisor)
      → SamePath sup (drain_incoming host frames last_pong sup).0
  unfolding drain_incoming
  drain_incoming-SamePath [] last_pong sup = refl
  drain_incoming-SamePath ((now, f) ∷ frames) last_pong sup =
      elim (Option-cases (handle host f sup).1) [
        | inl e ↦
            rw (e, drain_incoming)
              (drain_incoming-SamePath frames now (handle host f sup).0 ∙ handle-SamePath f sup)
        | inr (m, e) ↦ rw (e, drain_incoming) (handle-SamePath f sup)
      ]
