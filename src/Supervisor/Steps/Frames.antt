-- ===== src/Supervisor/Steps/Frames.antt =====
-- Every handler of a frame is a sequence of elementary steps.
use mathlib.Core.List.{foldl}
use stdiod.Base.{
  ℕ, String, ◌≡◌, refl, sym, ap, ◌∙◌, subst, Option, none, some, List, [], ◌∷◌, arith, eq_iff,
  eq_refl, inl, inr, ok, err, Option-cases, if◌then◌else◌, if_rule,
}
use stdiod.Base.Assoc.{lookup, insert, Distinct, insert-Distinct, lookup-insert_cases, keys}
use stdiod.Protocol.{
  DesiredServer, Json, TunnelFrame, TunnelError, client_hello, server_hello, desired_state_update,
  mcp_frame, tunnel_error, server_env_update, server_spec_update, server_spawn_result, ping, pong,
}
use stdiod.EnvStore.{Written}
use stdiod.Proc.{ChildServer, TrySend, queued, full, closed, has_exited, try_send, take_child_error}
use stdiod.Supervisor.{Host, Supervisor, send_frame, try_spawn, stop_child}
use stdiod.Supervisor.Commands.{
  ensure, ensure_all, apply_desired, apply_all, forget, forget_all, apply_delta, respawn, stored,
  apply_spec_update, apply_env_update, drop_unwanted, is_wanted, restart_unresponsive, collect,
  apply_snapshot,
}
use stdiod.Supervisor.Drain.{
  send_error, report_exit, deliver, unresponsive, route, handle, drain_incoming,
}
use stdiod.Supervisor.Touch.{SameLaunch?, try_send-SameLaunch?}
use stdiod.Supervisor.Steps.{
  stops, publishes, sends, touches, stores, Steps, done, more, IsKeyed, Steps-IsKeyed, Steps-trans,
  restart-Steps, ensure-Steps,
}

-- A map of desired servers under their own ids.
pub record IsWantedMap (m : List (String × DesiredServer)) : Type 0 where
  pub once : Distinct m
  pub own_ids : (k : String) (d : DesiredServer) → lookup k m ≡ some d → d.server_id ≡ k

insert-IsWantedMap :
    (d : DesiredServer) (m : List (String × DesiredServer))
    → IsWantedMap m
    → IsWantedMap (insert d.server_id d m)
insert-IsWantedMap d m w = record {
  once = insert-Distinct d.server_id d m w.once;
  own_ids = λ k c e. elim (lookup-insert_cases d.server_id k d c m e) [
    | inl (p, q) ↦ ap (λ x. x.server_id) (sym q) ∙ p
    | inr before ↦ w.own_ids k c before
  ];
}

collect_from :
    (ds : List DesiredServer) (m : List (String × DesiredServer))
    → IsWantedMap m
    → IsWantedMap (foldl (λ m d. insert d.server_id d m) m ds)
collect_from [] m w = w
collect_from (d ∷ ds) m w = collect_from ds (insert d.server_id d m) (insert-IsWantedMap d m w)

pub collect-IsWantedMap : (ds : List DesiredServer) → IsWantedMap (collect ds)
unfolding collect lookup
collect-IsWantedMap ds = collect_from ds [] (record { once = tt; own_ids = λ k d e. cc })

pub IsWantedMap-tail :
    (id : String) (d : DesiredServer) (m : List (String × DesiredServer))
    → IsWantedMap ((id, d) ∷ m)
    → (d.server_id ≡ id) × IsWantedMap m
unfolding lookup
IsWantedMap-tail id d m w = (
  w.own_ids id d (ground (arith, eq_refl id)),
  record {
    once = w.once.1;
    own_ids = λ k c e. w.own_ids k c (ground (arith, w.once.0, eq_iff id k));
  },
)

-- What the program relies on of a `HashMap`'s iteration: each entry comes once.
pub record IsOrder (order : List (String × DesiredServer) → List (String × DesiredServer))
    : Type 0 where
  pub same_entries :
      (m : List (String × DesiredServer)) (k : String)
      → Distinct m
      → lookup k (order m) ≡ lookup k m
  pub each_once : (m : List (String × DesiredServer)) → Distinct m → Distinct (order m)

pub order-IsWantedMap :
    (order : List (String × DesiredServer) → List (String × DesiredServer))
    (m : List (String × DesiredServer))
    → IsOrder order
    → IsWantedMap m
    → IsWantedMap (order m)
order-IsWantedMap order m o w = record {
  once = o.each_once m w.once;
  own_ids = λ k d e. w.own_ids k d (sym (o.same_entries m k w.once) ∙ e);
}

module _ (host : Host) where
  ensure_all-Steps :
      (m : List (String × DesiredServer)) (sup : Supervisor)
      → IsWantedMap m
      → Steps host sup (ensure_all host m sup)
  unfolding ensure_all
  ensure_all-Steps [] sup w = done
  ensure_all-Steps ((id, d) ∷ m) sup w =
      let (same, rest) = IsWantedMap-tail id d m w in
      Steps-trans host
        (if_rule (Steps host sup) d.enabled (ensure host id d sup) sup
          (λ _. ensure-Steps host id d sup same) (λ _. done))
        (ensure_all-Steps m (if d.enabled then ensure host id d sup else sup) rest)

  drop_unwanted-Steps :
      (wanted : List (String × DesiredServer)) (ids : List String) (sup : Supervisor)
      → Steps host sup (drop_unwanted wanted ids sup)
  unfolding drop_unwanted
  drop_unwanted-Steps wanted [] sup = done
  drop_unwanted-Steps wanted (id ∷ ids) sup =
      Steps-trans host
        (if_rule (Steps host sup) (is_wanted wanted id) sup (stop_child id sup) (λ _. done)
          (λ _. more done (stops id sup)))
        (drop_unwanted-Steps wanted ids (if is_wanted wanted id then sup else stop_child id sup))

  apply_snapshot-Steps :
      (desired : List DesiredServer) (sup : Supervisor)
      → IsOrder host.order
      → Steps host sup (apply_snapshot host desired sup)
  unfolding apply_snapshot
  apply_snapshot-Steps desired sup o =
      more
        (Steps-trans host (drop_unwanted-Steps (collect desired) (keys sup.children) sup)
          (ensure_all-Steps _ _ (order-IsWantedMap host.order _ o (collect-IsWantedMap desired))))
        (publishes _)

  apply_all-Steps :
      (ds : List DesiredServer) (sup : Supervisor) → Steps host sup (apply_all host ds sup)
  unfolding apply_all apply_desired
  apply_all-Steps [] sup = done
  apply_all-Steps (d ∷ ds) sup =
      Steps-trans host
        (if_rule (Steps host sup) d.enabled (ensure host d.server_id d sup)
          (stop_child d.server_id sup) (λ _. ensure-Steps host d.server_id d sup refl)
          (λ _. more done (stops d.server_id sup)))
        (apply_all-Steps ds (apply_desired host d sup))

  forget_all-Steps :
      (ids : List String) (sup : Supervisor) → Steps host sup (forget_all host ids sup)
  unfolding forget_all forget
  forget_all-Steps [] sup = done
  forget_all-Steps (id ∷ ids) sup =
      Steps-trans host (more (more done (stops id sup)) (stores _ _ _))
        (forget_all-Steps ids (forget host id sup))

  respawn-Steps :
      (id : String) (sup : Supervisor) → IsKeyed sup → Steps host sup (respawn host id sup)
  unfolding respawn
  respawn-Steps id sup v = elim (Option-cases (lookup id sup.children)) [
    | inl e ↦ rw (e, respawn) done
    | inr (c, e) ↦
        rw (e, respawn)
          (more (subst (restarted c) (v.raw_ids id c e) (restart-Steps host c.desired_raw sup))
            (publishes _))
  ]
    where
      restarted : ChildServer → String → Type 0
      restarted c k = Steps host sup (try_spawn host c.desired_raw (stop_child k sup))

  stored-Steps :
      (id : String) (w : Written) (sup : Supervisor)
      → IsKeyed sup
      → Steps host sup (stored host id w sup)
  unfolding stored
  stored-Steps id (store, disk, ok _) sup v =
      let first : Steps host sup (record sup { env_store = store; disk = disk }) =
        more done (stores store disk sup) in
      Steps-trans host first (respawn-Steps id _ (Steps-IsKeyed host first v))
  stored-Steps id (store, disk, err x) sup v = more done (stores store disk sup)

  send_error-Steps : (e : Option TunnelError) (sup : Supervisor) → Steps host sup (send_error e sup)
  unfolding send_error
  send_error-Steps none sup = done
  send_error-Steps (some e) sup = more done (sends _ sup)

  report_exit-Steps :
      (k : String) (c : ChildServer) (sup : Supervisor)
      → lookup k sup.children ≡ some c
      → Steps host sup (report_exit k c sup)
  unfolding report_exit take_child_error
  report_exit-Steps k c sup found =
      Steps-trans host
        (more done (
          touches k c _ sup found
            (record { id_kept = refl; raw_kept = refl; launched_kept = refl; pid_kept = refl })))
        (send_error-Steps _ _)

  deliver-Steps :
      (k : String) (c : ChildServer) (t : TrySend) (sup : Supervisor)
      → SameLaunch? c t
      → lookup k sup.children ≡ some c
      → IsKeyed sup
      → Steps host sup (deliver host k c t sup)
  unfolding deliver restart_unresponsive
  deliver-Steps k c (queued c') sup s found v = more done (touches k c c' sup found s)
  deliver-Steps k c full sup s found v =
      let first : Steps host sup (send_frame (tunnel_error (unresponsive k)) sup) =
        more done (sends _ sup) in
      Steps-trans host first (respawn-Steps k _ (Steps-IsKeyed host first v))
  deliver-Steps k c closed sup s found v = report_exit-Steps k c sup found

  route-Steps :
      (k : String) (frame : Json) (sup : Supervisor)
      → IsKeyed sup
      → Steps host sup (route host k frame sup)
  unfolding route
  route-Steps k frame sup v = elim (Option-cases (lookup k sup.children)) [
    | inl e ↦ rw (e, route) done
    | inr (c, e) ↦
        rw (e, route)
          (if_rule (Steps host sup) (has_exited c) (report_exit k c sup)
            (deliver host k c (try_send frame c) sup) (λ _. report_exit-Steps k c sup e)
            (λ _. deliver-Steps k c _ sup (try_send-SameLaunch? frame c) e v))
  ]

  -- Each frame of the backend is handled by elementary steps, if an iteration over the wanted
  -- servers meets each one once.
  pub handle-Steps :
      (f : TunnelFrame) (sup : Supervisor)
      → IsOrder host.order
      → IsKeyed sup
      → Steps host sup (handle host f sup).0
  unfolding handle apply_delta apply_env_update apply_spec_update
  handle-Steps (server_hello h) sup o v = apply_snapshot-Steps h.servers sup o
  handle-Steps (desired_state_update u) sup o v =
      more (Steps-trans host (apply_all-Steps _ sup) (forget_all-Steps u.removed _)) (publishes _)
  handle-Steps (mcp_frame m) sup o v = route-Steps m.server_id m.frame sup v
  handle-Steps (tunnel_error e) sup o v = done
  handle-Steps ping sup o v = more done (sends _ sup)
  handle-Steps (server_env_update u) sup o v = stored-Steps u.server_id _ sup v
  handle-Steps (server_spec_update u) sup o v = stored-Steps u.server_id _ sup v
  handle-Steps (server_spawn_result r) sup o v = done
  handle-Steps (client_hello c) sup o v = done
  handle-Steps pong sup o v = done

  pub drain_incoming-Steps :
      (frames : List (ℕ × TunnelFrame)) (last_pong : ℕ) (sup : Supervisor)
      → IsOrder host.order
      → IsKeyed sup
      → Steps host sup (drain_incoming host frames last_pong sup).0
  unfolding drain_incoming
  drain_incoming-Steps [] last_pong sup o v = done
  drain_incoming-Steps ((now, f) ∷ frames) last_pong sup o v =
      let first = handle-Steps f sup o v in
      elim (Option-cases (handle host f sup).1) [
        | inl e ↦
            rw (e, drain_incoming)
              (Steps-trans host first (
                drain_incoming-Steps frames now (handle host f sup).0 o
                  (Steps-IsKeyed host first v)))
        | inr (m, e) ↦ rw (e, drain_incoming) first
      ]
