-- ===== src/Supervisor/Steps.antt =====
-- The frames of the backend as sequences of elementary steps: a child is only ever started under
-- a free id, and only ever leaves the map by being stopped.
pub mod Frames
use mathlib.Core.Path.{subst₂}
use stdiod.Base.{
  ℕ, String, ◌≡◌, ◌≢◌, refl, sym, ap, ◌∙◌, subst, true, false, Bool, Option, none, some, List, [],
  ◌∷◌, ◌++◌, arith, ◌==◌, eq_iff, eq_refl, inl, inr, ok, err, Bool-cases, Option-cases,
  if◌then◌else◌, if_rule,
}
use stdiod.Base.Assoc.{lookup, Distinct, insert-Distinct, lookup-insert_cases, keys}
use stdiod.Protocol.{
  DesiredServer, Json, TunnelFrame, client_hello, server_hello, desired_state_update, mcp_frame,
  tunnel_error, server_env_update, server_spec_update, server_spawn_result, ping, pong,
}
use stdiod.EnvStore.{EnvStore, Disk, Written}
use stdiod.Proc.{ChildServer, TrySend, queued, full, closed, has_exited, try_send, take_child_error}
use stdiod.Supervisor.{
  Host, Supervisor, send_frame, try_spawn, stop_child, publish_state, is_unchanged,
}
use stdiod.Supervisor.Commands.{
  ensure, ensure_all, apply_desired, apply_all, forget, forget_all, apply_delta, respawn, stored,
  apply_spec_update, apply_env_update, drop_unwanted, is_wanted, restart_unresponsive, collect,
  apply_snapshot,
}
use stdiod.Supervisor.Drain.{
  put_child, send_error, report_exit, deliver, route, handle, drain_incoming,
}
use stdiod.Supervisor.Touch.{
  Children, IsFresh, Children-try_spawn, Distinct-try_spawn, Children-stop_child,
  Distinct-stop_child, lookup-stop_child, IsSameLaunch, SameLaunch?, try_send-SameLaunch?,
}

pub data Step (host : Host) : Supervisor → Supervisor → Type 0 where
  stops : (id : String) (sup : Supervisor) → Step host sup (stop_child id sup)
  starts :
      (raw : DesiredServer) (sup : Supervisor)
      → lookup raw.server_id sup.children ≡ none
      → Step host sup (try_spawn host raw sup)
  publishes : (sup : Supervisor) → Step host sup (publish_state sup)
  sends : (f : TunnelFrame) (sup : Supervisor) → Step host sup (send_frame f sup)
  touches :
      (k : String) (c c' : ChildServer) (sup : Supervisor)
      → lookup k sup.children ≡ some c
      → IsSameLaunch c c'
      → Step host sup (put_child k c' sup)
  stores :
      (store : EnvStore) (disk : Disk) (sup : Supervisor)
      → Step host sup (record sup { env_store = store; disk = disk })

pub data Steps (host : Host) (sup : Supervisor) : Supervisor → Type 0 where
  done : Steps host sup sup
  more : {mid after : Supervisor} → Steps host sup mid → Step host mid after → Steps host sup after

-- Each child stands once, under the id of its raw spec.
pub record IsKeyed (sup : Supervisor) : Type 0 where
  pub distinct : Distinct sup.children
  pub raw_ids : Children (λ k c. c.desired_raw.server_id ≡ k) sup

module _ (host : Host) where
  pub Step-IsKeyed : {a b : Supervisor} → Step host a b → IsKeyed a → IsKeyed b
  unfolding publish_state send_frame put_child
  Step-IsKeyed (stops id sup) v = record {
    distinct = Distinct-stop_child id sup v.distinct;
    raw_ids = Children-stop_child id sup _ v.raw_ids;
  }
  Step-IsKeyed (starts raw sup free) v = record {
    distinct = Distinct-try_spawn host raw sup v.distinct;
    raw_ids =
        Children-try_spawn host raw sup (λ k c. c.desired_raw.server_id ≡ k)
          (λ c f. ap (λ d. d.server_id) f.raw_kept) v.raw_ids;
  }
  Step-IsKeyed (publishes sup) v = record { distinct = v.distinct; raw_ids = v.raw_ids }
  Step-IsKeyed (sends f sup) v = record { distinct = v.distinct; raw_ids = v.raw_ids }
  Step-IsKeyed (touches k c c' sup found s) v = record {
    distinct = insert-Distinct k c' sup.children v.distinct;
    raw_ids = λ j d e. elim (lookup-insert_cases k j c' d sup.children e) [
      | inl (p, q) ↦
          subst₂ (λ i x. x.desired_raw.server_id ≡ i) p q
            (ap (λ r. r.server_id) s.raw_kept ∙ v.raw_ids k c found)
      | inr before ↦ v.raw_ids j d before
    ];
  }
  Step-IsKeyed (stores store disk sup) v = record { distinct = v.distinct; raw_ids = v.raw_ids }

  pub Steps-IsKeyed : {a b : Supervisor} → Steps host a b → IsKeyed a → IsKeyed b
  Steps-IsKeyed done v = v
  Steps-IsKeyed (more r s) v = Step-IsKeyed s (Steps-IsKeyed r v)

  pub Steps-trans : {a b c : Supervisor} → Steps host a b → Steps host b c → Steps host a c
  Steps-trans r done = r
  Steps-trans r (more t s) = more (Steps-trans r t) s

  -- Stop what runs under the spec's id and start the spec.
  restart-Steps :
      (d : DesiredServer) (sup : Supervisor)
      → Steps host sup (try_spawn host d (stop_child d.server_id sup))
  restart-Steps d sup = more (more done (stops d.server_id sup)) (
      starts d _
        (ground (arith, lookup-stop_child d.server_id sup d.server_id, eq_refl d.server_id)))

  pub ensure-Steps :
      (id : String) (d : DesiredServer) (sup : Supervisor)
      → d.server_id ≡ id
      → Steps host sup (ensure host id d sup)
  unfolding ensure
  ensure-Steps id d sup same = elim (Option-cases (lookup id sup.children)) [
    | inl e ↦ rw (e, ensure) (more done (starts d sup (rw same e)))
    | inr (c, e) ↦
        rw (e, ensure)
          (if_rule (Steps host sup) (is_unchanged c d) sup (try_spawn host d (stop_child id sup))
            (λ _. done) (λ _. rw (← same) (restart-Steps d sup)))
  ]
