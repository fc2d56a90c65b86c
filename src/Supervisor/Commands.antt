-- ===== src/Supervisor/Commands.antt =====
-- The operations of `Supervisor` that frames from the backend trigger.
use mathlib.Core.List.{foldl}
use stdiod.Base.{String, Bool, false, none, some, List, [], ◌∷◌, ◌++◌, if◌then◌else◌, ok, err}
use stdiod.Base.Assoc.{lookup, insert, keys}
use stdiod.Protocol.{EnvMap, DesiredServer, DesiredStateUpdate, ServerSpecUpdate}
use stdiod.EnvStore
use stdiod.EnvStore.{Written}
use stdiod.Supervisor.{Host, Supervisor, is_unchanged, stop_child, try_spawn, publish_state}

-- `desired.into_iter().map(|d| (d.server_id.clone(), d)).collect()`: the last of an id wins.
unfoldable pub collect : List DesiredServer → List (String × DesiredServer)
collect = foldl (λ m d. insert d.server_id d m) []

unfoldable pub is_wanted : List (String × DesiredServer) → String → Bool
is_wanted wanted id = elim (lookup id wanted) [ none ↦ false | some d ↦ d.enabled ]

-- The ids of `to_drop`, each removed and shut down.
unfoldable pub drop_unwanted : List (String × DesiredServer) → List String → Supervisor → Supervisor
drop_unwanted wanted [] sup = sup
drop_unwanted wanted (id ∷ ids) sup =
    drop_unwanted wanted ids (if is_wanted wanted id then sup else stop_child id sup)

module _ (host : Host) where
  -- Start `desired` in place of what runs under its id, unless that is the same and healthy.
  unfoldable pub ensure : String → DesiredServer → Supervisor → Supervisor
  ensure id desired sup = elim (lookup id sup.children) [
    | none ↦ try_spawn host desired sup
    | some existing ↦
        if is_unchanged existing desired then sup else try_spawn host desired (stop_child id sup)
  ]

  unfoldable pub ensure_all : List (String × DesiredServer) → Supervisor → Supervisor
  ensure_all [] sup = sup
  ensure_all ((id, d) ∷ more) sup = ensure_all more (if d.enabled then ensure id d sup else sup)

  unfoldable pub apply_snapshot : List DesiredServer → Supervisor → Supervisor
  apply_snapshot desired sup =
      let wanted = collect desired in
      publish_state (ensure_all (host.order wanted) (drop_unwanted wanted (keys sup.children) sup))

  -- One of `delta.added` or `delta.updated`.
  unfoldable pub apply_desired : DesiredServer → Supervisor → Supervisor
  apply_desired d sup = if d.enabled then ensure d.server_id d sup else stop_child d.server_id sup

  unfoldable pub apply_all : List DesiredServer → Supervisor → Supervisor
  apply_all [] sup = sup
  apply_all (d ∷ ds) sup = apply_all ds (apply_desired d sup)

  -- The store's new state is kept whether or not the write succeeds: the error is only logged.
  unfoldable pub forget : String → Supervisor → Supervisor
  forget id sup =
      let s : Supervisor = stop_child id sup in
      let r : Written = EnvStore.remove host.write_fails id s.env_store s.disk in
      record s { env_store = r.0; disk = r.1 }

  unfoldable pub forget_all : List String → Supervisor → Supervisor
  forget_all [] sup = sup
  forget_all (id ∷ ids) sup = forget_all ids (forget id sup)

  unfoldable pub apply_delta : DesiredStateUpdate → Supervisor → Supervisor
  apply_delta delta sup =
      publish_state (forget_all delta.removed (apply_all (delta.added ++ delta.updated) sup))

  -- Remove the child, shut it down and start its raw spec again; nothing for an unknown id.
  unfoldable pub respawn : String → Supervisor → Supervisor
  respawn server_id sup = elim (lookup server_id sup.children) [
    | none ↦ sup
    | some existing ↦ publish_state (try_spawn host existing.desired_raw (stop_child server_id sup))
  ]

  unfoldable pub restart_unresponsive : String → Supervisor → Supervisor
  restart_unresponsive = respawn

  -- A failed write leaves the merged values in memory and returns before the respawn.
  unfoldable pub stored : String → Written → Supervisor → Supervisor
  stored server_id (store, disk, ok _) sup =
      respawn server_id (record sup { env_store = store; disk = disk })
  stored server_id (store, disk, err _) sup = record sup { env_store = store; disk = disk }

  unfoldable pub apply_spec_update : ServerSpecUpdate → Supervisor → Supervisor
  apply_spec_update update sup =
      stored update.server_id
        (EnvStore.merge_template_values host.write_fails update.server_id update.env
          update.templated_args sup.env_store sup.disk)
        sup

  unfoldable pub apply_env_update : String → EnvMap → Supervisor → Supervisor
  apply_env_update server_id env sup =
      stored server_id (EnvStore.merge_env host.write_fails server_id env sup.env_store sup.disk)
        sup
