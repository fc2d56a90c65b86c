-- ===== src/Supervisor/Current.antt =====
-- Every running child was started from its raw spec and the values that the store holds now.
use stdiod.Base.{
  ℕ, String, ◌≡◌, ◌≢◌, sym, ap, ◌∙◌, refl, Option, none, List, [], ◌∷◌, arith, eq_iff, eq_refl, inl,
  inr, ok, err, Bool-cases, Option-cases, if◌then◌else◌, if_rule,
}
use stdiod.Base.Assoc.{lookup, Distinct, lookup-remove}
use stdiod.Protocol.{DesiredServer, DesiredStateUpdate}
use stdiod.EnvStore
use stdiod.EnvStore.{EnvStore, Written, WriteFault, Disk, StoreError}
use stdiod.EnvStore.Merge.{flush-store}
use stdiod.Proc.{ChildServer}
use stdiod.Supervisor.{Host, Supervisor, enrich, try_spawn, stop_child, publish_state, is_unchanged}
use stdiod.Supervisor.Commands.{
  ensure, ensure_all, apply_desired, apply_all, forget, forget_all, apply_delta, respawn, stored,
  drop_unwanted, is_wanted,
}
use stdiod.Supervisor.Touch.{
  Children, IsFresh, Children-try_spawn, Distinct-try_spawn, Children-stop_child,
  Distinct-stop_child, store-stop_child, try_spawn-IsAside, lookup-stop_child,
}

-- The child under key `k` runs what the store `store` makes of its raw spec.
pub record IsLaunched (store : EnvStore) (k : String) (c : ChildServer) : Type 0 where
  pub own_id : c.server_id ≡ k
  pub raw_id : c.desired_raw.server_id ≡ k
  pub up_to_date : c.launched ≡ enrich store c.desired_raw

pub record IsCurrent (sup : Supervisor) : Type 0 where
  pub distinct : Distinct sup.children
  pub launched : Children (IsLaunched sup.env_store) sup

fresh-IsLaunched :
    (store : EnvStore) (raw : DesiredServer) (c : ChildServer)
    → IsFresh store raw c
    → IsLaunched store raw.server_id c
fresh-IsLaunched store raw c f = record {
  own_id = f.id;
  raw_id = ap (λ d. d.server_id) f.raw_kept;
  up_to_date = f.from_store ∙ ap (enrich store) (sym f.raw_kept);
}

pub stop_child-IsCurrent :
    (id : String) (sup : Supervisor) → IsCurrent sup → IsCurrent (stop_child id sup)
stop_child-IsCurrent id sup v = record {
  distinct = Distinct-stop_child id sup v.distinct;
  launched = rw (store-stop_child id sup) (Children-stop_child id sup _ v.launched);
}

pub publish_state-IsCurrent : (sup : Supervisor) → IsCurrent sup → IsCurrent (publish_state sup)
unfolding publish_state
publish_state-IsCurrent sup v = record { distinct = v.distinct; launched = v.launched }

module _ (host : Host) where
  pub try_spawn-IsCurrent :
      (raw : DesiredServer) (sup : Supervisor) → IsCurrent sup → IsCurrent (try_spawn host raw sup)
  try_spawn-IsCurrent raw sup v = record {
    distinct = Distinct-try_spawn host raw sup v.distinct;
    launched = rw (try_spawn-IsAside host raw sup).same_store (
        Children-try_spawn host raw sup (IsLaunched sup.env_store)
          (fresh-IsLaunched sup.env_store raw) v.launched);
  }

  pub ensure-IsCurrent :
      (id : String) (d : DesiredServer) (sup : Supervisor)
      → IsCurrent sup
      → IsCurrent (ensure host id d sup)
  unfolding ensure
  ensure-IsCurrent id d sup v = elim (Option-cases (lookup id sup.children)) [
    | inl e ↦ rw (e, ensure) (try_spawn-IsCurrent d sup v)
    | inr (c, e) ↦ elim (Bool-cases (is_unchanged c d)) [
      | inl same ↦ rw (e, ensure, same) v
      | inr changed ↦
          rw (e, ensure, changed) (try_spawn-IsCurrent d _ (stop_child-IsCurrent id sup v))
    ]
  ]

  pub ensure_all-IsCurrent :
      (m : List (String × DesiredServer)) (sup : Supervisor)
      → IsCurrent sup
      → IsCurrent (ensure_all host m sup)
  unfolding ensure_all
  ensure_all-IsCurrent [] sup v = v
  ensure_all-IsCurrent ((id, d) ∷ m) sup v =
      ensure_all-IsCurrent m (if d.enabled then ensure host id d sup else sup)
        (if_rule IsCurrent d.enabled _ _ (λ _. ensure-IsCurrent id d sup v) (λ _. v))

  pub apply_all-IsCurrent :
      (ds : List DesiredServer) (sup : Supervisor)
      → IsCurrent sup
      → IsCurrent (apply_all host ds sup)
  unfolding apply_all apply_desired
  apply_all-IsCurrent [] sup v = v
  apply_all-IsCurrent (d ∷ ds) sup v = apply_all-IsCurrent ds (apply_desired host d sup) (
      if_rule IsCurrent d.enabled _ _ (λ _. ensure-IsCurrent d.server_id d sup v)
        (λ _. stop_child-IsCurrent d.server_id sup v))

  pub respawn-IsCurrent :
      (id : String) (sup : Supervisor) → IsCurrent sup → IsCurrent (respawn host id sup)
  unfolding respawn
  respawn-IsCurrent id sup v = elim (Option-cases (lookup id sup.children)) [
    | inl e ↦ rw (e, respawn) v
    | inr (c, e) ↦
        rw (e, respawn)
          (publish_state-IsCurrent _
            (try_spawn-IsCurrent c.desired_raw _ (stop_child-IsCurrent id sup v)))
  ]

pub drop_unwanted-IsCurrent :
    (wanted : List (String × DesiredServer)) (ids : List String) (sup : Supervisor)
    → IsCurrent sup
    → IsCurrent (drop_unwanted wanted ids sup)
unfolding drop_unwanted
drop_unwanted-IsCurrent wanted [] sup v = v
drop_unwanted-IsCurrent wanted (id ∷ ids) sup v = elim (Bool-cases (is_wanted wanted id)) [
  | inl w ↦ rw w (drop_unwanted-IsCurrent wanted ids sup v)
  | inr w ↦ rw w (drop_unwanted-IsCurrent wanted ids _ (stop_child-IsCurrent id sup v))
]

-- Enrichment reads only the values under the spec's own id.
enrich-other :
    (before after : EnvStore) (d : DesiredServer)
    → EnvStore.get d.server_id after ≡ EnvStore.get d.server_id before
    → enrich after d ≡ enrich before d
unfolding enrich
enrich-other before after d e = rw e

-- A store that differs only under `id` keeps every child but the one under `id` up to date.
restore-IsCurrent :
    (id : String) (store : EnvStore) (disk : Disk) (sup : Supervisor)
    → ((j : String) → id ≢ j → EnvStore.get j store ≡ EnvStore.get j sup.env_store)
    → lookup id sup.children ≡ none
    → IsCurrent sup
    → IsCurrent (record sup { env_store = store; disk = disk })
restore-IsCurrent id store disk sup other gone v = record {
  distinct = v.distinct;
  launched = λ k c found.
      let l : IsLaunched sup.env_store k c = v.launched k c found in
      let ne : id ≢ c.desired_raw.server_id = λ p. cc l.raw_id in
      record {
        own_id = l.own_id;
        raw_id = l.raw_id;
        up_to_date =
            l.up_to_date ∙ sym (enrich-other sup.env_store store c.desired_raw (other _ ne));
      };
}

stop_child-restore :
    (id : String) (store : EnvStore) (disk : Disk) (sup : Supervisor)
    → stop_child id (record sup { env_store = store; disk = disk })
      ≡ (let s : Supervisor = stop_child id sup in record s { env_store = store; disk = disk })
unfolding stop_child
stop_child-restore id store disk sup = elim (Option-cases (lookup id sup.children)) [
  | inl e ↦ rw (e, stop_child)
  | inr (c, e) ↦ rw (e, stop_child)
]

-- The same with the child under `id` stopped first.
stop_then_restore :
    (id : String) (store : EnvStore) (disk : Disk) (sup : Supervisor)
    → ((j : String) → id ≢ j → EnvStore.get j store ≡ EnvStore.get j sup.env_store)
    → IsCurrent sup
    → let s : Supervisor = stop_child id sup in
      IsCurrent (record s { env_store = store; disk = disk })
stop_then_restore id store disk sup other v =
    restore-IsCurrent id store disk (stop_child id sup)
      (λ j ne. other j ne ∙ ap (EnvStore.get j) (sym (store-stop_child id sup)))
      (ground (arith, lookup-stop_child id sup id, eq_refl id)) (stop_child-IsCurrent id sup v)

get-remove_other :
    (fails : ℕ → Option WriteFault) (id j : String) (store : EnvStore) (disk : Disk)
    → id ≢ j
    → EnvStore.get j (EnvStore.remove fails id store disk).0 ≡ EnvStore.get j store
unfolding EnvStore.get EnvStore.remove
get-remove_other fails id j store disk ne = elim (Option-cases (lookup id store.entries)) [
  | inl e ↦ rw (e, EnvStore.remove) refl
  | inr (spec, e) ↦
      rw (e, EnvStore.remove, flush-store)
        (ground (arith, lookup-remove id j store.entries, eq_iff id j))
]

module _ (host : Host) where
  -- Forgetting a server keeps the invariant also when the write fails.
  pub forget-IsCurrent :
      (id : String) (sup : Supervisor) → IsCurrent sup → IsCurrent (forget host id sup)
  unfolding forget
  forget-IsCurrent id sup v =
      restore-IsCurrent id _ _ (stop_child id sup)
        (λ j ne. get-remove_other host.write_fails id j _ _ ne)
        (ground (arith, lookup-stop_child id sup id, eq_refl id)) (stop_child-IsCurrent id sup v)

  pub forget_all-IsCurrent :
      (ids : List String) (sup : Supervisor) → IsCurrent sup → IsCurrent (forget_all host ids sup)
  unfolding forget_all
  forget_all-IsCurrent [] sup v = v
  forget_all-IsCurrent (id ∷ ids) sup v = forget_all-IsCurrent ids _ (forget-IsCurrent id sup v)

  pub apply_delta-IsCurrent :
      (delta : DesiredStateUpdate) (sup : Supervisor)
      → IsCurrent sup
      → IsCurrent (apply_delta host delta sup)
  unfolding apply_delta
  apply_delta-IsCurrent delta sup v =
      publish_state-IsCurrent _
        (forget_all-IsCurrent delta.removed _ (apply_all-IsCurrent host _ sup v))

  -- A respawn brings the one child up to date whose values changed.
  respawn_restored :
      (id : String) (store : EnvStore) (disk : Disk) (sup : Supervisor)
      → ((j : String) → id ≢ j → EnvStore.get j store ≡ EnvStore.get j sup.env_store)
      → IsCurrent sup
      → IsCurrent (respawn host id (record sup { env_store = store; disk = disk }))
  unfolding respawn
  respawn_restored id store disk sup other v = elim (Option-cases (lookup id sup.children)) [
    | inl e ↦ rw (e, respawn) (restore-IsCurrent id store disk sup other e v)
    | inr (c, e) ↦
        rw (e, respawn)
          (publish_state-IsCurrent _ (
            try_spawn-IsCurrent host c.desired_raw _ (
              rw (stop_child-restore id store disk sup)
                (stop_then_restore id store disk sup other v))))
  ]

  pub stored-IsCurrent :
      (id : String) (w : Written) (sup : Supervisor)
      → ((j : String) → id ≢ j → EnvStore.get j w.0 ≡ EnvStore.get j sup.env_store)
      → w.2 ≡ ok tt
      → IsCurrent sup
      → IsCurrent (stored host id w sup)
  unfolding stored
  stored-IsCurrent id (store, disk, ok _) sup other e v = respawn_restored id store disk sup other v
  stored-IsCurrent id (store, disk, err x) sup other e v = cc
