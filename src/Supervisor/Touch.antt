-- ===== src/Supervisor/Touch.antt =====
-- What the building blocks of the supervisor change: one key of the child map each, and nothing
-- of the store.
use mathlib.Core.Path.{subst₂}
use stdiod.Base.{
  ℕ, String, ◌≡◌, ◌≢◌, refl, ap, ◌∙◌, false, Option, none, some, List, [], ◌∷◌, arith, ◌==◌, eq_iff,
  inl, inr, Result, ok, err, Option-cases, if◌then◌else◌,
}
use stdiod.Base.Assoc.{
  lookup, insert, lookup-insert_cases, Distinct, lookup-insert, lookup-remove, insert-Distinct,
  remove-Distinct,
}
use stdiod.Protocol.{DesiredServer}
use stdiod.EnvStore
use stdiod.EnvStore.{EnvStore}
use stdiod.Proc.Diagnostics
use stdiod.Protocol.{Json}
use stdiod.Base.{length, ltb, if_rule, ◌++◌}
use stdiod.Proc.{TrySend, queued, full, closed, try_send, outbound_capacity}
use stdiod.Proc.{ChildServer, has_exited, started}
use stdiod.Supervisor.{
  Host, Supervisor, enrich_with, enrich, finish_spawn, try_spawn, stop_child, send_frame,
}

-- What holds of every child under its key.
abbrev pub Children : (String → ChildServer → Type 0) → Supervisor → Type 0
Children P sup = (k : String) (c : ChildServer) → lookup k sup.children ≡ some c → P k c

-- A child that was just started for this raw spec, from the values in this store.
pub record IsFresh (store : EnvStore) (raw : DesiredServer) (c : ChildServer) : Type 0 where
  pub id : c.server_id ≡ raw.server_id
  pub raw_kept : c.desired_raw ≡ raw
  pub from_store : c.launched ≡ enrich store raw
  pub alive : has_exited c ≡ false
  pub unreported : c.diagnostics.reported ≡ false
  pub idle : c.outbound ≡ []

enrich_with-server_id :
    (spec : Option EnvStore.ServerSpec) (raw : DesiredServer)
    → (enrich_with spec raw).server_id ≡ raw.server_id
unfolding enrich_with
enrich_with-server_id none raw = refl
enrich_with-server_id (some spec) raw = refl

pub enrich-server_id :
    (store : EnvStore) (raw : DesiredServer) → (enrich store raw).server_id ≡ raw.server_id
unfolding enrich
enrich-server_id store raw = enrich_with-server_id _ raw

-- A spawn attempt either starts a fresh child under the spec's id, or was refused by the host and
-- leaves the children alone.
pub data Spawned (host : Host) (raw : DesiredServer) (sup after : Supervisor) : Type 0 where
  success :
      (c : ChildServer)
      → IsFresh sup.env_store raw c
      → after.children ≡ insert raw.server_id c sup.children
      → after.spawned ≡ c ∷ sup.spawned
      → Spawned host raw sup after
  failure :
      (m : String)
      → host.spawn sup.attempts (enrich sup.env_store raw) ≡ err m
      → after.children ≡ sup.children
      → after.spawned ≡ sup.spawned
      → Spawned host raw sup after

finish_spawn-Spawned :
    (host : Host) (raw enriched : DesiredServer) (sensitive : List String)
    (r : Result String (Option ℕ)) (sup : Supervisor)
    → enriched ≡ enrich sup.env_store raw
    → host.spawn sup.attempts (enrich sup.env_store raw) ≡ r
    → Spawned host raw sup (finish_spawn raw enriched sensitive r sup)
unfolding finish_spawn send_frame started Diagnostics.new
finish_spawn-Spawned host raw enriched sensitive (ok pid) sup e h =
    success _
      (record {
        id = ap (λ d. d.server_id) e ∙ enrich-server_id sup.env_store raw;
        raw_kept = refl;
        from_store = e;
        alive = refl;
        unreported = refl;
        idle = refl;
      })
      refl refl
finish_spawn-Spawned host raw enriched sensitive (err m) sup e h = failure m h refl refl

-- The store and what was stopped are left alone.
pub record IsAside (sup after : Supervisor) : Type 0 where
  pub same_store : after.env_store ≡ sup.env_store
  pub same_disk : after.disk ≡ sup.disk
  pub same_stopped : after.stopped ≡ sup.stopped

finish_spawn-IsAside :
    (raw enriched : DesiredServer) (sensitive : List String) (r : Result String (Option ℕ))
    (sup : Supervisor)
    → IsAside sup (finish_spawn raw enriched sensitive r sup)
unfolding finish_spawn send_frame
finish_spawn-IsAside raw enriched sensitive (ok pid) sup = record {
  same_store = refl;
  same_disk = refl;
  same_stopped = refl;
}
finish_spawn-IsAside raw enriched sensitive (err m) sup = record {
  same_store = refl;
  same_disk = refl;
  same_stopped = refl;
}

module _ (host : Host) (raw : DesiredServer) (sup : Supervisor) where
  pub try_spawn-Spawned : Spawned host raw sup (try_spawn host raw sup)
  unfolding try_spawn
  try_spawn-Spawned = finish_spawn-Spawned host raw _ _ _ sup refl refl

  pub try_spawn-IsAside : IsAside sup (try_spawn host raw sup)
  unfolding try_spawn
  try_spawn-IsAside = finish_spawn-IsAside raw _ _ _ sup

  -- Only the key of the spec can change.
  pub lookup-try_spawn :
      (k : String)
      → raw.server_id ≢ k
      → lookup k (try_spawn host raw sup).children ≡ lookup k sup.children
  lookup-try_spawn k ne = elim try_spawn-Spawned [
    | success c fresh e s ↦
        rw e (ground (arith, lookup-insert raw.server_id k c sup.children, eq_iff raw.server_id k))
    | failure m x e s ↦ rw e
  ]

  pub Children-try_spawn :
      (P : String → ChildServer → Type 0)
      → ((c : ChildServer) → IsFresh sup.env_store raw c → P raw.server_id c)
      → Children P sup
      → Children P (try_spawn host raw sup)
  Children-try_spawn P new old k c found = elim try_spawn-Spawned [
    | success c' fresh e s ↦
        elim (lookup-insert_cases raw.server_id k c' c sup.children (rw e at found)) [
          | inl (same, p) ↦ subst₂ P same p (new c' fresh)
          | inr before ↦ old k c before
        ]
    | failure m x e s ↦ old k c (rw e at found)
  ]

  pub Distinct-try_spawn : Distinct sup.children → Distinct (try_spawn host raw sup).children
  Distinct-try_spawn d = elim try_spawn-Spawned [
    | success c fresh e s ↦ rw e (insert-Distinct raw.server_id c sup.children d)
    | failure m x e s ↦ rw e d
  ]

module _ (id : String) (sup : Supervisor) where
  pub lookup-stop_child :
      (k : String)
      → lookup k (stop_child id sup).children ≡ (if id == k then none else lookup k sup.children)
  unfolding stop_child
  lookup-stop_child k = elim (Option-cases (lookup id sup.children)) [
    | inl e ↦ rw (e, stop_child) (ground (arith, eq_iff id k))
    | inr (c, e) ↦ rw (e, stop_child) (lookup-remove id k sup.children)
  ]

  pub Children-stop_child :
      (P : String → ChildServer → Type 0) → Children P sup → Children P (stop_child id sup)
  Children-stop_child P old k c found = old k c (ground (arith, lookup-stop_child k))

  pub Distinct-stop_child : Distinct sup.children → Distinct (stop_child id sup).children
  unfolding stop_child
  Distinct-stop_child d = elim (Option-cases (lookup id sup.children)) [
    | inl e ↦ rw (e, stop_child) d
    | inr (c, e) ↦ rw (e, stop_child) (remove-Distinct id sup.children d)
  ]

  pub store-stop_child : (stop_child id sup).env_store ≡ sup.env_store
  unfolding stop_child
  store-stop_child = elim (Option-cases (lookup id sup.children)) [
    | inl e ↦ rw (e, stop_child)
    | inr (c, e) ↦ rw (e, stop_child)
  ]

-- Two states of one child: its id, its specs and its process are those of the spawn.
pub record IsSameLaunch (c c' : ChildServer) : Type 0 where
  pub id_kept : c'.server_id ≡ c.server_id
  pub raw_kept : c'.desired_raw ≡ c.desired_raw
  pub launched_kept : c'.launched ≡ c.launched
  pub pid_kept : c'.pid ≡ c.pid

abbrev pub SameLaunch? : ChildServer → TrySend → Type 0
SameLaunch? c (queued c') = IsSameLaunch c c'
SameLaunch? c full = Unit
SameLaunch? c closed = Unit

pub try_send-SameLaunch? : (frame : Json) (c : ChildServer) → SameLaunch? c (try_send frame c)
unfolding try_send
try_send-SameLaunch? frame c =
    if_rule (SameLaunch? c) c.receiver_gone _ _ (λ _. tt)
      λ _.
        if_rule (SameLaunch? c) (ltb (length c.outbound) outbound_capacity)
          (queued (record c { outbound = c.outbound ++ frame ∷ [] })) full
          (λ _. record { id_kept = refl; raw_kept = refl; launched_kept = refl; pid_kept = refl })
          (λ _. tt)
