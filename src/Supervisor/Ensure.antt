-- ===== src/Supervisor/Ensure.antt =====
-- What the steps of `apply_snapshot` do under one id.
use stdiod.Base.{
  ℕ, String, ◌≡◌, ◌≢◌, refl, ◌∙◌, subst, true, false, Bool, Option, none, some, List, [], ◌∷◌,
  arith, ◌==◌, eq_iff, eq_refl, inl, inr, err, Bool-cases, Option-cases, if◌then◌else◌, if_rule,
}
use stdiod.Base.Assoc.{lookup, keys, lookup-insert}
use stdiod.Protocol.{DesiredServer}
use stdiod.EnvStore.{EnvStore}
use stdiod.Proc.{ChildServer}
use stdiod.Supervisor.{Host, Supervisor, enrich, try_spawn, stop_child, is_unchanged}
use stdiod.Supervisor.Commands.{ensure, drop_unwanted, is_wanted}
use stdiod.Supervisor.Touch.{
  IsFresh, success, failure, try_spawn-Spawned, try_spawn-IsAside, lookup-try_spawn,
  lookup-stop_child, store-stop_child,
}

-- Whether what runs, if anything, is the wanted server and healthy.
abbrev pub runs_unchanged : Option ChildServer → DesiredServer → Bool
runs_unchanged none d = false
runs_unchanged (some c) d = is_unchanged c d

-- What `before` becomes when the server `d` is wanted.
pub data Ensured (host : Host) (store : EnvStore) (d : DesiredServer)
    (before after : Option ChildServer) : Type 0 where
  kept : runs_unchanged before d ≡ true → after ≡ before → Ensured host store d before after
  started :
      (c : ChildServer)
      → runs_unchanged before d ≡ false
      → IsFresh store d c
      → after ≡ some c
      → Ensured host store d before after
  refused :
      (attempt : ℕ) (message : String)
      → runs_unchanged before d ≡ false
      → host.spawn attempt (enrich store d) ≡ err message
      → after ≡ none
      → Ensured host store d before after

unfoldable pub contains_id : String → List String → Bool
contains_id k [] = false
contains_id k (j ∷ js) = if j == k then true else contains_id k js

pub absent_id :
    (k : String) (m : List (String × ChildServer))
    → contains_id k (keys m) ≡ false
    → lookup k m ≡ none
unfolding contains_id keys lookup
absent_id k [] e = refl
absent_id k ((j, c) ∷ m) e = ground (arith, absent_id k m)

pub lookup-drop_unwanted :
    (wanted : List (String × DesiredServer)) (ids : List String) (sup : Supervisor) (k : String)
    → lookup k (drop_unwanted wanted ids sup).children ≡ (
        if is_wanted wanted k
        then lookup k sup.children
        else (if contains_id k ids then none else lookup k sup.children))
unfolding drop_unwanted contains_id
lookup-drop_unwanted wanted [] sup k = ground arith
lookup-drop_unwanted wanted (id ∷ ids) sup k = elim (Bool-cases (is_wanted wanted id)) [
  | inl keep ↦
      rw (keep, drop_unwanted)
        (elim (Bool-cases (id == k)) [
          | inl same ↦
              let found : is_wanted wanted k ≡ true =
                subst (λ i. is_wanted wanted i ≡ true) ((eq_iff id k).0 same) keep in
              rw found (ground (arith, lookup-drop_unwanted wanted ids sup k))
          | inr other ↦ rw other (lookup-drop_unwanted wanted ids sup k)
        ])
  | inr drop ↦
      rw (drop, drop_unwanted)
        (elim (Bool-cases (id == k)) [
          | inl same ↦
              let lost : is_wanted wanted k ≡ false =
                subst (λ i. is_wanted wanted i ≡ false) ((eq_iff id k).0 same) drop in
              rw (lost, same)
                (ground (
                  arith,
                  lookup-drop_unwanted wanted ids (stop_child id sup) k,
                  lookup-stop_child id sup k,
                ))
          | inr other ↦
              let rest : lookup k (stop_child id sup).children ≡ lookup k sup.children =
                ground (arith, lookup-stop_child id sup k) in
              rw other (lookup-drop_unwanted wanted ids (stop_child id sup) k ∙ rw rest)
        ])
]

pub store-drop_unwanted :
    (wanted : List (String × DesiredServer)) (ids : List String) (sup : Supervisor)
    → (drop_unwanted wanted ids sup).env_store ≡ sup.env_store
unfolding drop_unwanted
store-drop_unwanted wanted [] sup = refl
store-drop_unwanted wanted (id ∷ ids) sup = ground (
  arith,
  store-drop_unwanted wanted ids sup,
  store-drop_unwanted wanted ids (stop_child id sup),
  store-stop_child id sup,
)

module _ (host : Host) where
  pub store-ensure :
      (id : String) (d : DesiredServer) (sup : Supervisor)
      → (ensure host id d sup).env_store ≡ sup.env_store
  unfolding ensure
  store-ensure id d sup = elim (Option-cases (lookup id sup.children)) [
    | inl e ↦ rw (e, ensure) (try_spawn-IsAside host d sup).same_store
    | inr (c, e) ↦
        rw (e, ensure)
          (if_rule (λ s. s.env_store ≡ sup.env_store) (is_unchanged c d) sup
            (try_spawn host d (stop_child id sup)) (λ _. refl)
            (λ _.
              (try_spawn-IsAside host d (stop_child id sup)).same_store ∙ store-stop_child id sup))
  ]

  pub lookup-ensure_other :
      (id : String) (d : DesiredServer) (sup : Supervisor) (k : String)
      → d.server_id ≡ id
      → id ≢ k
      → lookup k (ensure host id d sup).children ≡ lookup k sup.children
  unfolding ensure
  lookup-ensure_other id d sup k same ne = elim (Option-cases (lookup id sup.children)) [
    | inl e ↦ rw (e, ensure) (lookup-try_spawn host d sup k (rw same ne))
    | inr (c, e) ↦
        rw (e, ensure)
          (if_rule (λ s. lookup k s.children ≡ lookup k sup.children) (is_unchanged c d) sup
            (try_spawn host d (stop_child id sup)) (λ _. refl)
            (λ _.
              lookup-try_spawn host d (stop_child id sup) k (rw same ne)
              ∙ ground (arith, lookup-stop_child id sup k, eq_iff id k)))
  ]

  -- A spawn attempt where nothing runs under the id.
  try_spawn-Ensured :
      (d : DesiredServer) (sup : Supervisor) (before : Option ChildServer) (store : EnvStore)
      → sup.env_store ≡ store
      → lookup d.server_id sup.children ≡ none
      → runs_unchanged before d ≡ false
      → Ensured host store d before (lookup d.server_id (try_spawn host d sup).children)
  try_spawn-Ensured d sup before store same free changed = elim (try_spawn-Spawned host d sup) [
    | success c fresh e s ↦ started c changed (rw same at fresh) (
        rw e (
          ground
            (arith, lookup-insert d.server_id d.server_id c sup.children, eq_refl d.server_id)))
    | failure m x e s ↦ refused sup.attempts m changed (rw same at x) (rw e free)
  ]

  pub ensure-Ensured :
      (d : DesiredServer) (sup : Supervisor)
      → Ensured host sup.env_store d
          (lookup d.server_id sup.children)
          (lookup d.server_id (ensure host d.server_id d sup).children)
  unfolding ensure
  ensure-Ensured d sup = elim (Option-cases (lookup d.server_id sup.children)) [
    | inl e ↦ rw (e, ensure) (try_spawn-Ensured d sup none sup.env_store refl e refl)
    | inr (c, e) ↦
        rw (e, ensure)
          (if_rule (λ s. Ensured host sup.env_store d (some c) (lookup d.server_id s.children))
            (is_unchanged c d) sup (try_spawn host d (stop_child d.server_id sup)) (λ u. kept u e)
            (λ u.
              try_spawn-Ensured d (stop_child d.server_id sup) (some c) sup.env_store
                (store-stop_child d.server_id sup)
                (ground (arith, lookup-stop_child d.server_id sup d.server_id, eq_refl d.server_id))
                u))
  ]
