-- ===== src/Supervisor/Snapshot.antt =====
-- `apply_snapshot` against its contract: what runs under an id after a full snapshot.
use mathlib.Core.Path.{subst₂}
use stdiod.Base.{
  String, ◌≡◌, refl, sym, ◌∙◌, subst, true, false, Bool, Option, none, some, List, [], ◌∷◌, arith,
  ◌==◌, eq_iff, inl, inr, Bool-cases, if◌then◌else◌, if_rule,
}
use stdiod.Base.Assoc.{lookup, keys}
use stdiod.Protocol.{DesiredServer}
use stdiod.EnvStore.{EnvStore}
use stdiod.Proc.{ChildServer}
use stdiod.Supervisor.{Host, Supervisor, publish_state}
use stdiod.Supervisor.Commands.{
  ensure, ensure_all, drop_unwanted, is_wanted, collect, apply_snapshot,
}
use stdiod.Supervisor.Steps.Frames.{
  IsWantedMap, IsWantedMap-tail, IsOrder, order-IsWantedMap, collect-IsWantedMap,
}
use stdiod.Supervisor.Ensure.{
  Ensured, contains_id, absent_id, lookup-drop_unwanted, store-drop_unwanted, store-ensure,
  lookup-ensure_other, ensure-Ensured,
}

-- A wanted and enabled server is ensured; any other id has no child.
abbrev pub Reconciled :
    Host → EnvStore → Option DesiredServer → Option ChildServer → Option ChildServer → Type 0
Reconciled host store none before after = after ≡ none
Reconciled host store (some d) before after =
    if d.enabled then Ensured host store d before after else (after ≡ none)

-- `wanted.get(id).map(|d| d.enabled).unwrap_or(false)` on what the map holds.
is_wanted_by : Option DesiredServer → Bool
is_wanted_by w = elim w [ none ↦ false | some d ↦ d.enabled ]

module _ (host : Host) where
  -- What `ensure_all` leaves under an id that the wanted map has, or has not.
  Settled : EnvStore → Option DesiredServer → Option ChildServer → Option ChildServer → Type 0
  Settled store none before after = after ≡ before
  Settled store (some d) before after =
      if d.enabled then Ensured host store d before after else (after ≡ before)

  -- One pair of the wanted map, seen from its own id.
  one-Settled :
      (on : Bool) (d : DesiredServer) (sup : Supervisor) (id k : String)
      (after : Option ChildServer)
      → d.server_id ≡ id
      → id ≡ k
      → after ≡ lookup k (if on then ensure host id d sup else sup).children
      → (if on
          then Ensured host sup.env_store d (lookup k sup.children) after
          else (after ≡ lookup k sup.children))
  one-Settled true d sup id k after p q e =
      subst (Ensured host sup.env_store d (lookup k sup.children)) (sym e)
        (rw (← q, ← p) (ensure-Ensured host d sup))
  one-Settled false d sup id k after p q e = e

  ensure_all-Settled :
      (m : List (String × DesiredServer)) (sup : Supervisor) (k : String)
      → IsWantedMap m
      → Settled sup.env_store
          (lookup k m)
          (lookup k sup.children)
          (lookup k (ensure_all host m sup).children)
  unfolding ensure_all lookup Settled
  ensure_all-Settled [] sup k w = refl
  ensure_all-Settled ((id, d) ∷ m) sup k w =
      let (same, rest) = IsWantedMap-tail id d m w in
      let next : Supervisor = if d.enabled then ensure host id d sup else sup in
      let later = ensure_all-Settled m next k rest in
      elim (Bool-cases (id == k)) [
        | inl here ↦
            let p : id ≡ k = (eq_iff id k).0 here in
            let absent : lookup k m ≡ none = subst (λ i. lookup i m ≡ none) p w.once.0 in
            rw here (
              one-Settled d.enabled d sup id k (lookup k (ensure_all host m next).children) same p (
                subst
                  (λ o.
                    Settled next.env_store o (lookup k next.children)
                      (lookup k (ensure_all host m next).children))
                  absent later))
        | inr other ↦
            let left : lookup k next.children ≡ lookup k sup.children =
              if_rule (λ s. lookup k s.children ≡ lookup k sup.children) d.enabled
                (ensure host id d sup) sup
                (λ _. lookup-ensure_other host id d sup k same (ground (arith, eq_iff id k)))
                (λ _. refl) in
            let store : next.env_store ≡ sup.env_store =
              if_rule (λ s. s.env_store ≡ sup.env_store) d.enabled (ensure host id d sup) sup
                (λ _. store-ensure host id d sup) (λ _. refl) in
            rw other (
              subst
                (λ b.
                  Settled sup.env_store (lookup k m) b (lookup k (ensure_all host m next).children))
                left
                (subst
                  (λ s.
                    Settled s (lookup k m) (lookup k next.children)
                      (lookup k (ensure_all host m next).children))
                  store later))
      ]

  settled_on :
      (on : Bool) (d : DesiredServer) (store store' : EnvStore)
      (before mid after : Option ChildServer)
      → store ≡ store'
      → mid ≡ (if on then before else none)
      → (if on then Ensured host store d mid after else (after ≡ mid))
      → (if on then Ensured host store' d before after else (after ≡ none))
  settled_on true d store store' before mid after p q s =
      subst₂ (λ t b. Ensured host t d b after) p q s
  settled_on false d store store' before mid after p q s = s ∙ q

  reconciled :
      (w : Option DesiredServer) (store store' : EnvStore) (before mid after : Option ChildServer)
      → store ≡ store'
      → mid ≡ (if is_wanted_by w then before else none)
      → Settled store w mid after
      → Reconciled host store' w before after
  unfolding Settled is_wanted_by
  reconciled none store store' before mid after p q s = s ∙ q
  reconciled (some d) store store' before mid after p q s =
      settled_on d.enabled d store store' before mid after p q s

  lookup-dropped :
      (wanted : List (String × DesiredServer)) (sup : Supervisor) (k : String)
      → lookup k (drop_unwanted wanted (keys sup.children) sup).children
        ≡ (if is_wanted_by (lookup k wanted) then lookup k sup.children else none)
  unfolding is_wanted is_wanted_by
  lookup-dropped wanted sup k =
      lookup-drop_unwanted wanted (keys sup.children) sup k
      ∙ elim (Bool-cases (contains_id k (keys sup.children))) [
        | inl e ↦ rw e
        | inr e ↦ rw (e, absent_id k sup.children e) (ground arith)
      ]

  -- If an iteration over the wanted servers meets each one
  -- once, then after a full snapshot, for every id: no child runs if the id is not in the snapshot
  -- or its last entry there is disabled. Otherwise a child that runs the same raw spec and has not
  -- exited is kept as it is, and any other is replaced by a child that was just started from this
  -- spec and the stored values, or by none if the host refused to start it.
  pub apply_snapshot_lem :
      (desired : List DesiredServer) (sup : Supervisor) (k : String)
      → IsOrder host.order
      → Reconciled host sup.env_store
          (lookup k (collect desired))
          (lookup k sup.children)
          (lookup k (apply_snapshot host desired sup).children)
  unfolding apply_snapshot publish_state
  apply_snapshot_lem desired sup k o =
      let wanted = collect desired in
      let w : IsWantedMap wanted = collect-IsWantedMap desired in
      let dropped : Supervisor = drop_unwanted wanted (keys sup.children) sup in
      reconciled (lookup k wanted) dropped.env_store sup.env_store (lookup k sup.children)
        (lookup k dropped.children) _ (store-drop_unwanted wanted (keys sup.children) sup)
        (lookup-dropped wanted sup k)
        (subst
          (λ x.
            Settled dropped.env_store x (lookup k dropped.children)
              (lookup k (ensure_all host (host.order wanted) dropped).children))
          (o.same_entries wanted k w.once)
          (ensure_all-Settled (host.order wanted) dropped k
            (order-IsWantedMap host.order wanted o w)))
