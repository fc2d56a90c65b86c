-- ===== src/EnvStore/Persist.antt =====
-- What the file holds after the operations of the store.
use stdiod.Base.{
  ℕ, String, ◌≡◌, refl, sym, ◌∙◌, ◌⊎◌, Option, none, some, List, [], ◌∷◌, arith, eq_refl, ok, err,
  ap, subst, Option-cases, inl, inr, ◌+◌,
}
use stdiod.Base.Assoc.{lookup, remove as remove_key, lookup-remove}
use stdiod.Protocol.{EnvMap}
use stdiod.EnvStore.{
  EnvStore, ServerSpec, Disk, Written, WriteFault, kept, lost, servers, write_failed, get, set,
  merge_env, merge_template_values, remove, write_file, put_file, flush, open_at,
}

-- A daemon that starts now would load exactly this store.
abbrev pub InSync : EnvStore → Disk → Type 0
InSync store disk = open_at store.path disk ≡ ok store

pub data Mutation : Type 0 where
  replace_spec : ServerSpec → Mutation
  merge_vars : EnvMap → Mutation
  merge_values : Option EnvMap → Option EnvMap → Mutation
  drop : Mutation

-- One of the stores is what would be loaded.
pub data LoadsOneOf (path : String) (disk : Disk) : List EnvStore → Type 0 where
  here :
      {s : EnvStore} {rest : List EnvStore}
      → open_at path disk ≡ ok s
      → LoadsOneOf path disk (s ∷ rest)
  there :
      {s : EnvStore} {rest : List EnvStore}
      → LoadsOneOf path disk rest
      → LoadsOneOf path disk (s ∷ rest)

open_at-files :
    (path : String) (after before : Disk)
    → after.files path ≡ before.files path
    → open_at path after ≡ open_at path before
unfolding open_at
open_at-files path after before e = rw (e, open_at) refl

open_at-gone :
    (path : String) (disk : Disk)
    → disk.files path ≡ none
    → open_at path disk ≡ ok (record { path = path; entries = [] })
unfolding open_at
open_at-gone path disk e = rw (e, open_at) refl

open_at-put_file :
    (store : EnvStore) (disk : Disk)
    → InSync store (put_file store.path (some (servers store.entries)) disk)
unfolding open_at put_file
open_at-put_file store disk = ground (arith, eq_refl store.path)

put_file-gone : (path : String) (disk : Disk) → (put_file path none disk).files path ≡ none
unfolding put_file
put_file-gone path disk = ground (arith, eq_refl path)

module _ (fails : ℕ → Option WriteFault) where
  abbrev pub apply : Mutation → String → EnvStore → Disk → Written
  apply (replace_spec spec) server_id store disk = set fails server_id spec store disk
  apply (merge_vars env) server_id store disk = merge_env fails server_id env store disk
  apply (merge_values env ta) server_id store disk =
      merge_template_values fails server_id env ta store disk
  apply drop server_id store disk = remove fails server_id store disk

  -- One operation after another, whether or not they succeed.
  unfoldable pub apply_each : List (Mutation × String) → EnvStore → Disk → EnvStore × Disk
  apply_each [] store disk = (store, disk)
  apply_each ((m, server_id) ∷ more) store disk =
      let r = apply m server_id store disk in apply_each more r.0 r.1

  -- The stores in memory after the operations that reported success.
  unfoldable pub reported : List (Mutation × String) → EnvStore → Disk → List EnvStore
  reported [] store disk = []
  reported ((m, server_id) ∷ more) store disk =
      let r = apply m server_id store disk in
      let rest = reported more r.0 r.1 in elim r.2 [ ok _ ↦ r.0 ∷ rest | err _ ↦ rest ]

  -- The file is gone after a write that lost it.
  abbrev IsLost : String → Disk → Type 0
  IsLost path disk = (disk.files path ≡ none) × (n : ℕ) × (fails n ≡ some lost)

  -- What a reported result and the file have to do with each other: the file holds the store that was
  -- reported, or what it held, or it was lost.
  abbrev Accounts : String → Disk → List EnvStore → Disk → Type 0
  Accounts path before good after =
      LoadsOneOf path after good ⊎ ((after.files path ≡ before.files path) ⊎ IsLost path after)

  -- What one operation reported.
  abbrev good : Written → List EnvStore → List EnvStore
  good r rest = elim r.2 [ ok _ ↦ r.0 ∷ rest | err _ ↦ rest ]

  write_file-Accounts :
      (n : ℕ) (fault : Option WriteFault) (store : EnvStore) (disk : Disk)
      → fails n ≡ fault
      → let r = write_file fails fault store disk in
        (r.0.path ≡ store.path) × Accounts store.path disk (good r []) r.1
  unfolding write_file
  write_file-Accounts n none store disk e = (refl, inl (here (open_at-put_file store disk)))
  write_file-Accounts n (some kept) store disk e = (refl, inr (inl refl))
  write_file-Accounts n (some lost) store disk e =
      (refl, inr (inr (put_file-gone store.path disk, n, e)))

  abbrev Accounted : EnvStore → Disk → Written → Type 0
  Accounted store disk r = (r.0.path ≡ store.path) × Accounts store.path disk (good r []) r.1

  flush-Accounts : (store : EnvStore) (disk : Disk) → Accounted store disk (flush fails store disk)
  unfolding flush
  flush-Accounts store disk = write_file-Accounts disk.writes (fails disk.writes) store _ refl

  remove-Accounts :
      (server_id : String) (store : EnvStore) (disk : Disk)
      → Accounted store disk (remove fails server_id store disk)
  unfolding remove
  remove-Accounts server_id store disk = elim (Option-cases (lookup server_id store.entries)) [
    | inl e ↦ rw (e, remove) (refl, inr (inl refl))
    | inr (spec, e) ↦ rw (e, remove) (flush-Accounts _ disk)
  ]

  apply-Accounts :
      (m : Mutation) (server_id : String) (store : EnvStore) (disk : Disk)
      → Accounted store disk (apply m server_id store disk)
  unfolding set merge_env merge_template_values
  apply-Accounts (replace_spec spec) server_id store disk = flush-Accounts _ disk
  apply-Accounts (merge_vars env) server_id store disk = flush-Accounts _ disk
  apply-Accounts (merge_values env ta) server_id store disk = flush-Accounts _ disk
  apply-Accounts drop server_id store disk = remove-Accounts server_id store disk

  -- One operation, then what follows it.
  reports_first :
      (path : String) (after : Disk) (r : Written) (rest : List EnvStore)
      → LoadsOneOf path after rest
      → LoadsOneOf path after (good r rest)
  reports_first path after (store, disk, ok _) rest found = there found
  reports_first path after (store, disk, err _) rest found = found

  none_of_nothing : (path : String) (disk : Disk) → LoadsOneOf path disk [] → ⊥
  none_of_nothing path disk found = elim found [ ]

  reports_own :
      (path : String) (before after : Disk) (r : Written) (rest : List EnvStore)
      → after.files path ≡ before.files path
      → LoadsOneOf path before (good r [])
      → LoadsOneOf path after (good r rest)
  reports_own path before after (store, disk, ok _) rest same (here e) =
      here (open_at-files path after before same ∙ e)
  reports_own path before after (store, disk, ok _) rest same (there found) =
      absurd (none_of_nothing path before found)
  reports_own path before after (store, disk, err _) rest same found =
      absurd (none_of_nothing path before found)

  Accounts-then :
      (path : String) (before after : Disk) (r : Written) (rest : List EnvStore)
      → Accounts path before (good r []) r.1
      → Accounts path r.1 rest after
      → Accounts path before (good r rest) after
  Accounts-then path before after r rest first (inl found) =
      inl (reports_first path after r rest found)
  Accounts-then path before after r rest first (inr (inr gone)) = inr (inr gone)
  Accounts-then path before after r rest (inl found) (inr (inl same)) =
      inl (reports_own path r.1 after r rest same found)
  Accounts-then path before after r rest (inr (inl kept_first)) (inr (inl same)) =
      inr (inl (same ∙ kept_first))
  Accounts-then path before after r rest (inr (inr (gone, n, e))) (inr (inl same)) =
      inr (inr (same ∙ gone, n, e))

  apply_each-Accounts :
      (ops : List (Mutation × String)) (path : String) (store : EnvStore) (disk : Disk)
      → store.path ≡ path
      → Accounts path disk (reported ops store disk) (apply_each ops store disk).1
  unfolding apply_each reported
  apply_each-Accounts [] path store disk e = inr (inl refl)
  apply_each-Accounts ((m, server_id) ∷ more) path store disk e =
      let r = apply m server_id store disk in
      let first = apply-Accounts m server_id store disk in
      Accounts-then path disk (apply_each more r.0 r.1).1 r (reported more r.0 r.1)
        (subst (λ p. Accounts p disk (good r []) r.1) e first.1)
        (apply_each-Accounts more path r.0 r.1 (first.0 ∙ e))

  -- Each operation without a fault.
  module _ (writable : (n : ℕ) → fails n ≡ none) where
    flush-InSync :
        (store : EnvStore) (disk : Disk) → let r = flush fails store disk in InSync r.0 r.1
    unfolding flush write_file
    flush-InSync store disk = rw (writable disk.writes, write_file) (open_at-put_file store _)

    apply-InSync :
        (m : Mutation) (server_id : String) (store : EnvStore) (disk : Disk)
        → InSync store disk
        → let r = apply m server_id store disk in InSync r.0 r.1
    unfolding set merge_env merge_template_values remove
    apply-InSync (replace_spec spec) server_id store disk h = flush-InSync _ disk
    apply-InSync (merge_vars env) server_id store disk h = flush-InSync _ disk
    apply-InSync (merge_values env ta) server_id store disk h = flush-InSync _ disk
    apply-InSync drop server_id store disk h =
        elim (Option-cases (lookup server_id store.entries)) [
          | inl e ↦ rw (e, remove) h
          | inr (spec, e) ↦ rw (e, remove) (flush-InSync _ disk)
        ]

    apply_each-InSync :
        (ops : List (Mutation × String)) (store : EnvStore) (disk : Disk)
        → InSync store disk
        → let after = apply_each ops store disk in InSync after.0 after.1
    unfolding apply_each
    apply_each-InSync [] store disk h = h
    apply_each-InSync ((m, server_id) ∷ more) store disk h =
        let r = apply m server_id store disk in
        apply_each-InSync more r.0 r.1 (apply-InSync m server_id store disk h)

  -- When the file agrees with the store before a sequence of operations, in which any writes may
  -- fail, then a restart after it loads the store as it was at the start or after an operation of the
  -- sequence that reported success, or else an empty store, and then some write has lost the file;
  -- and if no write fails, it loads the store that is in memory.
  pub apply_each-IsRecovered :
      (ops : List (Mutation × String)) (store : EnvStore) (disk : Disk)
      → InSync store disk
      → let after = apply_each ops store disk in
        (LoadsOneOf store.path after.1 (store ∷ reported ops store disk)
          ⊎ ((open_at store.path after.1 ≡ ok (record { path = store.path; entries = [] }))
              × (n : ℕ) × (fails n ≡ some lost)))
        × (((n : ℕ) → fails n ≡ none) → InSync after.0 after.1)
  apply_each-IsRecovered ops store disk h =
      let after = (apply_each ops store disk).1 in
      (
        elim (apply_each-Accounts ops store.path store disk refl) [
          | inl found ↦ inl (there found)
          | inr rest ↦ elim rest [
            | inl same ↦ inl (here (open_at-files store.path after disk same ∙ h))
            | inr (gone, n, e) ↦ inr (open_at-gone store.path after gone, n, e)
          ]
        ],
        λ writable. apply_each-InSync writable ops store disk h,
      )

  -- A failed removal that left the file as it was is not made good by a retry: when the first removal
  -- of a stored server fails to write in this way, a second one reports success without writing, and a
  -- restart brings the removed values back.
  pub remove-open_at :
      (server_id : String) (store : EnvStore) (disk : Disk) (spec : ServerSpec)
      → InSync store disk
      → get server_id store ≡ some spec
      → fails disk.writes ≡ some kept
      → let first = remove fails server_id store disk in
        let retry = remove fails server_id first.0 first.1 in
        (first.2 ≡ err write_failed)
        × (retry.2 ≡ ok tt)
        × (get server_id retry.0 ≡ none)
        × (open_at store.path retry.1 ≡ ok store)
  unfolding remove get flush write_file open_at
  remove-open_at server_id store disk spec h found failed =
      let gone : lookup server_id (remove_key server_id store.entries) ≡ none =
        ground (arith, lookup-remove server_id server_id store.entries, eq_refl server_id) in
      let left : EnvStore = record store { entries = remove_key server_id store.entries } in
      let tried : Disk = record disk { writes = disk.writes + 1 } in
      let removed : remove fails server_id store disk ≡ (left, tried, err write_failed) =
        rw (found, remove, failed, write_file) refl in
      let retried : remove fails server_id left tried ≡ (left, tried, ok tt) =
        rw (gone, remove) refl in
      subst
        (λ (first : Written).
          let retry = remove fails server_id first.0 first.1 in
          (first.2 ≡ err write_failed)
          × (retry.2 ≡ ok tt)
          × (get server_id retry.0 ≡ none)
          × (open_at store.path retry.1 ≡ ok store))
        (sym removed)
        (
          refl,
          ap (λ r. r.2) retried,
          ap (λ r. get server_id r.0) retried ∙ gone,
          ap (λ r. open_at store.path r.1) retried ∙ h,
        )
