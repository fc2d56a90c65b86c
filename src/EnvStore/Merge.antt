-- ===== src/EnvStore/Merge.antt =====
-- What a merge into the store changes, key by key.
use stdiod.Base.{
  ℕ, String, ◌≡◌, ◌≢◌, refl, Option, none, some, arith, ◌==◌, eq_iff, eq_refl, or_else,
  if◌then◌else◌,
}
use stdiod.Base.Assoc.{lookup, Distinct, lookup-insert_sorted, lookup-extend}
use stdiod.Protocol.{EnvMap}
use stdiod.EnvStore.{
  EnvStore, ServerSpec, Disk, get, set, entry, extend_some, merge_env, merge_template_values, flush,
  write_file, WriteFault, kept, lost,
}

abbrev pub lookup? : String → Option EnvMap → Option String
lookup? key none = none
lookup? key (some m) = lookup key m

abbrev pub Distinct? : Option EnvMap → Type 0
Distinct? none = Unit
Distinct? (some m) = Distinct m

write_file-store :
    (fails : ℕ → Option WriteFault) (fault : Option WriteFault) (store : EnvStore) (disk : Disk)
    → (write_file fails fault store disk).0 ≡ store
unfolding write_file
write_file-store fails none store disk = refl
write_file-store fails (some kept) store disk = refl
write_file-store fails (some lost) store disk = refl

-- The store in memory is the one that was to be written, whatever the write came to.
pub flush-store :
    (fails : ℕ → Option WriteFault) (store : EnvStore) (disk : Disk)
    → (flush fails store disk).0 ≡ store
unfolding flush
flush-store fails store disk = write_file-store fails (fails disk.writes) store _

module _ (fails : ℕ → Option WriteFault) (server_id : String) (store : EnvStore) (disk : Disk) where
  pub get-set :
      (spec : ServerSpec) (j : String)
      → get j (set fails server_id spec store disk).0
        ≡ (if server_id == j then some spec else get j store)
  unfolding set get
  get-set spec j = rw flush-store (lookup-insert_sorted server_id j spec store.entries)

  entry-set : (spec : ServerSpec) → entry server_id (set fails server_id spec store disk).0 ≡ spec
  unfolding entry
  entry-set spec = ground (arith, get-set spec server_id, eq_refl server_id)

  pub get-set_other :
      (spec : ServerSpec) (j : String)
      → server_id ≢ j
      → get j (set fails server_id spec store disk).0 ≡ get j store
  get-set_other spec j ne = ground (arith, get-set spec j, eq_iff server_id j)

  -- A merge leaves every other server's values alone.
  pub get-merge_env_other :
      (env : EnvMap) (j : String)
      → server_id ≢ j
      → get j (merge_env fails server_id env store disk).0 ≡ get j store
  unfolding merge_env
  get-merge_env_other env j ne = get-set_other _ j ne

  pub get-merge_template_values_other :
      (env ta : Option EnvMap) (j : String)
      → server_id ≢ j
      → get j (merge_template_values fails server_id env ta store disk).0 ≡ get j store
  unfolding merge_template_values
  get-merge_template_values_other env ta j ne = get-set_other _ j ne

lookup-extend_some :
    (key : String) (old : EnvMap) (new : Option EnvMap)
    → Distinct? new
    → lookup key (extend_some old new) ≡ or_else (lookup? key new) (lookup key old)
unfolding extend_some
lookup-extend_some key old none d = refl
lookup-extend_some key old (some m) d = lookup-extend key old m d

-- A spec update sets the values that it carries, in both maps, and keeps every other value of the
-- server and every other server, whether or not the write to disk succeeds.
pub merge_template_values_lem :
    (fails : ℕ → Option WriteFault) (server_id : String) (env ta : Option EnvMap) (store : EnvStore)
    (disk : Disk)
    → Distinct? env
    → Distinct? ta
    → (key j : String)
    → let after = (merge_template_values fails server_id env ta store disk).0 in
      (lookup key (entry server_id after).env
        ≡ or_else (lookup? key env) (lookup key (entry server_id store).env))
      × (lookup key (entry server_id after).templated_args
          ≡ or_else (lookup? key ta) (lookup key (entry server_id store).templated_args))
      × (server_id ≢ j → get j after ≡ get j store)
unfolding merge_template_values
merge_template_values_lem fails server_id env ta store disk de dt key j = (
  rw entry-set (lookup-extend_some key _ env de),
  rw entry-set (lookup-extend_some key _ ta dt),
  get-merge_template_values_other fails server_id store disk env ta j,
)

-- An env update sets the variables that it carries and keeps the others, the server's placeholder
-- values and every other server, whether or not the write to disk succeeds.
pub merge_env_lem :
    (fails : ℕ → Option WriteFault) (server_id : String) (env : EnvMap) (store : EnvStore)
    (disk : Disk)
    → Distinct env
    → (key j : String)
    → let after = (merge_env fails server_id env store disk).0 in
      (lookup key (entry server_id after).env
        ≡ or_else (lookup key env) (lookup key (entry server_id store).env))
      × ((entry server_id after).templated_args ≡ (entry server_id store).templated_args)
      × (server_id ≢ j → get j after ≡ get j store)
unfolding merge_env
merge_env_lem fails server_id env store disk d key j = (
  rw entry-set (lookup-extend key _ env d),
  rw entry-set refl,
  get-merge_env_other fails server_id store disk env j,
)
