-- ===== src/EnvStore.antt =====
-- crates/edison-stdiod/src/env_store.rs: the values that a device holds for its servers, in memory
-- and in a private file. A file is kept as what it parses to; the argument `fails` says whether the
-- n-th call of `secure_file::write_private` returns an error, and what it leaves: the file as it was, or
-- none, which happens on Windows when neither the new file nor the backup can be renamed to the path.
pub mod Merge
pub mod Persist
pub mod Tests
use stdiod.Base.{
  ℕ, ◌+◌, String, Bool, Option, none, some, List, [], map, ◌==◌, if◌then◌else◌, value_or, Result,
  ok, err,
}
use stdiod.Base.Assoc.{lookup, insert_sorted, remove as remove_key, extend, is_empty}
use stdiod.Base.Text.{append, replace}
use stdiod.Base.{◌∷◌}
use stdiod.Protocol.{EnvMap}

pub record ServerSpec : Type 0 where
  pub env : EnvMap
  pub templated_args : EnvMap

abbrev pub default_spec : ServerSpec
default_spec = record { env = []; templated_args = [] }

-- The contents of a file that is there.
pub data File : Type 0 where
  servers : List (String × ServerSpec) → File
  malformed unreadable : File

pub record Disk : Type 0 where
  pub files : String → Option File
  pub writes : ℕ

-- What a call of `write_private` that returns an error leaves of the file.
pub data WriteFault : Type 0 where
  kept lost : WriteFault

pub data StoreError : Type 0 where
  parse_failed read_failed write_failed : StoreError

pub record EnvStore : Type 0 where
  pub path : String
  pub entries : List (String × ServerSpec)

unfoldable pub open_at : String → Disk → Result StoreError EnvStore
open_at path disk = elim (disk.files path) [
  | none ↦ ok (record { path = path; entries = [] })
  | some (servers m) ↦ ok (record { path = path; entries = m })
  | some malformed ↦ err parse_failed
  | some unreadable ↦ err read_failed
]

-- The file of a namespace: one of its own, named by the digest, or the file of legacy keys.
-- `digest` is SHA-256 in hexadecimal.
unfoldable pub store_path : (String → String) → String → Option String → String
store_path digest config_dir none = append config_dir "/server_envs.json"
store_path digest config_dir (some id) =
    append config_dir (append "/server_envs/" (append (digest id) ".json"))

unfoldable pub open_for :
    (String → String) → String → Option String → Disk → Result StoreError EnvStore
open_for digest config_dir namespace disk = open_at (store_path digest config_dir namespace) disk

unfoldable pub get : String → EnvStore → Option ServerSpec
get server_id store = lookup server_id store.entries

-- A method that writes through returns the store, the disk and whether the write succeeded.
abbrev pub Written : Type 0
Written = EnvStore × Disk × Result StoreError (Unit {0})

-- `self.data.entry(id).or_default()`
unfoldable pub entry : String → EnvStore → ServerSpec
entry server_id store = value_or (get server_id store) default_spec

-- `if let Some(m) = new { old.extend(m) }`
unfoldable pub extend_some : EnvMap → Option EnvMap → EnvMap
extend_some old none = old
extend_some old (some m) = extend old m

-- The disk after a write, by the contents of the path.
unfoldable pub put_file : String → Option File → Disk → Disk
put_file path contents disk = record disk { files = files }
  where
    files : String → Option File
    files p = if path == p then contents else disk.files p

module _ (fails : ℕ → Option WriteFault) where
  -- `write_private`, with its fault if it has one.
  unfoldable pub write_file : Option WriteFault → EnvStore → Disk → Written
  write_file none store disk =
      (store, put_file store.path (some (servers store.entries)) disk, ok tt)
  write_file (some kept) store disk = (store, disk, err write_failed)
  write_file (some lost) store disk = (store, put_file store.path none disk, err write_failed)

  unfoldable pub flush : EnvStore → Disk → Written
  flush store disk = write_file (fails disk.writes) store (record disk { writes = disk.writes + 1 })

  unfoldable pub set : String → ServerSpec → EnvStore → Disk → Written
  set server_id spec store disk =
      flush (record store { entries = insert_sorted server_id spec store.entries }) disk

  unfoldable pub merge_env : String → EnvMap → EnvStore → Disk → Written
  merge_env server_id env store disk = set server_id merged store disk
    where
      old : ServerSpec
      old = entry server_id store

      merged : ServerSpec
      merged = record old { env = extend old.env env }

  unfoldable pub merge_template_values :
      String → Option EnvMap → Option EnvMap → EnvStore → Disk → Written
  merge_template_values server_id env templated_args store disk = set server_id merged store disk
    where
      old : ServerSpec
      old = entry server_id store

      merged : ServerSpec
      merged = record {
        env = extend_some old.env env;
        templated_args = extend_some old.templated_args templated_args;
      }

  -- No write when there is nothing to drop.
  unfoldable pub remove : String → EnvStore → Disk → Written
  remove server_id store disk = elim (lookup server_id store.entries) [
    | none ↦ (store, disk, ok tt)
    | some _ ↦ flush (record store { entries = remove_key server_id store.entries }) disk
  ]

unfoldable pub resolve_env_for_spawn : Option ServerSpec → EnvMap → EnvMap
resolve_env_for_spawn none fallback = fallback
resolve_env_for_spawn (some spec) fallback = if is_empty spec.env then fallback else spec.env

unfoldable pub substitute : EnvMap → String → String
substitute [] arg = arg
substitute ((placeholder, value) ∷ more) arg = substitute more (replace arg placeholder value)

unfoldable pub substitute_templated_args : List String → EnvMap → List String
substitute_templated_args args replacements = map (substitute replacements) args
