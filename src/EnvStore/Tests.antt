-- ===== src/EnvStore/Tests.antt =====
-- The theorems on the environment store at small stores.
use stdiod.Base.{
  ℕ, String, ◌≡◌, refl, ◌⊎◌, Option, none, some, List, [], ◌∷◌, ok, err, or_else, ◌≢◌, ◌==◌,
  if◌then◌else◌,
}
use stdiod.Base.Assoc.{lookup}
use stdiod.EnvStore.{
  ServerSpec, Disk, WriteFault, kept, lost, servers, EnvStore, write_failed, open_at, get, entry,
  merge_env, merge_template_values, remove,
}
use stdiod.EnvStore.Merge.{merge_template_values_lem, merge_env_lem}
use stdiod.EnvStore.Persist.{
  InSync, Mutation, merge_vars, drop, LoadsOneOf, apply_each, reported, apply_each-IsRecovered,
  remove-open_at,
}

abbrev writable : ℕ → Option WriteFault
writable n = none

abbrev full : ℕ → Option WriteFault
full ℕ.zero = some kept
full (ℕ.suc n) = none

abbrev files : String
files = "files"

abbrev git : String
git = "git"

abbrev stored_spec : ServerSpec
stored_spec = record { env = ("TOKEN", "old") ∷ []; templated_args = ("path", "/srv") ∷ [] }

abbrev store : EnvStore
store = record { path = "env.json"; entries = ("files", stored_spec) ∷ [] }

abbrev disk : Disk
disk = record {
  files = λ p. if "env.json" == p then some (servers store.entries) else none;
  writes = 0;
}

store-InSync : InSync store disk
unfolding open_at
store-InSync = refl

abbrev ops : List (Mutation × String)
ops = (merge_vars (("TOKEN", "new") ∷ []), "files") ∷ (drop, "files") ∷ []

apply_each-IsRecovered_example :
    let after = apply_each full ops store disk in
    (LoadsOneOf store.path after.1 (store ∷ reported full ops store disk)
      ⊎ ((open_at store.path after.1 ≡ ok (record { path = store.path; entries = [] }))
          × (n : ℕ) × (full n ≡ some lost)))
    × (((n : ℕ) → full n ≡ none) → InSync after.0 after.1)
apply_each-IsRecovered_example = apply_each-IsRecovered full ops store disk store-InSync

remove-open_at_example :
    let first = remove full "files" store disk in
    let retry = remove full "files" first.0 first.1 in
    (first.2 ≡ err write_failed)
    × (retry.2 ≡ ok tt)
    × (get "files" retry.0 ≡ none)
    × (open_at store.path retry.1 ≡ ok store)
unfolding get lookup
remove-open_at_example = remove-open_at full "files" store disk stored_spec store-InSync refl refl

merge_template_values_lem_example :
    let after =
      (merge_template_values writable "files" (some (("TOKEN", "new") ∷ [])) none store disk).0 in
    (lookup "TOKEN" (entry "files" after).env
      ≡ or_else (lookup "TOKEN" (("TOKEN", "new") ∷ [])) (lookup "TOKEN" (entry "files" store).env))
    × (lookup "TOKEN" (entry "files" after).templated_args
        ≡ or_else none (lookup "TOKEN" (entry "files" store).templated_args))
    × (files ≢ git → get "git" after ≡ get "git" store)
unfolding lookup
merge_template_values_lem_example =
    merge_template_values_lem writable "files" (some (("TOKEN", "new") ∷ [])) none store disk
      (refl, tt) tt "TOKEN" "git"

merge_env_lem_example :
    let after = (merge_env writable "files" (("TOKEN", "new") ∷ []) store disk).0 in
    (lookup "TOKEN" (entry "files" after).env
      ≡ or_else (lookup "TOKEN" (("TOKEN", "new") ∷ [])) (lookup "TOKEN" (entry "files" store).env))
    × ((entry "files" after).templated_args ≡ (entry "files" store).templated_args)
    × (files ≢ git → get "git" after ≡ get "git" store)
unfolding lookup
merge_env_lem_example =
    merge_env_lem writable "files" (("TOKEN", "new") ∷ []) store disk (refl, tt) "TOKEN" "git"
