-- ===== src/Proc/Search/Tests.antt =====
-- The search of a program on the merged paths of a login shell and of the daemon.
use stdiod.Base.{String, Bool, true, ◌≡◌, refl, some, or_else}
use stdiod.Proc.Search.{merge_paths, resolve_program}
use stdiod.Proc.Search.Merged.{resolve_program-merge_paths}

-- A host where every directory has the program.
abbrev everywhere : String → Bool
everywhere path = true

resolve_program-merge_paths_example :
    resolve_program everywhere "npx"
      (merge_paths (some "/home/me/.nvm/bin:/usr/bin/") (some "/usr/bin:/bin"))
    ≡ or_else
        (resolve_program everywhere "npx" "/home/me/.nvm/bin:/usr/bin/")
        (resolve_program everywhere "npx" "/usr/bin:/bin")
resolve_program-merge_paths_example =
    resolve_program-merge_paths everywhere "npx" (λ a b same. refl) "/home/me/.nvm/bin:/usr/bin/"
      (some "/usr/bin:/bin")
