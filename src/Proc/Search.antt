-- ===== src/Proc/Search.antt =====
-- crates/edison-stdiod/src/proc.rs: the module `linux`, which finds the program of a child. `is_executable` is
-- the check on the file, an argument.
pub mod Pieces
pub mod Merged
pub mod Tests
use Prim.Native.Char.{Char, code}
use stdiod.Base.{
  ℕ, String, Bool, true, false, ◌&&◌, ◌||◌, not, Option, none, some, List, [], ◌∷◌, ◌++◌, value_or,
  if◌then◌else◌, eqb,
}
use stdiod.Base.{◌==◌}
use stdiod.Base.Text.{append, contains, has_prefix, is_blank}

-- A text put before the first of the pieces.
unfoldable pub onto_first : String → List String → List String
onto_first s [] = s ∷ []
onto_first s (piece ∷ rest) = append s piece ∷ rest

-- A text, cut at each character of this code.
unfoldable pub split_at : ℕ → String → List String
split_at mark String.[] = "" ∷ []
split_at mark (String.◌∷◌ c s) =
    let rest = split_at mark s in
    if eqb (code c) mark then "" ∷ rest else onto_first (String.◌∷◌ c "") rest

-- `std::env::split_paths`
unfoldable pub split_paths : String → List String
split_paths s = split_at 58 s

unfoldable pub joined : List String → String
joined [] = ""
joined (dir ∷ []) = dir
joined (dir ∷ next ∷ rest) = append dir (append ":" (joined (next ∷ rest)))

unfoldable pub has_colon : String → Bool
has_colon String.[] = false
has_colon (String.◌∷◌ c s) = eqb (code c) 58 || has_colon s

unfoldable pub any_colon : List String → Bool
any_colon [] = false
any_colon (dir ∷ rest) = has_colon dir || any_colon rest

-- `std::env::join_paths`, which refuses a path with a colon, and `unwrap_or_default`.
unfoldable pub join_paths : List String → String
join_paths dirs = if any_colon dirs then "" else joined dirs

-- The components of a path: whether it starts at the root, and its names, without empty ones and dots.
unfoldable pub names : List String → List String
names [] = []
names (name ∷ rest) =
    let more = names rest in if is_blank name || name == "." then more else name ∷ more

unfoldable pub components : String → Bool × Bool × List String
components path =
    (has_prefix "/" path, path == "." || has_prefix "./" path, names (split_at 47 path))

unfoldable pub same_names : List String → List String → Bool
same_names [] [] = true
same_names [] (t ∷ ts) = false
same_names (s ∷ ss) [] = false
same_names (s ∷ ss) (t ∷ ts) = s == t && same_names ss ts

same_bool : Bool → Bool → Bool
same_bool true b = b
same_bool false b = not b

-- `PathBuf: Eq`
unfoldable pub same_path : String → String → Bool
unfolding same_bool
same_path a b =
    let (root_a, dot_a, names_a) = components a in
    let (root_b, dot_b, names_b) = components b in
    same_bool root_a root_b && same_bool dot_a dot_b && same_names names_a names_b

-- The set `seen` holds the directories collected so far.
unfoldable pub is_seen : String → List String → Bool
is_seen dir [] = false
is_seen dir (first ∷ rest) = same_path dir first || is_seen dir rest

-- The inner loop of `merge_paths`.
unfoldable pub collect : List String → List String → List String
collect dirs [] = dirs
collect dirs (dir ∷ more) = collect (if is_seen dir dirs then dirs else dirs ++ (dir ∷ [])) more

unfoldable pub collect_some : List String → Option String → List String
collect_some dirs none = dirs
collect_some dirs (some src) = collect dirs (split_paths src)

unfoldable pub merge_paths : Option String → Option String → String
merge_paths primary secondary = join_paths (collect_some (collect_some [] primary) secondary)

-- What the login shell printed between the markers, if it is not empty. `none` stands for a shell that
-- failed or ran too long.
unfoldable pub split_once : String → String → Option (String × String)
split_once mark String.[] = if is_blank mark then some ("", "") else none
split_once mark (String.◌∷◌ c s) =
    let later = split_once mark s in
    if has_prefix mark (String.◌∷◌ c s)
    then some ("", drop_prefix mark (String.◌∷◌ c s))
    else before c later
  where
    drop_prefix : String → String → String
    drop_prefix String.[] t = t
    drop_prefix (String.◌∷◌ m mark) String.[] = ""
    drop_prefix (String.◌∷◌ m mark) (String.◌∷◌ d t) = drop_prefix mark t

    before : Char → Option (String × String) → Option (String × String)
    before c none = none
    before c (some (head, tail)) = some (String.◌∷◌ c head, tail)

unfoldable pub login_shell_path : Option String → Option String
login_shell_path none = none
login_shell_path (some stdout) = elim (split_once "__EW_PATH_START__" stdout) [
  | none ↦ none
  | some (banner, rest) ↦ elim (split_once "__EW_PATH_END__" rest) [
    | none ↦ none
    | some (path, after) ↦ if is_blank path then none else some path
  ]
]

-- The path for children: what `init_augmented_path` stored, or the daemon's own.
unfoldable pub augmented_path : Option String → Option String → String
augmented_path cached path = elim cached [ some p ↦ p | none ↦ value_or path "" ]

unfoldable pub init_augmented_path : Option String → (stdout path : Option String) → Option String
init_augmented_path (some cached) stdout path = some cached
init_augmented_path none stdout path = some (merge_paths (login_shell_path stdout) path)

-- `Path::join` with a relative name.
unfoldable pub ends_with_slash : String → Bool
ends_with_slash String.[] = false
ends_with_slash (String.◌∷◌ c String.[]) = eqb (code c) 47
ends_with_slash (String.◌∷◌ c (String.◌∷◌ d s)) = ends_with_slash (String.◌∷◌ d s)

unfoldable pub join_path : String → String → String
join_path dir name =
    if is_blank dir || ends_with_slash dir then append dir name else append dir (append "/" name)

module _ (is_executable : String → Bool) (program : String) where
  -- The first directory with the program.
  unfoldable pub find_in : List String → Option String
  find_in [] = none
  find_in (dir ∷ rest) =
      let later = find_in rest in
      if is_executable (join_path dir program) then some (join_path dir program) else later

  unfoldable pub resolve_program : String → Option String
  resolve_program path = if contains "/" program then some program else find_in (split_paths path)
