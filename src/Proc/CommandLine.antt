-- ===== src/Proc/CommandLine.antt =====
-- crates/edison-stdiod/src/proc.rs: the module `win`, which finds the program of a child and quotes the command
-- line of a batch file. What the host's files are is an argument.
pub mod Quoting
pub mod Tests
use Prim.Native.Char.{Char, code}
use stdiod.Base.{
  ℕ, String, Bool, true, false, ◌&&◌, ◌||◌, not, Option, none, some, is_some, List, [], ◌∷◌, ◌++◌,
  map, value_or, if◌then◌else◌, eqb, ltb, leb,
}
use stdiod.Base.{◌==◌}
use stdiod.Base.Text.{append, contains, is_blank, replace}
use stdiod.Proc.Search.{split_at}

-- `" \t\"&|<>^()".contains(c)`
unfoldable pub is_special : Char → Bool
is_special c =
    eqb (code c) 32
    || eqb (code c) 9
    || eqb (code c) 34
    || eqb (code c) 38
    || eqb (code c) 124
    || eqb (code c) 60
    || eqb (code c) 62
    || eqb (code c) 94
    || eqb (code c) 40
    || eqb (code c) 41

unfoldable pub any_special : String → Bool
any_special String.[] = false
any_special (String.◌∷◌ c s) = is_special c || any_special s

-- `s.replace('"', "\"\"")`
unfoldable pub double_quotes : String → String
double_quotes String.[] = ""
double_quotes (String.◌∷◌ c s) =
    let rest = double_quotes s in
    if eqb (code c) 34 then String.◌∷◌ c (String.◌∷◌ c rest) else String.◌∷◌ c rest

unfoldable pub cmd_quote : String → String
cmd_quote s =
    if not (is_blank s) && not (any_special s)
    then s
    else append "\"" (append (double_quotes s) "\"")

-- `parts.join(" ")`
unfoldable pub unwords : List String → String
unwords [] = ""
unwords (part ∷ []) = part
unwords (part ∷ next ∷ rest) = append part (append " " (unwords (next ∷ rest)))

unfoldable pub build_cmd_line : String → List String → String
build_cmd_line program args = unwords (map cmd_quote (program ∷ args))

-- The command of a child: its program, its raw arguments, and those that the library quotes.
pub record Command : Type 0 where
  pub program : String
  pub raw_args : List String
  pub args : List String

-- The parts of a path on Windows that the program looks at, and its files.
pub record Paths : Type 0 where
  pub is_absolute : String → Bool
  pub is_file : String → Bool
  pub is_dir : String → Bool
  pub extension : String → Option String
  pub parent : String → Option String
  pub join : String → String → String
  pub split_paths : String → List String

unfoldable pub lower_ascii : String → String
lower_ascii String.[] = ""
lower_ascii (String.◌∷◌ c s) =
    append (lower_letter (code c) "abcdefghijklmnopqrstuvwxyz") (lower_ascii s)
  where
    -- The letter with this place in the alphabet, if the code is of a capital one.
    nth_letter : ℕ → String → String
    nth_letter n String.[] = String.◌∷◌ c ""
    nth_letter Prim.Native.Nat.zero (String.◌∷◌ l letters) = String.◌∷◌ l ""
    nth_letter (Prim.Native.Nat.suc n) (String.◌∷◌ l letters) = nth_letter n letters

    lower_letter : ℕ → String → String
    lower_letter n letters =
        if leb 65 n && leb n 90
        then nth_letter (Prim.Native.Nat.◌-◌ n 65) letters
        else String.◌∷◌ c ""

-- `pathext`, by the value of the variable.
unfoldable pub pathext : Option String → List String
pathext variable = kept (split_at 59 (value_or variable ".COM;.EXE;.BAT;.CMD"))
  where
    kept : List String → List String
    kept [] = []
    kept (s ∷ more) = if is_blank s then kept more else lower_ascii s ∷ kept more

unfoldable pub is_batch : Paths → String → Bool
is_batch paths path = elim (paths.extension path) [
  | none ↦ false
  | some e ↦ lower_ascii e == "cmd" || lower_ascii e == "bat"
]

-- The first of the names in a directory that is a file.
unfoldable pub first_file : Paths → String → List String → Option String
first_file paths dir [] = none
first_file paths dir (name ∷ more) =
    let later = first_file paths dir more in
    if paths.is_file (paths.join dir name) then some (paths.join dir name) else later

unfoldable pub first_dir : Paths → List String → List String → Option String
first_dir paths file_names [] = none
first_dir paths file_names (dir ∷ more) = elim (first_file paths dir file_names) [
  | some found ↦ some found
  | none ↦ first_dir paths file_names more
]

-- `resolve_program` on Windows: a name with an extension is taken as it is, one without gets each
-- extension of PATHEXT in turn.
unfoldable pub resolve_program : Paths → Option String → String → String → Option String
resolve_program paths variable program path =
    if paths.is_absolute program && paths.is_file program
    then some program
    else first_dir paths
        (if is_some (paths.extension program)
          then program ∷ []
          else map (append program) (pathext variable))
        (paths.split_paths path)

-- `bundled_runtime_dirs`: the runtimes beside the daemon's directory that are there.
unfoldable pub bundled_runtime_dirs : Paths → Option String → List String
bundled_runtime_dirs paths exe = existing (bases (parent_of exe))
  where
    parent_of : Option String → Option String
    parent_of none = none
    parent_of (some path) = paths.parent path

    base_of : Option String → List String
    base_of none = []
    base_of (some dir) = paths.join dir "runtimes" ∷ []

    bases : Option String → List String
    bases none = []
    bases (some bin) = base_of (some bin) ++ base_of (paths.parent bin)

    if_there : String → List String → List String
    if_there dir rest = if paths.is_dir dir then dir ∷ rest else rest

    existing : List String → List String
    existing [] = []
    existing (base ∷ more) =
        if_there (paths.join base "node") (if_there (paths.join base "uv") (existing more))

-- `augmented_path` on Windows: the directories after the daemon's path.
unfoldable pub append_dirs : String → List String → String
append_dirs path [] = path
append_dirs path (dir ∷ more) =
    append_dirs (append (if is_blank path then path else append path ";") dir) more

unfoldable pub augmented_path : Paths → (path exe : Option String) → String
augmented_path paths path exe = append_dirs (value_or path "") (bundled_runtime_dirs paths exe)

-- The command of a child on Windows: a batch file runs through cmd.exe.
unfoldable pub child_command :
    Paths → (variable path exe : Option String) → String → List String → Command
child_command paths variable path exe program args =
    elim (resolve_program paths variable program (augmented_path paths path exe)) [
      | none ↦ record { program = program; raw_args = []; args = args }
      | some found ↦
          if is_batch paths found
          then record {
            program = "cmd";
            raw_args =
                "/d" ∷ "/s" ∷ "/c" ∷ append "\"" (append (build_cmd_line found args) "\"") ∷ [];
            args = [];
          }
          else record { program = found; raw_args = []; args = args }
    ]
