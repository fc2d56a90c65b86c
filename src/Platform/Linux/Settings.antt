-- ===== src/Platform/Linux/Settings.antt =====
-- What systemd reads in the unit file.
use Prim.Native.Char.{Char, code}
use stdiod.Base.{
  String, Bool, true, ◌&&◌, not, ◌≡◌, refl, ◌∙◌, ap, Option, none, some, List, [], ◌∷◌,
  if◌then◌else◌, eqb, arith,
}
use stdiod.Base.Text.{append}
use stdiod.Platform.Linux.{render_unit}

-- A character put before the first line.
unfoldable pub onto_line : Char → List String → List String
onto_line c [] = String.◌∷◌ c "" ∷ []
onto_line c (line ∷ lines) = String.◌∷◌ c line ∷ lines

unfoldable pub lines : String → List String
lines String.[] = "" ∷ []
lines (String.◌∷◌ c s) =
    let rest = lines s in if eqb (code c) 10 then "" ∷ rest else onto_line c rest

unfoldable pub is_line : String → Bool
is_line String.[] = true
is_line (String.◌∷◌ c s) = not (eqb (code c) 10) && is_line s

-- The text after a prefix.
unfoldable pub after_prefix : String → String → Option String
after_prefix String.[] s = some s
after_prefix (String.◌∷◌ c p) String.[] = none
after_prefix (String.◌∷◌ c p) (String.◌∷◌ d s) =
    let rest = after_prefix p s in if eqb (code c) (code d) then rest else none

-- The values that the lines give a setting, in their order.
unfoldable pub values_of : String → List String → List String
values_of key [] = []
values_of key (line ∷ more) = elim (after_prefix (append key "=") line) [
  | some value ↦ value ∷ values_of key more
  | none ↦ values_of key more
]

-- A text put before the first line.
unfoldable pub text_onto : String → List String → List String
text_onto String.[] lines = lines
text_onto (String.◌∷◌ c s) lines = onto_line c (text_onto s lines)

pub lines-append : (s t : String) → is_line s ≡ true → lines (append s t) ≡ text_onto s (lines t)
unfolding lines append is_line text_onto
lines-append String.[] t h = refl
lines-append (String.◌∷◌ c s) t h = ground (arith, lines-append s t)

pub text_onto-first :
    (s line : String) (more : List String) → text_onto s (line ∷ more) ≡ append s line ∷ more
unfolding text_onto append onto_line
text_onto-first String.[] line more = refl
text_onto-first (String.◌∷◌ c s) line more = ap (onto_line c) (text_onto-first s line more)

-- What the unit says of the program and its log, read line by line.
pub record IsService (binary log unit : String) : Type 0 where
  pub starts : values_of "ExecStart" (lines unit) ≡ append "\"" (append binary "\" run") ∷ []
  pub restarts : values_of "Restart" (lines unit) ≡ "on-failure" ∷ []
  pub output : values_of "StandardOutput" (lines unit) ≡ append "append:" log ∷ []
  pub errors : values_of "StandardError" (lines unit) ≡ append "append:" log ∷ []
  pub wanted : values_of "WantedBy" (lines unit) ≡ "default.target" ∷ []

append-nothing : (s : String) → append s "" ≡ s
unfolding append
append-nothing String.[] = refl
append-nothing (String.◌∷◌ c s) = ap (λ t. String.◌∷◌ c t) (append-nothing s)

-- A value at the end of its line, with the rest of the text from the next line on.
value_line :
    (value t : String) (more : List String)
    → is_line value ≡ true
    → lines t ≡ "" ∷ more
    → lines (append value t) ≡ value ∷ more
value_line value t more h e =
    lines-append value t h
    ∙ ap (text_onto value) e
    ∙ text_onto-first value "" more
    ∙ ap (λ line. line ∷ more) (append-nothing value)

abbrev install_lines : List String
install_lines = "" ∷ "[Install]" ∷ "WantedBy=default.target" ∷ "" ∷ []

abbrev service_lines : String → List String
service_lines log =
    "Restart=on-failure"
    ∷ "RestartSec=5"
    ∷ "Environment=PATH=%h/.local/bin:%h/bin:/usr/local/bin:/usr/bin:/bin:/usr/local/sbin:/usr/sbin:/sbin"
    ∷ append "StandardOutput=append:" log
    ∷ append "StandardError=append:" log
    ∷ install_lines

abbrev before_program : List String → List String
before_program rest =
    "[Unit]" ∷ "Description=Edison Watch stdio tunnel daemon" ∷ "Documentation=https://edison.watch"
    ∷ "After=network-online.target" ∷ "Wants=network-online.target" ∷ "" ∷ "[Service]"
    ∷ "Type=simple" ∷ rest

lines-render_unit :
    (binary log : String)
    → is_line binary ≡ true
    → is_line log ≡ true
    → lines (render_unit binary log)
      ≡ before_program (append "ExecStart=\"" (append binary "\" run") ∷ service_lines log)
unfolding render_unit lines append onto_line text_onto
lines-render_unit binary log b l =
    let log_errors : lines (append log "\n\n[Install]\nWantedBy=default.target\n")
        ≡ log ∷ install_lines =
      value_line log _ install_lines l refl in
    let log_output : lines (
          append log (
            append "\nStandardError=append:"
              (append log "\n\n[Install]\nWantedBy=default.target\n")))
        ≡ log ∷ append "StandardError=append:" log ∷ install_lines =
      value_line log _ _ l (ap (λ ls. "" ∷ text_onto "StandardError=append:" ls) log_errors) in
    ap (λ ls. before_program (text_onto "ExecStart=\"" ls))
      (lines-append binary _ b
        ∙ ap
            (λ ls. text_onto binary (
              "\" run"
              ∷ "Restart=on-failure"
              ∷ "RestartSec=5"
              ∷ "Environment=PATH=%h/.local/bin:%h/bin:/usr/local/bin:/usr/bin:/bin:/usr/local/sbin:/usr/sbin:/sbin"
              ∷ text_onto "StandardOutput=append:" ls))
            log_output
        ∙ text_onto-first binary "\" run" (service_lines log))

-- The unit starts this program, restarts it, and appends both outputs to this log.
pub render_unit-IsService :
    (binary log : String)
    → is_line binary ≡ true
    → is_line log ≡ true
    → IsService binary log (render_unit binary log)
unfolding values_of after_prefix append
render_unit-IsService binary log b l =
    let read = lines-render_unit binary log b l in
    record {
      starts = ap (values_of "ExecStart") read;
      restarts = ap (values_of "Restart") read;
      output = ap (values_of "StandardOutput") read;
      errors = ap (values_of "StandardError") read;
      wanted = ap (values_of "WantedBy") read;
    }
