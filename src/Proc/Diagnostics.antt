-- ===== src/Proc/Diagnostics.antt =====
-- `ChildDiagnostics` of proc.rs: the stderr tail, the values to redact, and the exit flags.
pub mod Tail
pub mod Secrets
pub mod Values
use Prim.Native.Nat.{Ordering}
use Prim.Native.String.{compare}
use stdiod.Base.{
  ℕ, zero, suc, ◌+◌, ◌*◌, String, Bool, true, false, ◌||◌, Option, none, some, List, [], ◌∷◌, ◌++◌,
  ◌==◌, if◌then◌else◌, leb, ltb, length,
}
use stdiod.Base.Text.{byte_len, replace}
use stdiod.Proc.Sanitize.{sanitize_diagnostic_line}

abbrev pub stderr_tail_max_lines : ℕ
stderr_tail_max_lines = 20

abbrev pub stderr_tail_max_bytes : ℕ
stderr_tail_max_bytes = 8 * 1024

pub record ChildDiagnostics : Type 0 where
  pub stderr_tail : List String
  pub sensitive_values : List String
  pub exited : Bool
  pub reported : Bool
  pub stderr_done : Bool

-- `filter(|value| value.len() >= 4)`
unfoldable pub long_values : List String → List String
long_values [] = []
long_values (v ∷ vs) = let rest = long_values vs in if leb 4 (byte_len v) then v ∷ rest else rest

-- `sort` and the stable `sort_by_key(Reverse(len))`, by insertion.
unfoldable pub insert_by : (String → String → Bool) → String → List String → List String
insert_by before v [] = v ∷ []
insert_by before v (w ∷ ws) = if before v w then v ∷ w ∷ ws else w ∷ insert_by before v ws

unfoldable pub sort_by : (String → String → Bool) → List String → List String
sort_by before [] = []
sort_by before (v ∷ vs) = insert_by before v (sort_by before vs)

abbrev pub text_le : String → String → Bool
text_le v w = elim (compare v w) [ Ordering.gt ↦ false | _ ↦ true ]

abbrev pub longer_first : String → String → Bool
longer_first v w = leb (byte_len w) (byte_len v)

-- `dedup`: one of each run of equal values.
unfoldable pub dedup : List String → List String
dedup [] = []
dedup (v ∷ []) = v ∷ []
dedup (v ∷ w ∷ ws) = let rest = dedup (w ∷ ws) in if v == w then rest else v ∷ rest

unfoldable pub new : List String → ChildDiagnostics
new values = record {
  stderr_tail = [];
  sensitive_values = sort_by longer_first (dedup (sort_by text_le (long_values values)));
  exited = false;
  reported = false;
  stderr_done = false;
}

abbrev pub redacted : String
redacted = "[redacted]"

unfoldable pub redact : List String → String → String
redact [] line = line
redact (v ∷ vs) line = redact vs (replace line v redacted)

unfoldable pub total_bytes : List String → ℕ
total_bytes [] = 0
total_bytes (l ∷ ls) = byte_len l + total_bytes ls

-- The `while` loop that drops old lines: each round drops one, so the lines themselves bound it.
unfoldable pub trim_tail : List String → List String
trim_tail [] = []
trim_tail (l ∷ ls) =
    let shorter = trim_tail ls in
    if ltb stderr_tail_max_lines (length (l ∷ ls))
      || ltb stderr_tail_max_bytes (total_bytes (l ∷ ls))
    then shorter
    else l ∷ ls

unfoldable pub record_stderr : String → ChildDiagnostics → ChildDiagnostics × Option String
record_stderr line d = elim (sanitize_diagnostic_line (redact d.sensitive_values line)) [
  | none ↦ (d, none)
  | some clean ↦ (record d { stderr_tail = trim_tail (d.stderr_tail ++ clean ∷ []) }, some clean)
]

unfoldable pub mark_stderr_done : ChildDiagnostics → ChildDiagnostics
mark_stderr_done d = record d { stderr_done = true }
