-- ===== src/Proc/Diagnostics/Values.antt =====
-- The values that `ChildDiagnostics::new` keeps for redaction, and the output of a child's life.
use stdiod.Base.{
  ◌≤◌, String, ◌≡◌, refl, ◌∙◌, Bool, true, List, [], ◌∷◌, inl, inr, arith, Bool-cases, Option-cases,
  All, leb, ◌==◌, eq_iff,
}
use stdiod.Base.Text.{byte_len, utf8_width, chars, is_blank}
use stdiod.Proc.Sanitize.{sanitize_diagnostic_line}
use stdiod.Proc.Diagnostics.{
  ChildDiagnostics, long_values, sort_by, insert_by, dedup, text_le, longer_first, new, redact,
  record_stderr,
}
use stdiod.Proc.Diagnostics.Secrets.{IsSecret, Hides, has_value, none_blank, record_stderr-Hides}

chars-byte_len : (s : String) → chars s ≤ byte_len s
unfolding byte_len utf8_width
chars-byte_len Prim.Native.String.[] = omega arith
chars-byte_len (Prim.Native.String.◌∷◌ c s) = ground (arith, chars-byte_len s)

has_value-long_values :
    (v : String) (vs : List String)
    → leb 4 (byte_len v) ≡ true
    → has_value v vs ≡ true
    → has_value v (long_values vs) ≡ true
unfolding has_value long_values
has_value-long_values v [] l m = m
has_value-long_values v (w ∷ vs) l m = elim (Bool-cases (w == v)) [
  | inl same ↦
      let kept : leb 4 (byte_len w) ≡ true = rw ((eq_iff w v).0 same) l in rw kept (ground arith)
  | inr other ↦ ground (arith, has_value-long_values v vs)
]

has_value-insert_by :
    (before : String → String → Bool) (v w : String) (ws : List String)
    → has_value v (insert_by before w ws) ≡ has_value v (w ∷ ws)
unfolding has_value insert_by
has_value-insert_by before v w [] = refl
has_value-insert_by before v w (x ∷ ws) = ground (arith, has_value-insert_by before v w ws)

has_value-sort_by :
    (before : String → String → Bool) (v : String) (ws : List String)
    → has_value v (sort_by before ws) ≡ has_value v ws
unfolding has_value sort_by
has_value-sort_by before v [] = refl
has_value-sort_by before v (w ∷ ws) =
    has_value-insert_by before v w (sort_by before ws)
    ∙ ground (arith, has_value-sort_by before v ws)

has_value-dedup : (v : String) (ws : List String) → has_value v (dedup ws) ≡ has_value v ws
unfolding has_value dedup
has_value-dedup v [] = refl
has_value-dedup v (w ∷ []) = refl
has_value-dedup v (w ∷ x ∷ ws) = elim (Bool-cases (w == x)) [
  | inl same ↦ rw (same, (eq_iff w x).0 same) (has_value-dedup v (x ∷ ws) ∙ ground arith)
  | inr other ↦ rw other (ground (arith, has_value-dedup v (x ∷ ws)))
]

blank-byte_len : (w : String) → is_blank w ≡ true → byte_len w ≡ 0
unfolding byte_len
blank-byte_len Prim.Native.String.[] e = refl
blank-byte_len (Prim.Native.String.◌∷◌ c s) e = absurd (ground arith)

none_blank-long_values : (vs : List String) → none_blank (long_values vs) ≡ true
unfolding none_blank long_values
none_blank-long_values [] = refl
none_blank-long_values (w ∷ vs) = ground (arith, none_blank-long_values vs, blank-byte_len w)

none_blank-insert_by :
    (before : String → String → Bool) (w : String) (ws : List String)
    → none_blank (insert_by before w ws) ≡ none_blank (w ∷ ws)
unfolding none_blank insert_by
none_blank-insert_by before w [] = refl
none_blank-insert_by before w (x ∷ ws) = ground (arith, none_blank-insert_by before w ws)

none_blank-sort_by :
    (before : String → String → Bool) (ws : List String)
    → none_blank (sort_by before ws) ≡ none_blank ws
unfolding none_blank sort_by
none_blank-sort_by before [] = refl
none_blank-sort_by before (w ∷ ws) =
    none_blank-insert_by before w (sort_by before ws) ∙ ground (arith, none_blank-sort_by before ws)

none_blank-dedup : (ws : List String) → none_blank ws ≡ true → none_blank (dedup ws) ≡ true
unfolding none_blank dedup
none_blank-dedup [] e = e
none_blank-dedup (w ∷ []) e = e
none_blank-dedup (w ∷ x ∷ ws) e = ground (arith, none_blank-dedup (x ∷ ws))

-- The stderr of a child, line by line.
unfoldable pub record_lines : List String → ChildDiagnostics → ChildDiagnostics
record_lines [] d = d
record_lines (line ∷ lines) d = record_lines lines (record_stderr line d).0

same_values :
    (line : String) (d : ChildDiagnostics)
    → (record_stderr line d).0.sensitive_values ≡ d.sensitive_values
unfolding record_stderr
same_values line d =
    elim (Option-cases (sanitize_diagnostic_line (redact d.sensitive_values line))) [
      | inl e ↦ rw (e, record_stderr)
      | inr (clean, e) ↦ rw (e, record_stderr)
    ]

record_lines-Hides :
    (v : String) (lines : List String) (d : ChildDiagnostics)
    → IsSecret v
    → none_blank d.sensitive_values ≡ true
    → has_value v d.sensitive_values ≡ true
    → All (Hides v) d.stderr_tail
    → All (Hides v) (record_lines lines d).stderr_tail
unfolding record_lines
record_lines-Hides v [] d s h m tail = tail
record_lines-Hides v (line ∷ lines) d s h m tail =
    record_lines-Hides v lines (record_stderr line d).0 s (rw (same_values line d) h)
      (rw (same_values line d) m) (record_stderr-Hides line v d s h m tail)

-- Let `v` be longer than the word `redacted`, without brackets, and among the values given to a
-- child. Then whatever the child writes to stderr, no line of the kept tail shows `v`, except
-- that the line is one of the two fixed texts that the sanitizer puts in place of a line.
pub record_lines_lem :
    (values lines : List String) (v : String)
    → IsSecret v
    → has_value v values ≡ true
    → All (Hides v) (record_lines lines (new values)).stderr_tail
unfolding new
record_lines_lem values lines v s m =
    let long : leb 4 (byte_len v) ≡ true =
      (let c = s.clean.longer in ground (arith, chars-byte_len v)) in
    record_lines-Hides v lines (new values) s
      (none_blank-sort_by longer_first _
        ∙ none_blank-dedup _ (none_blank-sort_by text_le _ ∙ none_blank-long_values values))
      (has_value-sort_by longer_first v _
        ∙ has_value-dedup v _
        ∙ has_value-sort_by text_le v _
        ∙ has_value-long_values v values long m)
      tt
