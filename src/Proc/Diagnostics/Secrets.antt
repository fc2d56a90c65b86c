-- ===== src/Proc/Diagnostics/Secrets.antt =====
-- The tail of a child's stderr does not show the values that were given to the child.
use stdiod.Base.{some_inj}
use stdiod.Base.{
  String, ◌≡◌, Bool, true, false, List, [], ◌∷◌, ◌++◌, ◌⊎◌, inl, inr, Option, none, some, arith,
  ◌&&◌, ◌||◌, ltb, length, Bool-cases, Option-cases, if◌then◌else◌, if_rule, All, All-append, sym,
  ◌==◌, eq_iff,
}
use stdiod.Base.Text.{append, contains, replace, is_blank, take_chars, trim}
use stdiod.Base.Text.Parts.{contains-take_chars, contains-trim}
use stdiod.Base.Text.Redaction
use stdiod.Base.Text.Redaction.{contains-replace, contains-replace_self}
use stdiod.Proc.Sanitize.{
  any_marker, markers, has_url_userinfo, looks_like_jwt, sanitize_diagnostic_line, sanitize_trimmed,
  redacted_output, redacted_url, stderr_line_max_chars,
}
use stdiod.Proc.Diagnostics.{
  ChildDiagnostics, redact, record_stderr, trim_tail, total_bytes, stderr_tail_max_lines,
  stderr_tail_max_bytes,
}

-- Longer than the word `redacted` and without brackets, so that no such text can overlap or lie in
-- the mark that replaces the sensitive values.
pub record IsSecret (v : String) : Type 0 where
  pub clean : Redaction.IsClean "[" "]" "redacted" v

-- A stored line shows a text only where it is one of the fixed lines of the sanitizer.
abbrev pub Hides : String → String → Type 0
Hides v line = contains v line ≡ true → (line ≡ redacted_output) ⊎ (line ≡ redacted_url)

-- Membership by the program's equality.
unfoldable pub has_value : String → List String → Bool
has_value v [] = false
has_value v (w ∷ ws) = if w == v then true else has_value v ws

-- Each value has at least one character.
unfoldable pub none_blank : List String → Bool
none_blank [] = true
none_blank (v ∷ vs) = if is_blank v then false else none_blank vs

contains-redact :
    (vs : List String) (line v : String)
    → IsSecret v
    → none_blank vs ≡ true
    → contains v (redact vs line) ≡ true
    → contains v line ≡ true
unfolding redact none_blank append
contains-redact [] line v s h e = e
contains-redact (w ∷ vs) line v s h e =
    contains-replace "[" "]" "redacted" line w v (ground arith) s.clean
      (contains-redact vs (replace line w "[redacted]") v s (ground arith) e)

contains-redact_own :
    (vs : List String) (line v : String)
    → IsSecret v
    → none_blank vs ≡ true
    → has_value v vs ≡ true
    → contains v (redact vs line) ≡ false
unfolding redact none_blank has_value append
contains-redact_own [] line v s h m = absurd (ground arith)
contains-redact_own (w ∷ vs) line v s h m = elim (Bool-cases (w == v)) [
  | inl same ↦
      let gone : contains v (replace line w "[redacted]") ≡ false =
        rw ((eq_iff w v).0 same) (contains-replace_self "[" "]" "redacted" line v s.clean) in
      ground (arith, gone, contains-redact vs (replace line w "[redacted]") v s)
  | inr other ↦
      contains-redact_own vs (replace line w "[redacted]") v s (ground arith) (rw other at m)
]

-- The sanitizer shows no text that its input did not have, but for its two fixed lines.
sanitize_trimmed-Hides :
    (trimmed v clean : String)
    → contains v trimmed ≡ false
    → sanitize_trimmed trimmed ≡ some clean
    → Hides v clean
unfolding sanitize_trimmed
sanitize_trimmed-Hides trimmed v clean h =
    let output = some redacted_output in
    let cut = some (take_chars stderr_line_max_chars trimmed) in
    let P : Option String → Type 0 = λ r. r ≡ some clean → Hides v clean in
    let fixed : P output = λ e _. inl (sym (some_inj e)) in
    let is_url = contains "://" trimmed && contains "?" trimmed in
    let is_token = has_url_userinfo trimmed || looks_like_jwt trimmed in
    let third : Option String = if is_url then some redacted_url else cut in
    let second : Option String = if is_token then output else third in
    let first : Option String = if any_marker markers trimmed then output else second in
    if_rule P (is_blank trimmed) none first (λ _ e. cc)
      λ _.
        if_rule P (any_marker markers trimmed) output second (λ _. fixed)
          λ _.
            if_rule P is_token output third (λ _. fixed)
              λ _.
                if_rule P is_url (some redacted_url) cut (λ _ e _. inr (sym (some_inj e)))
                  λ _ e shown. absurd (
                    let whole =
                      contains-take_chars stderr_line_max_chars v trimmed (rw (some_inj e) shown) in
                    ground arith)

trim_tail-All : (P : String → Type 0) (ls : List String) → All P ls → All P (trim_tail ls)
unfolding trim_tail
trim_tail-All P [] a = a
trim_tail-All P (l ∷ ls) a =
    if_rule (All P)
      (ltb stderr_tail_max_lines (length (l ∷ ls))
        || ltb stderr_tail_max_bytes (total_bytes (l ∷ ls)))
      (trim_tail ls) (l ∷ ls) (λ _. trim_tail-All P ls a.1) (λ _. a)

pub record_stderr-Hides :
    (line v : String) (d : ChildDiagnostics)
    → IsSecret v
    → none_blank d.sensitive_values ≡ true
    → has_value v d.sensitive_values ≡ true
    → All (Hides v) d.stderr_tail
    → All (Hides v) (record_stderr line d).0.stderr_tail
unfolding record_stderr sanitize_diagnostic_line
record_stderr-Hides line v d s h m tail =
    let kept = trim_tail-All (Hides v) in
    elim (Option-cases (sanitize_diagnostic_line (redact d.sensitive_values line))) [
      | inl e ↦ rw (e, record_stderr) tail
      | inr (clean, e) ↦
          rw (e, record_stderr)
            (kept (d.stderr_tail ++ clean ∷ []) (
              All-append (Hides v) d.stderr_tail (clean ∷ []) tail (
                sanitize_trimmed-Hides (trim (redact d.sensitive_values line)) v clean
                    (let own = contains-redact_own d.sensitive_values line v s h m in
                      ground (arith, contains-trim v (redact d.sensitive_values line)))
                    e,
                tt,
              )))
    ]
