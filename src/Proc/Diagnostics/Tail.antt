-- ===== src/Proc/Diagnostics/Tail.antt =====
-- The stderr tail stays within its bounds and always ends with the newest line.
use stdiod.Base.{some_inj}
use stdiod.Base.{
  ℕ, suc, zero, ◌+◌, ◌*◌, ◌≤◌, String, ◌≡◌, refl, ◌∙◌, ap, true, ◌||◌, ◌&&◌, List, [], ◌∷◌, ◌++◌,
  inl, inr, Option, some, none, arith, Option-cases, if◌then◌else◌, if_rule, length, leb, ltb,
}
use stdiod.Base.Text.{byte_len, utf8_width, take_chars, trim, is_blank, contains}
use stdiod.Proc.Sanitize.{
  any_marker, markers, has_url_userinfo, looks_like_jwt, sanitize_diagnostic_line, sanitize_trimmed,
  redacted_output, redacted_url, stderr_line_max_chars,
}
use stdiod.Proc.Diagnostics.{
  ChildDiagnostics, redact, record_stderr, trim_tail, total_bytes, stderr_tail_max_lines,
  stderr_tail_max_bytes,
}

-- At most 20 lines and 8192 bytes, the newest of `all` in their order, and the last among them.
pub record IsTail (all : List String) (last : String) (kept : List String) : Type 0 where
  pub few_lines : length kept ≤ stderr_tail_max_lines
  pub few_bytes : total_bytes kept ≤ stderr_tail_max_bytes
  pub dropped : List String
  pub is_suffix : dropped ++ kept ≡ all
  pub earlier : List String
  pub ends_with : kept ≡ earlier ++ last ∷ []

byte_len-take_chars : (n : ℕ) (s : String) → byte_len (take_chars n s) ≤ 4 * n
unfolding byte_len take_chars utf8_width
byte_len-take_chars zero s = omega arith
byte_len-take_chars (suc n) Prim.Native.String.[] = omega arith
byte_len-take_chars (suc n) (Prim.Native.String.◌∷◌ c s) = ground (arith, byte_len-take_chars n s)

trim_tail-IsTail :
    (ls : List String) (last : String)
    → byte_len last ≤ stderr_tail_max_bytes
    → IsTail (ls ++ last ∷ []) last (trim_tail (ls ++ last ∷ []))
unfolding trim_tail total_bytes
trim_tail-IsTail [] last h =
    if_rule (IsTail (last ∷ []) last) (ltb stderr_tail_max_bytes (byte_len last + 0)) [] (last ∷ [])
      (λ e. absurd (ground arith))
      (λ e. record {
        few_lines = omega arith;
        few_bytes = ground arith;
        dropped = [];
        is_suffix = refl;
        earlier = [];
        ends_with = refl;
      })
trim_tail-IsTail (l ∷ ls) last h =
    let all : List String = l ∷ (ls ++ last ∷ []) in
    let rest = trim_tail-IsTail ls last h in
    if_rule (IsTail all last)
      (ltb stderr_tail_max_lines (length all) || ltb stderr_tail_max_bytes (total_bytes all))
      (trim_tail (ls ++ last ∷ [])) all
      (λ _. record {
        few_lines = rest.few_lines;
        few_bytes = rest.few_bytes;
        dropped = l ∷ rest.dropped;
        is_suffix = ap (λ t. l ∷ t) rest.is_suffix;
        earlier = rest.earlier;
        ends_with = rest.ends_with;
      })
      (λ e. record {
        few_lines = ground arith;
        few_bytes = ground arith;
        dropped = [];
        is_suffix = refl;
        earlier = l ∷ ls;
        ends_with = refl;
      })

sanitize_trimmed-byte_len :
    (trimmed clean : String)
    → sanitize_trimmed trimmed ≡ some clean
    → byte_len clean ≤ stderr_tail_max_bytes
unfolding sanitize_trimmed byte_len
sanitize_trimmed-byte_len trimmed clean =
    let P : Option String → Type 0 = λ r. r ≡ some clean → byte_len clean ≤ stderr_tail_max_bytes in
    let output = some redacted_output in
    let cut = some (take_chars stderr_line_max_chars trimmed) in
    let is_url = contains "://" trimmed && contains "?" trimmed in
    let is_token = has_url_userinfo trimmed || looks_like_jwt trimmed in
    let third : Option String = if is_url then some redacted_url else cut in
    let second : Option String = if is_token then output else third in
    let first : Option String = if any_marker markers trimmed then output else second in
    let fixed : P output = λ e. fixed_line redacted_output clean refl (some_inj e) in
    if_rule P (is_blank trimmed) none first (λ _ e. cc)
      λ _.
        if_rule P (any_marker markers trimmed) output second (λ _. fixed)
          λ _.
            if_rule P is_token output third (λ _. fixed)
              λ _.
                if_rule P is_url (some redacted_url) cut
                  (λ _ e. fixed_line redacted_url clean refl (some_inj e))
                  λ _ e.
                    rw (← some_inj e)
                      (omega (arith, byte_len-take_chars stderr_line_max_chars trimmed))
  where
    fixed_line :
        (line clean : String)
        → leb (byte_len line) 100 ≡ true
        → line ≡ clean
        → byte_len clean ≤ stderr_tail_max_bytes
    fixed_line line clean h e = rw (← e) (ground arith)

-- Each line that is stored leaves the tail within 20 lines and 8192 bytes, as the newest of the
-- lines so far in their order, and the tail ends with the line itself: it is never dropped.
pub record_stderr_lem :
    (line clean : String) (d : ChildDiagnostics)
    → (record_stderr line d).1 ≡ some clean
    → IsTail (d.stderr_tail ++ clean ∷ []) clean (record_stderr line d).0.stderr_tail
unfolding record_stderr sanitize_diagnostic_line
record_stderr_lem line clean d stored =
    elim (Option-cases (sanitize_diagnostic_line (redact d.sensitive_values line))) [
      | inl e ↦ absurd (let e' : none ≡ some clean = rw (e, record_stderr) at stored in cc)
      | inr (c, e) ↦
          let same : c ≡ clean = some_inj (rw (e, record_stderr) at stored) in
          rw (e, record_stderr, same)
            (trim_tail-IsTail d.stderr_tail clean (
              sanitize_trimmed-byte_len (trim (redact d.sensitive_values line)) clean
                (e ∙ rw same)))
    ]
