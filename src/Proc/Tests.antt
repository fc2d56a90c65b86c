-- ===== src/Proc/Tests.antt =====
-- The theorems on a child's diagnostics at a short output.
use stdiod.Base.Text.{
  trim, trim_start, trim_end, trim_last, is_whitespace, contains, contains_lower, has_prefix,
  has_prefix_lower, lower_code, take_chars,
}
use stdiod.Proc.Sanitize.{
  sanitize_diagnostic_line, sanitize_trimmed, any_marker, has_url_userinfo, looks_like_jwt,
  after_scheme, count_dots, authority_has_at,
}
use stdiod.Base.{true}
use stdiod.Protocol.{null}
use stdiod.Proc.{not_reaped, without_code}
use stdiod.Proc.Pumps.{stdout_pump, value, not_json, stdin_pump, written, failed}
use stdiod.Proc.Pumps.Offline.{Reports, connected_to, stdout_pump-once}
use stdiod.Proc.Diagnostics.{redact, long_values, sort_by, dedup}
use stdiod.Base.{refl, [], ◌∷◌, All, arith}
use stdiod.Proc.Diagnostics.{new, record_stderr}
use stdiod.Proc.Diagnostics.Secrets.{IsSecret, Hides, has_value}
use stdiod.Proc.Diagnostics.Tail.{IsTail, record_stderr_lem}
use stdiod.Proc.Diagnostics.Values.{record_lines, record_lines_lem}

password-IsSecret : IsSecret "hunter2-hunter2"
password-IsSecret = record {
  clean = record { no_open = ground arith; no_close = ground arith; longer = omega arith };
}

record_lines_lem_example :
    All
      (Hides "hunter2-hunter2")
      (record_lines
        ("login hunter2-hunter2" ∷ "ready" ∷ [])
        (new ("hunter2-hunter2" ∷ []))).stderr_tail
unfolding has_value
record_lines_lem_example =
    record_lines_lem ("hunter2-hunter2" ∷ []) ("login hunter2-hunter2" ∷ "ready" ∷ [])
      "hunter2-hunter2" password-IsSecret refl

record_stderr_lem_example :
    IsTail ("ready" ∷ []) "ready" (record_stderr "ready" (new [])).0.stderr_tail
unfolding record_stderr redact new long_values sort_by dedup sanitize_diagnostic_line
    sanitize_trimmed any_marker has_url_userinfo looks_like_jwt after_scheme count_dots
    authority_has_at trim trim_start trim_end trim_last is_whitespace contains contains_lower
    has_prefix has_prefix_lower lower_code take_chars
record_stderr_lem_example = record_stderr_lem "ready" "ready" (new []) refl

stdout_pump-once_example : Reports 1 true [] (
    stdout_pump "files" without_code
      (value null ∷ not_json ∷ [])
      (stdin_pump "files" not_reaped (written ∷ failed ∷ []) (new [], connected_to [])))
unfolding new
stdout_pump-once_example =
    stdout_pump-once "files" not_reaped without_code (written ∷ failed ∷ [])
      (value null ∷ not_json ∷ []) (new []) [] refl
