-- ===== src/Proc/Sanitize.antt =====
-- `sanitize_diagnostic_line` of proc.rs, and what it lets through.
use stdiod.Base.{
  ℕ, suc, String, Bool, false, ◌&&◌, ◌||◌, Option, none, some, List, [], ◌∷◌, if◌then◌else◌, eqb,
  leb,
}
use Prim.Native.Char.{code}
use stdiod.Base.Text.{trim, contains, contains_lower, has_prefix, take_chars, is_blank}

abbrev pub stderr_line_max_chars : ℕ
stderr_line_max_chars = 500

abbrev pub markers : List String
markers =
    "authorization" ∷ "bearer " ∷ "token" ∷ "secret" ∷ "password" ∷ "api_key" ∷ "apikey" ∷ "api-key"
    ∷ "cookie" ∷ "credential" ∷ "private key" ∷ "access_key" ∷ "access-key" ∷ "session_key" ∷ "ghp_"
    ∷ "github_pat_" ∷ "sk-proj-" ∷ "xoxb-" ∷ "xoxp-" ∷ []

-- `markers.iter().any(|m| lower.contains(m))`, where `lower` is the line in ASCII lower case.
unfoldable pub any_marker : List String → String → Bool
any_marker [] line = false
any_marker (m ∷ ms) line = contains_lower m line || any_marker ms line

-- An `@` before the first `/`, blank or tab.
unfoldable pub authority_has_at : String → Bool
authority_has_at String.[] = false
authority_has_at (String.◌∷◌ c s) =
    let rest = authority_has_at s in
    if eqb (code c) 47 || eqb (code c) 32 || eqb (code c) 9 then false else eqb (code c) 64 || rest

-- The text behind the `//` of a match.
drop_two : String → Option String
drop_two (String.◌∷◌ a (String.◌∷◌ b t)) = some t
drop_two t = none

-- The text after the first `://`.
unfoldable pub after_scheme : String → Option String
unfolding drop_two
after_scheme String.[] = none
after_scheme (String.◌∷◌ c s) =
    let rest = after_scheme s in if has_prefix "://" (String.◌∷◌ c s) then drop_two s else rest

unfoldable pub has_url_userinfo : String → Bool
has_url_userinfo line = elim (after_scheme line) [
  | none ↦ false
  | some rest ↦ authority_has_at rest
]

unfoldable pub count_dots : String → ℕ
count_dots String.[] = 0
count_dots (String.◌∷◌ c s) = let rest = count_dots s in if eqb (code c) 46 then suc rest else rest

unfoldable pub looks_like_jwt : String → Bool
looks_like_jwt line = contains "eyJ" line && leb 2 (count_dots line)

abbrev pub redacted_output : String
redacted_output = "[redacted potentially sensitive output]"

abbrev pub redacted_url : String
redacted_url = "[redacted URL containing query parameters]"

-- The part after trimming.
unfoldable pub sanitize_trimmed : String → Option String
sanitize_trimmed trimmed =
    if is_blank trimmed
    then none
    else if any_marker markers trimmed
    then some redacted_output
    else if has_url_userinfo trimmed || looks_like_jwt trimmed
    then some redacted_output
    else if contains "://" trimmed && contains "?" trimmed
    then some redacted_url
    else some (take_chars stderr_line_max_chars trimmed)

unfoldable pub sanitize_diagnostic_line : String → Option String
sanitize_diagnostic_line line = sanitize_trimmed (trim line)
