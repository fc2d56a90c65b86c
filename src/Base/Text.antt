-- ===== src/Base/Text.antt =====
-- The operations of Rust's `str` that the program uses, over the characters of a text.
pub mod Parts
pub mod Redaction
pub mod Decimal
use Prim.Native.Nat.{ℕ, zero, suc, ◌+◌, ◌-◌, ◌<◌}
use Prim.Native.Char.{Char, code}
use Prim.Native.String.{String, [], ◌∷◌}
use mathlib.Core.Bool.{Bool, true, false, ◌&&◌, ◌||◌}
use mathlib.Core.Logic.{◌≢◌}
use stdiod.Base.Tests.{leb, ltb, eqb, if◌then◌else◌}

-- How many characters a text has.
abbrev pub chars : String → ℕ
chars [] = 0
chars (c ∷ s) = suc (chars s)

-- How many bytes its UTF-8 has: `s.len()`.
unfoldable pub utf8_width : ℕ → ℕ
utf8_width c = if ltb c 128 then 1 else if ltb c 2048 then 2 else if ltb c 65536 then 3 else 4

unfoldable pub byte_len : String → ℕ
unfolding utf8_width
byte_len [] = 0
byte_len (c ∷ s) = utf8_width (code c) + byte_len s

abbrev pub is_blank : String → Bool
is_blank [] = true
is_blank (c ∷ s) = false

-- `s + t`, by characters, so that it computes at an unknown `t`.
unfoldable pub append : String → String → String
append [] t = t
append (c ∷ s) t = c ∷ append s t

-- `s.starts_with(p)`
unfoldable pub has_prefix : String → String → Bool
has_prefix [] s = true
has_prefix (c ∷ p) [] = false
has_prefix (c ∷ p) (d ∷ s) = eqb (code c) (code d) && has_prefix p s

-- `s.contains(p)`
unfoldable pub contains : String → String → Bool
contains p [] = has_prefix p []
contains p (c ∷ s) = has_prefix p (c ∷ s) || contains p s

-- The scan of `replace` for a pattern that is not empty; `skip` counts the characters of a match
-- that are still to be passed over.
unfoldable pub replace_from : String → String → ℕ → String → String
unfolding has_prefix append
replace_from pat to skip [] = []
replace_from pat to (suc skip) (c ∷ s) = replace_from pat to skip s
replace_from pat to zero (c ∷ s) = elim (has_prefix pat (c ∷ s)) [
  | true ↦ append to (replace_from pat to (chars pat - 1) s)
  | false ↦ c ∷ replace_from pat to zero s
]

-- The empty pattern matches at every boundary.
unfoldable pub replace_empty : String → String → String
unfolding append
replace_empty to [] = to
replace_empty to (c ∷ s) = append to (c ∷ replace_empty to s)

-- `s.replace(pat, to)`
unfoldable pub replace : String → String → String → String
unfolding replace_from replace_empty
replace s [] to = replace_empty to s
replace s (c ∷ pat) to = replace_from (c ∷ pat) to zero s

-- The characters with the Unicode property White_Space, in decimal code points.
unfoldable pub is_whitespace : ℕ → Bool
is_whitespace c =
    (leb 9 c && leb c 13)
    || eqb c 32
    || eqb c 133
    || eqb c 160
    || eqb c 5760
    || (leb 8192 c && leb c 8202)
    || eqb c 8232
    || eqb c 8233
    || eqb c 8239
    || eqb c 8287
    || eqb c 12288

unfoldable pub trim_start : String → String
unfolding is_whitespace
trim_start [] = []
trim_start (c ∷ s) = let rest = trim_start s in if is_whitespace (code c) then rest else c ∷ s

unfoldable pub trim_last : Char → String → String
trim_last c [] = if is_whitespace (code c) then [] else c ∷ []
trim_last c (d ∷ s) = c ∷ d ∷ s

unfoldable pub trim_end : String → String
unfolding trim_last
trim_end [] = []
trim_end (c ∷ s) = trim_last c (trim_end s)

-- `s.trim()`
unfoldable pub trim : String → String
unfolding trim_start trim_end
trim s = trim_end (trim_start s)

-- `s.chars().take(n).collect()`
unfoldable pub take_chars : ℕ → String → String
take_chars zero s = []
take_chars (suc n) [] = []
take_chars (suc n) (c ∷ s) = c ∷ take_chars n s

-- The code of a character in ASCII lower case.
unfoldable pub lower_code : ℕ → ℕ
lower_code c = if leb 65 c && leb c 90 then c + 32 else c

-- `s.to_ascii_lowercase().contains(p)` tests the codes without building the text.
unfoldable pub has_prefix_lower : String → String → Bool
unfolding lower_code
has_prefix_lower [] s = true
has_prefix_lower (c ∷ p) [] = false
has_prefix_lower (c ∷ p) (d ∷ s) = eqb (code c) (lower_code (code d)) && has_prefix_lower p s

unfoldable pub contains_lower : String → String → Bool
unfolding has_prefix_lower
contains_lower p [] = has_prefix_lower p []
contains_lower p (c ∷ s) = has_prefix_lower p (c ∷ s) || contains_lower p s

-- `s.eq_ignore_ascii_case(t)`
unfoldable pub eq_ignore_ascii_case : String → String → Bool
unfolding lower_code
eq_ignore_ascii_case [] [] = true
eq_ignore_ascii_case [] (d ∷ t) = false
eq_ignore_ascii_case (c ∷ s) [] = false
eq_ignore_ascii_case (c ∷ s) (d ∷ t) =
    eqb (lower_code (code c)) (lower_code (code d)) && eq_ignore_ascii_case s t

-- No character of the text has this code.
abbrev pub Without : ℕ → String → Type 0
Without n [] = Unit
Without n (c ∷ s) = (code c ≢ n) × Without n s
