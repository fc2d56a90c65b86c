-- ===== src/Proc/CommandLine/Quoting.antt =====
-- That a command line in quotes has the arguments that it was made from.
use Prim.Native.Char.{Char, code}
use stdiod.Base.{
  String, Bool, true, ◌&&◌, ◌||◌, not, ◌≡◌, Option, none, some, List, [], ◌∷◌, if◌then◌else◌, eqb,
}
use stdiod.Base.Text.{append}

-- Where a reader of the line is: between the words, in a plain word, in quotes, or after a quote that
-- may close them.
pub data Place : Type 0 where
  between plain quoted closing : Place

-- What a line has; nothing when cmd.exe would not read it as words only.
abbrev pub Words : Type 0
Words = Option (List String)

-- A character put before the first word.
unfoldable pub onto : Char → Words → Words
onto c none = none
onto c (some []) = some (String.◌∷◌ c "" ∷ [])
onto c (some (w ∷ words)) = some (String.◌∷◌ c w ∷ words)

abbrev pub end_word : Words → Words
end_word none = none
end_word (some words) = some ("" ∷ words)

-- A space or a tab.
unfoldable pub is_break : Char → Bool
is_break c = eqb (code c) 32 || eqb (code c) 9

-- `& | < > ^ ( )`, which outside quotes start another command, redirect, escape or group.
unfoldable pub is_operator : Char → Bool
is_operator c =
    eqb (code c) 38
    || eqb (code c) 124
    || eqb (code c) 60
    || eqb (code c) 62
    || eqb (code c) 94
    || eqb (code c) 40
    || eqb (code c) 41

-- `%`, which stands for a variable also inside quotes, and the ends of a line.
unfoldable pub is_active : Char → Bool
is_active c = eqb (code c) 37 || eqb (code c) 10 || eqb (code c) 13

-- The words of a line by the rules of cmd.exe: outside quotes a space or a tab ends a word and an
-- operator makes the line more than words, inside quotes both are characters like any other, and a
-- doubled quote inside quotes is a quote. The first word of the result is the rest of the one being
-- read.
unfoldable pub read_words : Place → String → Words
read_words between String.[] = some ("" ∷ [])
read_words plain String.[] = some ("" ∷ [])
read_words closing String.[] = some ("" ∷ [])
read_words quoted String.[] = none
read_words between (String.◌∷◌ c s) =
    let skipped = read_words between s in
    let opened = read_words quoted s in
    let word = onto c (read_words plain s) in
    if is_active c || is_operator c
    then none
    else if eqb (code c) 34
    then opened
    else if is_break c
    then skipped
    else word
read_words plain (String.◌∷◌ c s) =
    let next = end_word (read_words between s) in
    let opened = read_words quoted s in
    let word = onto c (read_words plain s) in
    if is_active c || is_operator c
    then none
    else if eqb (code c) 34
    then opened
    else if is_break c
    then next
    else word
read_words quoted (String.◌∷◌ c s) =
    let closed = read_words closing s in
    let word = onto c (read_words quoted s) in
    if is_active c then none else if eqb (code c) 34 then closed else word
read_words closing (String.◌∷◌ c s) =
    let doubled = onto c (read_words quoted s) in
    let next = end_word (read_words between s) in
    let word = onto c (read_words plain s) in
    if is_active c || is_operator c
    then none
    else if eqb (code c) 34
    then doubled
    else if is_break c
    then next
    else word

-- No `%` and no end of a line in a text.
unfoldable pub is_inert : String → Bool
is_inert String.[] = true
is_inert (String.◌∷◌ c s) = not (is_active c) && is_inert s

-- A text put before the first word.
unfoldable pub onto_text : String → Words → Words
onto_text String.[] words = words
onto_text (String.◌∷◌ c s) words = onto c (onto_text s words)

-- What follows a word on the line.
pub data Rest : Type 0 where
  nothing : Rest
  more_words : String → Rest

abbrev rest_text : Rest → String
rest_text nothing = ""
rest_text (more_words line) = append " " line

abbrev rest_words : Rest → Words
rest_words nothing = some ("" ∷ [])
rest_words (more_words line) = end_word (read_words between line)

abbrev pub IsInert : String → Type 0
IsInert w = is_inert w ≡ true
