-- ===== src/Base/Text/Parts.antt =====
-- What a text contains, its trimmed form and its first characters contain no more than that.
use Prim.Native.Nat.{ℕ, zero, suc}
use Prim.Native.Char.{Char, code}
use Prim.Native.String.{String, [], ◌∷◌}
use mathlib.Core.Path.{◌≡◌, refl}
use mathlib.Core.Bool.{true}
use native.Mathlib.Omega.{arith}
use stdiod.Base.Tests.{Bool-cases}
use mathlib.Core.Logic.{inl, inr}
use stdiod.Base.Text.{
  has_prefix, contains, take_chars, trim, trim_start, trim_end, trim_last, is_whitespace,
}

has_prefix-blank : (q s : String) → has_prefix q [] ≡ true → has_prefix q s ≡ true
unfolding has_prefix
has_prefix-blank [] s e = refl
has_prefix-blank (c ∷ q) s e = absurd (ground arith)

contains-blank : (q s : String) → contains q [] ≡ true → contains q s ≡ true
unfolding contains
contains-blank q [] e = e
contains-blank q (c ∷ s) e = ground (arith, has_prefix-blank q (c ∷ s))

has_prefix-take_chars :
    (n : ℕ) (q s : String) → has_prefix q (take_chars n s) ≡ true → has_prefix q s ≡ true
unfolding take_chars has_prefix
has_prefix-take_chars zero q s e = has_prefix-blank q s e
has_prefix-take_chars (suc n) q [] e = e
has_prefix-take_chars (suc n) [] (d ∷ s) e = refl
has_prefix-take_chars (suc n) (c ∷ q) (d ∷ s) e = ground (arith, has_prefix-take_chars n q s)

pub contains-take_chars :
    (n : ℕ) (q s : String) → contains q (take_chars n s) ≡ true → contains q s ≡ true
unfolding take_chars contains
contains-take_chars zero q s e = contains-blank q s e
contains-take_chars (suc n) q [] e = e
contains-take_chars (suc n) q (d ∷ s) e =
    ground (arith, has_prefix-take_chars (suc n) q (d ∷ s), contains-take_chars n q s)

contains-trim_start : (q s : String) → contains q (trim_start s) ≡ true → contains q s ≡ true
unfolding trim_start contains
contains-trim_start q [] e = e
contains-trim_start q (c ∷ s) e = ground (arith, contains-trim_start q s)

has_prefix-trim_last :
    (q : String) (d : Char) (t : String)
    → has_prefix q (trim_last d t) ≡ true
    → has_prefix q (d ∷ t) ≡ true
unfolding trim_last has_prefix
has_prefix-trim_last [] d t e = refl
has_prefix-trim_last (c ∷ q) d [] e = elim (Bool-cases (is_whitespace (code d))) [
  | inl w ↦ absurd (let e' : has_prefix (c ∷ q) [] ≡ true = rw w at e in ground arith)
  | inr w ↦ rw w at e
]
has_prefix-trim_last (c ∷ q) d (x ∷ t) e = e

contains-trim_last :
    (q : String) (d : Char) (t : String)
    → contains q (trim_last d t) ≡ true
    → contains q (d ∷ t) ≡ true
unfolding trim_last contains
contains-trim_last q d [] e = elim (Bool-cases (is_whitespace (code d))) [
  | inl w ↦ contains-blank q (d ∷ []) (rw w at e)
  | inr w ↦ rw w at e
]
contains-trim_last q d (x ∷ t) e = e

has_prefix-trim_end : (q s : String) → has_prefix q (trim_end s) ≡ true → has_prefix q s ≡ true
unfolding has_prefix trim_end
has_prefix-trim_end q [] e = e
has_prefix-trim_end [] (d ∷ s) e = refl
has_prefix-trim_end (c ∷ q) (d ∷ s) e =
    let whole = has_prefix-trim_last (c ∷ q) d (trim_end s) e in
    ground (arith, whole, has_prefix-trim_end q s)

-- A prefix of the trimmed rest behind a character is one of the rest behind it.
has_prefix-extend :
    (q : String) (d : Char) (s : String)
    → has_prefix q (d ∷ trim_end s) ≡ true
    → has_prefix q (d ∷ s) ≡ true
unfolding has_prefix
has_prefix-extend [] d s e = refl
has_prefix-extend (c ∷ q) d s e = ground (arith, has_prefix-trim_end q s)

contains-trim_end : (q s : String) → contains q (trim_end s) ≡ true → contains q s ≡ true
unfolding contains trim_end
contains-trim_end q [] e = e
contains-trim_end q (d ∷ s) e =
    ground
      (arith, contains-trim_last q d (trim_end s) e, contains-trim_end q s, has_prefix-extend q d s)

pub contains-trim : (q s : String) → contains q (trim s) ≡ true → contains q s ≡ true
unfolding trim
contains-trim q s e = contains-trim_start q s (contains-trim_end q (trim_start s) e)
