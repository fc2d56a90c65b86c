-- ===== src/Base/Text/Redaction.antt =====
-- A text in which a pattern was replaced by a bracketed mark: what it can still contain.
use Prim.Native.Nat.{ℕ, zero, suc, ◌<◌, ◌-◌}
use Prim.Native.Char.{Char, code}
use Prim.Native.String.{String, [], ◌∷◌}
use mathlib.Core.Path.{◌≡◌, refl}
use mathlib.Core.Bool.{true, false}
use native.Mathlib.Omega.{arith}
use stdiod.Base.Text.{chars, append, has_prefix, contains, replace_from, replace, Without, is_blank}

-- A prefix without the closing character cannot reach past it.
has_prefix-past_close :
    (close : Char) (u rest q : String)
    → Without (code close) q
    → chars u < chars q
    → has_prefix q (append u (close ∷ rest)) ≡ false
unfolding has_prefix append
has_prefix-past_close close u rest [] w h = elim h [ ]
has_prefix-past_close close [] rest (c ∷ q) w h = ground arith
has_prefix-past_close close (d ∷ u) rest (c ∷ q) w h =
    ground (arith, has_prefix-past_close close u rest q w.1)

-- So a text that is longer than the core and free of the closing character lies behind it.
contains-past_close :
    (close : Char) (u rest q : String)
    → Without (code close) q
    → chars u < chars q
    → contains q (append u (close ∷ rest)) ≡ true
    → contains q rest ≡ true
unfolding contains append
contains-past_close close [] rest q w h e =
    ground (arith, has_prefix-past_close close [] rest q w h)
contains-past_close close (d ∷ u) rest q w h e =
    ground
      (arith, has_prefix-past_close close (d ∷ u) rest q w h, contains-past_close close u rest q w)

-- A mark `open core close`, and a text that can neither overlap nor lie in it.
module _ (open_char close_char : Char) (core : String) where
  abbrev pub mark : String
  mark = open_char ∷ append core (close_char ∷ [])

  pub record IsClean (q : String) : Type 0 where
    pub no_open : Without (code open_char) q
    pub no_close : Without (code close_char) q
    pub longer : chars core < chars q

append-close :
    (close : Char) (u rest : String) → append (append u (close ∷ [])) rest ≡ append u (close ∷ rest)
unfolding append
append-close close [] rest = refl
append-close close (d ∷ u) rest = rw (append-close close u rest)

module _ (open_char close_char : Char) (core : String) where
  -- A clean text in `mark ++ rest` lies in the rest.
  contains-mark :
      (rest q : String)
      → IsClean open_char close_char core q
      → contains q (append (mark open_char close_char core) rest) ≡ true
      → contains q rest ≡ true
  unfolding contains append has_prefix
  contains-mark rest [] k e = absurd (let h = k.longer in omega arith)
  contains-mark rest (c ∷ q) k e =
      contains-past_close close_char core rest (c ∷ q) k.no_close k.longer
        (ground (arith, append-close close_char core rest, k.no_open))

  module _ (pat : String) where
    abbrev scan : ℕ → String → String
    scan = replace_from pat (mark open_char close_char core)

    has_prefix-scan :
        (q s : String)
        → Without (code open_char) q
        → has_prefix q (scan zero s) ≡ true
        → has_prefix q s ≡ true
    unfolding replace_from has_prefix
    has_prefix-scan [] s w e = refl
    has_prefix-scan (c ∷ q) [] w e = e
    has_prefix-scan (c ∷ q) (d ∷ s) w e = ground (arith, has_prefix-scan q s w.1)

    -- Replacing by the mark brings no clean text in.
    contains-scan :
        (skip : ℕ) (s q : String)
        → IsClean open_char close_char core q
        → contains q (scan skip s) ≡ true
        → contains q s ≡ true
    unfolding replace_from contains
    contains-scan skip [] q k e = e
    contains-scan (suc skip) (d ∷ s) q k e = ground (arith, contains-scan skip s q k)
    contains-scan zero (d ∷ s) q k e = ground (
      arith,
      contains-scan zero s q k,
      contains-scan (chars pat - 1) s q k,
      has_prefix-scan q (d ∷ s) k.no_open,
      contains-mark (scan (chars pat - 1) s) q k,
    )

    has_prefix-nil : (q : String) → 0 < chars q → has_prefix q [] ≡ false
    unfolding has_prefix
    has_prefix-nil [] h = absurd (omega arith)
    has_prefix-nil (c ∷ q) h = refl

    -- The pattern itself is gone.
    contains-scan_self :
        (skip : ℕ) (s : String)
        → IsClean open_char close_char core pat
        → contains pat (scan skip s) ≡ false
    unfolding replace_from contains
    contains-scan_self zero [] k = has_prefix-nil pat (let h = k.longer in omega arith)
    contains-scan_self (suc skip) [] k = has_prefix-nil pat (let h = k.longer in omega arith)
    contains-scan_self (suc skip) (d ∷ s) k = contains-scan_self skip s k
    contains-scan_self zero (d ∷ s) k = ground (
      arith,
      contains-scan_self zero s k,
      contains-scan_self (chars pat - 1) s k,
      has_prefix-scan pat (d ∷ s) k.no_open,
      contains-mark (scan (chars pat - 1) s) pat k,
    )

  pub contains-replace :
      (s pat q : String)
      → is_blank pat ≡ false
      → IsClean open_char close_char core q
      → contains q (replace s pat (mark open_char close_char core)) ≡ true
      → contains q s ≡ true
  unfolding replace
  contains-replace s [] q h k e = cc
  contains-replace s (c ∷ pat) q h k e = contains-scan (c ∷ pat) zero s q k e

  pub contains-replace_self :
      (s pat : String)
      → IsClean open_char close_char core pat
      → contains pat (replace s pat (mark open_char close_char core)) ≡ false
  unfolding replace
  contains-replace_self s [] k = absurd (let h = k.longer in omega arith)
  contains-replace_self s (c ∷ pat) k = contains-scan_self (c ∷ pat) zero s k
