-- ===== src/Proc/Search/Pieces.antt =====
-- That cutting a joined path gives back the directories.
use Prim.Native.Char.{code}
use stdiod.Base.{
  String, false, ◌≡◌, refl, sym, ◌∙◌, ap, subst, inl, inr, Option, none, some, List, [], ◌∷◌, ◌++◌,
  eqb, arith, if_rule, Bool-cases,
}
use stdiod.Base.Text.{append}
use stdiod.Proc.Search.{
  onto_first, split_at, split_paths, joined, has_colon, any_colon, join_paths, is_seen, collect,
  collect_some, merge_paths,
}

-- Cutting a piece off.
split_at-append :
    (dir rest : String)
    → has_colon dir ≡ false
    → split_at 58 (append dir (append ":" rest)) ≡ dir ∷ split_at 58 rest
unfolding split_at append has_colon onto_first
split_at-append String.[] rest h = refl
split_at-append (String.◌∷◌ c dir) rest h = ground (arith, split_at-append dir rest)

split_at-whole : (dir : String) → has_colon dir ≡ false → split_at 58 dir ≡ dir ∷ []
unfolding split_at has_colon onto_first append
split_at-whole String.[] h = refl
split_at-whole (String.◌∷◌ c dir) h = ground (arith, split_at-whole dir)

split_paths-joined :
    (dir : String) (more : List String)
    → any_colon (dir ∷ more) ≡ false
    → split_paths (joined (dir ∷ more)) ≡ dir ∷ more
unfolding split_paths joined any_colon
split_paths-joined dir [] h = split_at-whole dir (ground arith)
split_paths-joined dir (next ∷ rest) h =
    split_at-append dir (joined (next ∷ rest)) (ground arith)
    ∙ ap (λ dirs. dir ∷ dirs) (split_paths-joined next rest (ground arith))

has_colon-append :
    (s t : String) → has_colon s ≡ false → has_colon t ≡ false → has_colon (append s t) ≡ false
unfolding has_colon append
has_colon-append String.[] t h k = k
has_colon-append (String.◌∷◌ c s) t h k = ground (arith, has_colon-append s t)

-- No piece has a colon.
any_colon-onto_first :
    (s : String) (dirs : List String)
    → has_colon s ≡ false
    → any_colon dirs ≡ false
    → any_colon (onto_first s dirs) ≡ false
unfolding any_colon onto_first
any_colon-onto_first s [] h k = ground arith
any_colon-onto_first s (dir ∷ dirs) h k = ground (arith, has_colon-append s dir)

any_colon-split_at : (s : String) → any_colon (split_at 58 s) ≡ false
unfolding any_colon split_at has_colon
any_colon-split_at String.[] = refl
any_colon-split_at (String.◌∷◌ c s) = elim (Bool-cases (eqb (code c) 58)) [
  | inl e ↦ rw e (any_colon-split_at s)
  | inr e ↦
      rw e
        (any_colon-onto_first (String.◌∷◌ c "") (split_at 58 s) (rw e refl) (any_colon-split_at s))
]

any_colon-append :
    (xs ys : List String)
    → any_colon xs ≡ false
    → any_colon ys ≡ false
    → any_colon (xs ++ ys) ≡ false
unfolding any_colon
any_colon-append [] ys h k = k
any_colon-append (x ∷ xs) ys h k = ground (arith, any_colon-append xs ys)

any_colon-collect :
    (dirs more : List String)
    → any_colon dirs ≡ false
    → any_colon more ≡ false
    → any_colon (collect dirs more) ≡ false
unfolding collect any_colon
any_colon-collect dirs [] h k = h
any_colon-collect dirs (dir ∷ more) h k =
    if_rule (λ kept. any_colon (collect kept more) ≡ false) (is_seen dir dirs) dirs
      (dirs ++ (dir ∷ [])) (λ _. any_colon-collect dirs more h (ground arith))
      λ _.
        any_colon-collect (dirs ++ (dir ∷ [])) more
          (any_colon-append dirs (dir ∷ []) h (ground arith)) (ground arith)

-- Something was collected.
abbrev pub IsFilled : List String → Type 0
IsFilled dirs = (dir : String) × (rest : List String) × (dirs ≡ dir ∷ rest)

collect-IsFilled : (dirs more : List String) → IsFilled dirs → IsFilled (collect dirs more)
unfolding collect
collect-IsFilled dirs [] h = h
collect-IsFilled dirs (dir ∷ more) (first, rest, e) =
    if_rule (λ kept. IsFilled (collect kept more)) (is_seen dir dirs) dirs (dirs ++ (dir ∷ []))
      (λ _. collect-IsFilled dirs more (first, rest, e))
      λ _.
        collect-IsFilled (dirs ++ (dir ∷ [])) more
          (first, rest ++ (dir ∷ []), ap (λ ds. ds ++ (dir ∷ [])) e)

split_at-IsFilled : (s : String) → IsFilled (split_at 58 s)
unfolding split_at onto_first
split_at-IsFilled String.[] = ("", [], refl)
split_at-IsFilled (String.◌∷◌ c s) =
    if_rule IsFilled (eqb (code c) 58) ("" ∷ split_at 58 s)
      (onto_first (String.◌∷◌ c "") (split_at 58 s)) (λ _. ("", split_at 58 s, refl))
      λ _. let (dir, rest, e) = split_at-IsFilled s in rw e (_, _, refl)

any_colon-split_paths : (s : String) → any_colon (split_paths s) ≡ false
unfolding split_paths
any_colon-split_paths s = any_colon-split_at s

first-any_colon : (s : String) → any_colon (collect [] (split_paths s)) ≡ false
unfolding any_colon
first-any_colon s = any_colon-collect [] (split_paths s) refl (any_colon-split_paths s)

first-IsFilled : (s : String) → IsFilled (collect [] (split_paths s))
unfolding split_paths collect is_seen
first-IsFilled s =
    let (dir, rest, e) = split_at-IsFilled s in
    rw e (collect-IsFilled (dir ∷ []) rest (dir, [], refl))

split-join_paths :
    (dirs : List String)
    → IsFilled dirs
    → any_colon dirs ≡ false
    → split_paths (join_paths dirs) ≡ dirs
unfolding join_paths
split-join_paths dirs (dir, rest, e) h =
    rw (h, join_paths)
      (subst (λ ds. any_colon ds ≡ false → split_paths (joined ds) ≡ ds) (sym e)
        (split_paths-joined dir rest) h)

pub split-merge_paths :
    (primary : String) (secondary : Option String)
    → split_paths (merge_paths (some primary) secondary)
      ≡ collect_some (collect [] (split_paths primary)) secondary
unfolding merge_paths collect_some
split-merge_paths primary none =
    split-join_paths (collect [] (split_paths primary)) (first-IsFilled primary)
      (first-any_colon primary)
split-merge_paths primary (some path) =
    split-join_paths (collect (collect [] (split_paths primary)) (split_paths path))
      (collect-IsFilled _ (split_paths path) (first-IsFilled primary))
      (any_colon-collect _ (split_paths path) (first-any_colon primary)
        (any_colon-split_paths path))
