-- ===== src/Proc/Search/Merged.antt =====
-- That merging two search paths does not change what is found on them.
use stdiod.Base.{
  String, Bool, true, ◌≡◌, ◌≢◌, refl, sym, ◌∙◌, ap, inl, inr, Option, none, some, List, [], ◌∷◌,
  ◌++◌, or_else, if_rule, Bool-cases, Option-cases,
}
use stdiod.Base.Text.{contains}
use stdiod.Proc.Search.{
  split_paths, same_path, is_seen, collect, collect_some, merge_paths, join_path, find_in,
  resolve_program,
}
use stdiod.Proc.Search.Pieces.{split-merge_paths}

or_else-none : (o : Option String) → or_else o none ≡ o
or_else-none none = refl
or_else-none (some p) = refl

or_else_assoc : (a b c : Option String) → or_else (or_else a b) c ≡ or_else a (or_else b c)
or_else_assoc none b c = refl
or_else_assoc (some p) b c = refl

module _ (is_executable : String → Bool) (program : String)
    (same_file : (a b : String)
      → same_path a b ≡ true
      → is_executable (join_path a program) ≡ is_executable (join_path b program)) where
  find : List String → Option String
  find dirs = find_in is_executable program dirs

  -- A directory that was seen adds nothing.
  find-is_seen :
      (dir : String) (dirs : List String)
      → is_seen dir dirs ≡ true
      → is_executable (join_path dir program) ≡ true
      → find dirs ≢ none
  unfolding find find_in is_seen
  find-is_seen dir [] seen runs = cc
  find-is_seen dir (first ∷ rest) seen runs = elim (Bool-cases (same_path dir first)) [
    | inl e ↦
        λ missing. let gone = rw (sym (same_file dir first e) ∙ runs, find_in) at missing in cc
    | inr e ↦ λ missing. elim (Bool-cases (is_executable (join_path first program))) [
      | inl f ↦ let gone = rw (f, find_in) at missing in cc
      | inr f ↦
          let later = rw (f, find_in) at missing in
          find-is_seen dir rest (rw (e, is_seen) at seen) runs later
    ]
  ]

  find-append : (xs ys : List String) → find (xs ++ ys) ≡ or_else (find xs) (find ys)
  unfolding find find_in
  find-append [] ys = refl
  find-append (x ∷ xs) ys = elim (Bool-cases (is_executable (join_path x program))) [
    | inl e ↦ rw e refl
    | inr e ↦ rw e (find-append xs ys)
  ]

  -- It can be left out.
  skipped :
      (dir : String) (dirs more : List String)
      → is_seen dir dirs ≡ true
      → or_else (find dirs) (find more) ≡ or_else (find dirs) (find (dir ∷ more))
  unfolding find find_in
  skipped dir dirs more seen = elim (Option-cases (find dirs)) [
    | inr (p, e) ↦ rw (e, find) refl
    | inl e ↦ elim (Bool-cases (is_executable (join_path dir program))) [
      | inl runs ↦ absurd (find-is_seen dir dirs seen runs e)
      | inr not_there ↦ rw not_there refl
    ]
  ]

  find-collect :
      (dirs more : List String) → find (collect dirs more) ≡ or_else (find dirs) (find more)
  unfolding collect find find_in
  find-collect dirs [] = sym (or_else-none (find dirs))
  find-collect dirs (dir ∷ more) =
      if_rule (λ kept. find (collect kept more) ≡ or_else (find dirs) (find (dir ∷ more)))
        (is_seen dir dirs) dirs (dirs ++ (dir ∷ []))
        (λ seen. find-collect dirs more ∙ skipped dir dirs more seen)
        λ _.
          find-collect (dirs ++ (dir ∷ [])) more
          ∙ ap (λ r. or_else r (find more)) (find-append dirs (dir ∷ []))
          ∙ or_else_assoc (find dirs) (find (dir ∷ [])) (find more)
          ∙ ap (or_else (find dirs)) (sym (find-append (dir ∷ []) more))

  -- The directories of the second path, if there is one.
  find_some : Option String → Option String
  find_some none = none
  find_some (some path) = find (split_paths path)

  find-merged :
      (primary : String) (secondary : Option String)
      → find (collect_some (collect [] (split_paths primary)) secondary)
        ≡ or_else (find (split_paths primary)) (find_some secondary)
  unfolding collect_some find_some find find_in
  find-merged primary none = find-collect [] (split_paths primary) ∙ sym (or_else-none _)
  find-merged primary (some path) =
      find-collect (collect [] (split_paths primary)) (split_paths path)
      ∙ ap (λ r. or_else r (find (split_paths path))) (find-collect [] (split_paths primary))

  -- Where files are the same for paths that are equal, a program is found on the merged path exactly
  -- as if it was searched on the login shell's path first and on the daemon's path after that: the
  -- directories that the merge leaves out and the joining and cutting of paths change nothing.
  pub resolve_program-merge_paths :
      (primary : String) (secondary : Option String)
      → resolve_program is_executable program (merge_paths (some primary) secondary)
        ≡ or_else (resolve_program is_executable program primary) (elim secondary [
          | none ↦ none
          | some path ↦ resolve_program is_executable program path
        ])
  unfolding resolve_program find_some find
  resolve_program-merge_paths primary none = elim (Bool-cases (contains "/" program)) [
    | inl e ↦ rw e refl
    | inr e ↦ rw e (ap find (split-merge_paths primary none) ∙ find-merged primary none)
  ]
  resolve_program-merge_paths primary (some path) = elim (Bool-cases (contains "/" program)) [
    | inl e ↦ rw e refl
    | inr e ↦
        rw e (ap find (split-merge_paths primary (some path)) ∙ find-merged primary (some path))
  ]
