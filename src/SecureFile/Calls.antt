-- ===== src/SecureFile/Calls.antt =====
-- What the calls of the file system leave of a file.
use stdiod.Base.{
  ℕ, String, true, false, ◌≡◌, ◌≢◌, refl, sym, ◌∙◌, ap, inl, inr, Option, none, some, ◌∷◌, Result,
  ok, err, arith, Option-cases, eq_iff, eq_refl, ◌+◌,
}
use stdiod.Base.Text.{append, chars, is_blank, has_prefix}
use stdiod.Base.Text.Decimal.{decimal}
use stdiod.SecureFile.{
  IoError, Files, Disk, Os, after, update, changed, unchanged, plain_call, create_new, write_all,
  rename, remove_file, sibling,
}

-- A condition on each of the two outcomes of a call.
abbrev pub Post :
    {A : Type 0} → (A → Disk → Type 0) → (Disk → Type 0) → Result IoError A × Disk → Type 0
Post on_ok on_err (ok a, d) = on_ok a d
Post on_ok on_err (err e, d) = on_err d

-- The outcome of a call and of what follows it.
pub after-Post :
    {A B : Type 0} (Holds : A → Disk → Type 0) (Fails : Disk → Type 0) (P : B → Type 0)
    (r : Result IoError A × Disk) (on_ok : A → Disk → B) (on_err : IoError → Disk → B)
    → Post Holds Fails r
    → ((a : A) (d : Disk) → Holds a d → P (on_ok a d))
    → ((e : IoError) (d : Disk) → Fails d → P (on_err e d))
    → P (after r on_ok on_err)
after-Post Holds Fails P (ok a, d) on_ok on_err h good bad = good a d h
after-Post Holds Fails P (err e, d) on_ok on_err h good bad = bad e d h

pub Post-map :
    {A : Type 0} (Holds Holds' : A → Disk → Type 0) (Fails Fails' : Disk → Type 0)
    (r : Result IoError A × Disk)
    → Post Holds Fails r
    → ((a : A) (d : Disk) → Holds a d → Holds' a d)
    → ((d : Disk) → Fails d → Fails' d)
    → Post Holds' Fails' r
Post-map Holds Holds' Fails Fails' (ok a, d) h good bad = good a d h
Post-map Holds Holds' Fails Fails' (err e, d) h good bad = bad d h

-- What holds after both outcomes holds of the state.
pub Post-state :
    {A : Type 0} (P : Disk → Type 0) (r : Result IoError A × Disk) → Post (λ _. P) P r → P r.1
Post-state P (ok a, d) h = h
Post-state P (err e, d) h = h

-- The directory is what it was.
abbrev pub Same : Disk → Disk → Type 0
Same before after = (after.files ≡ before.files) × (after.past ≡ before.past)

-- The directory has changed once, to `files`.
abbrev pub Changed : Files → Disk → Disk → Type 0
Changed files before after = (after.files ≡ files) × (after.past ≡ before.files ∷ before.past)

pub update-other :
    (path : String) (contents : Option String) (files : Files) (p : String)
    → p ≢ path
    → update path contents files p ≡ files p
unfolding update
update-other path contents files p differ = ground (arith, eq_iff p path)

pub update-same :
    (path : String) (contents : Option String) (files : Files)
    → update path contents files path ≡ contents
unfolding update
update-same path contents files = ground (arith, eq_refl path)

module _ (os : Os) where
  pub plain_call-Post : (d : Disk) → Post (λ _. Same d) (Same d) (plain_call os d)
  unfolding plain_call unchanged
  plain_call-Post d = elim (Option-cases (os.fault d.calls)) [
    | inl e ↦ rw (e, plain_call) (refl, refl)
    | inr (x, e) ↦ rw (e, plain_call) (refl, refl)
  ]

  pub create_new-Post :
      (path : String) (d : Disk)
      → Post
          (λ _ d'. (d.files path ≡ none) × Changed (update path (some "") d.files) d d')
          (Same d)
          (create_new os path d)
  unfolding create_new unchanged changed
  create_new-Post path d = elim (Option-cases (os.fault d.calls)) [
    | inr (x, e) ↦ rw (e, create_new) (refl, refl)
    | inl e ↦ elim (Option-cases (d.files path)) [
      | inr (c, f) ↦ rw (e, f, create_new) (refl, refl)
      | inl f ↦ rw (e, f, create_new) (refl, (refl, refl))
    ]
  ]

  pub write_all-Post :
      (path body : String) (d : Disk)
      → Post
          (λ _. Changed (update path (some body) d.files) d)
          (λ d'. (t : String) × Changed (update path (some t) d.files) d d')
          (write_all os path body d)
  unfolding write_all changed
  write_all-Post path body d = elim (Option-cases (os.fault d.calls)) [
    | inr (x, e) ↦ rw (e, write_all) (_, (refl, refl))
    | inl e ↦ rw (e, write_all) (refl, refl)
  ]

  -- The directory after a file has moved.
  abbrev pub moved : String → String → String → Files → Files
  moved from to contents files = update from none (update to (some contents) files)

  pub rename-Post :
      (from to : String) (d : Disk)
      → Post
          (λ _ d'. (c : String) × (d.files from ≡ some c) × Changed (moved from to c d.files) d d')
          (Same d)
          (rename os from to d)
  unfolding rename unchanged changed
  rename-Post from to d = elim (Option-cases (os.fault d.calls)) [
    | inr (x, e) ↦ rw (e, rename) (refl, refl)
    | inl e ↦ elim (Option-cases (d.files from)) [
      | inl f ↦ rw (e, f, rename) (refl, refl)
      | inr (c, f) ↦ rw (e, f, rename) (c, refl, (refl, refl))
    ]
  ]

  pub remove_file-Post :
      (path : String) (d : Disk)
      → Post (λ _. Changed (update path none d.files) d) (Same d) (remove_file os path d)
  unfolding remove_file unchanged changed
  remove_file-Post path d = elim (Option-cases (os.fault d.calls)) [
    | inr (x, e) ↦ rw (e, remove_file) (refl, refl)
    | inl e ↦ elim (Option-cases (d.files path)) [
      | inl f ↦ rw (e, f, remove_file) (refl, refl)
      | inr (c, f) ↦ rw (e, f, remove_file) (refl, refl)
    ]
  ]

-- The last character of a text, as a text.
last_of : String → String
last_of String.[] = ""
last_of (String.◌∷◌ c String.[]) = String.◌∷◌ c ""
last_of (String.◌∷◌ c (String.◌∷◌ d s)) = last_of (String.◌∷◌ d s)

last_of-append : (s : String) (t : String) → is_blank t ≡ false → last_of (append s t) ≡ last_of t
unfolding append last_of
last_of-append String.[] t h = refl
last_of-append (String.◌∷◌ c String.[]) String.[] h = cc
last_of-append (String.◌∷◌ c String.[]) (String.◌∷◌ d t) h = refl
last_of-append (String.◌∷◌ c (String.◌∷◌ d s)) t h = last_of-append (String.◌∷◌ d s) t h

chars-append : (s t : String) → chars (append s t) ≡ chars s + chars t
unfolding append
chars-append String.[] t = omega arith
chars-append (String.◌∷◌ c s) t = omega (arith, chars-append s t)

-- A sibling's name is longer than the file's.
pub sibling-path :
    (os : Os) (path : String) (id : ℕ) (suffix : String) → sibling os path id suffix ≢ path
unfolding sibling append
sibling-path os path id suffix e =
    let longer = chars-append path (
      append "."
        (append (decimal os.process_id) (append "." (append (decimal id) (append "." suffix))))) in
    let h = ap chars e in omega (arith, longer, h)

append-blank : (s t : String) → is_blank t ≡ false → is_blank (append s t) ≡ false
unfolding append
append-blank String.[] t h = h
append-blank (String.◌∷◌ c s) t h = refl

sibling-last :
    (os : Os) (path : String) (id : ℕ) (suffix : String)
    → is_blank suffix ≡ false
    → last_of (sibling os path id suffix) ≡ last_of suffix
unfolding sibling
sibling-last os path id suffix h =
    let dotted = append-blank "." suffix h in
    let numbered = append-blank (decimal id) _ dotted in
    let dotted_id = append-blank "." _ numbered in
    let process = append-blank (decimal os.process_id) _ dotted_id in
    let dotted_process = append-blank "." _ process in
    last_of-append "." _ (append-blank path _ dotted_process)
    ∙ last_of-append path _ dotted_process
    ∙ last_of-append "." _ process
    ∙ last_of-append (decimal os.process_id) _ dotted_id
    ∙ last_of-append "." _ numbered
    ∙ last_of-append (decimal id) _ dotted
    ∙ last_of-append "." suffix h

true_is_no_false : true ≢ false
true_is_no_false e = cc

-- No temporary file is a backup.
pub tmp_is_no_bak :
    (os : Os) (path : String) (a b : ℕ) → sibling os path a "tmp" ≢ sibling os path b "bak"
unfolding last_of has_prefix
tmp_is_no_bak os path a b e =
    let ends : Path String "p" "k" =
      sym (sibling-last os path a "tmp" refl) ∙ ap last_of e ∙ sibling-last os path b "bak" refl in
    true_is_no_false (ap (has_prefix "p") ends)
