-- ===== src/SecureFile/Pending.antt =====
-- The states of the directory before the replacement, and the ways through a write.
use stdiod.Base.{
  ℕ, zero, suc, ◌+◌, Bool-cases, inl, inr, String, ◌≡◌, ◌≢◌, refl, sym, ◌∙◌, ap, Option, none, some,
  [], ◌∷◌, err, All, subst,
}
use stdiod.SecureFile.{
  IoError, Files, Disk, Os, Outcome, update, create_new, remove_file, sibling, create_temp,
  create_temp_from, retry?, unique_sibling_path, clean_up, fill_and_replace, write_private,
}
use stdiod.SecureFile.Calls.{
  Post, after-Post, Post-map, Post-state, Same, Changed, update-other, update-same, plain_call-Post,
  create_new-Post, write_all-Post, remove_file-Post,
}

-- All files but one are those at the start.
abbrev pub Agrees : String → Disk → Files → Type 0
Agrees tmp start files = (q : String) → q ≢ tmp → files q ≡ start.files q

-- So it is now, and was in all the states since the start.
abbrev pub Pending : String → Disk → Disk → Type 0
Pending tmp start d = Agrees tmp start d.files × All (Agrees tmp start) d.past

pub Pending-change :
    (tmp : String) (contents : Option String) (start d d' : Disk)
    → Pending tmp start d
    → Changed (update tmp contents d.files) d d'
    → Pending tmp start d'
Pending-change tmp contents start d d' (now, past) (files, history) = (
  λ q differ. ap (λ f. f q) files ∙ update-other tmp contents d.files q differ ∙ now q differ,
  subst (All (Agrees tmp start)) (sym history) (now, past),
)

pub Pending-Same :
    (tmp : String) (start d d' : Disk) → Pending tmp start d → Same d d' → Pending tmp start d'
Pending-Same tmp start d d' (now, past) (files, history) = (
  λ q differ. ap (λ f. f q) files ∙ now q differ,
  subst (All (Agrees tmp start)) (sym history) past,
)

pub Pending-remove :
    (os : Os) (tmp : String) (start d : Disk)
    → Pending tmp start d
    → Pending tmp start (remove_file os tmp d).1
Pending-remove os tmp start d pending = Post-state (Pending tmp start) _ (
    Post-map (λ _. Changed (update tmp none d.files) d) (λ _. Pending tmp start) (Same d)
      (Pending tmp start) _ (remove_file-Post os tmp d)
      (λ _ d' changed. Pending-change tmp none start d d' pending changed)
      λ d' same. Pending-Same tmp start d d' pending same)

-- A new temporary file.
abbrev pub IsFresh : Os → String → Disk → String → Disk → Type 0
IsFresh os path start tmp d =
    (id : ℕ) × (tmp ≡ sibling os path id "tmp")
    × (start.files tmp ≡ none)
    × Changed (update tmp (some "") start.files) start d

-- The first attempt at a temporary file.
fresh :
    (os : Os) (path : String) (start d : Disk)
    → Same start d
    → let tmp = sibling os path d.next_temp_id "tmp" in
      Post
        (λ _ d'. IsFresh os path start tmp d')
        (Same start)
        (create_new os tmp (record d { next_temp_id = d.next_temp_id + 1 }))
fresh os path start d (files, past) =
    let tmp = sibling os path d.next_temp_id "tmp" in
    let next : Disk = record d { next_temp_id = d.next_temp_id + 1 } in
    Post-map (λ _ d'. (next.files tmp ≡ none) × Changed (update tmp (some "") next.files) next d')
      (λ _ d'. IsFresh os path start tmp d') (Same next) (Same start) _
      (create_new-Post os tmp next)
      (λ _ d' made. (
        d.next_temp_id,
        refl,
        ap (λ f. f tmp) (sym files) ∙ made.0,
        (
          made.1.0 ∙ ap (update tmp (some "")) files,
          made.1.1 ∙ ap (λ f. f ∷ d.past) files ∙ ap (λ p. start.files ∷ p) past,
        ),
      ))
      (λ d' same. (same.0 ∙ files, same.1 ∙ past))

pub create_temp-Post :
    (os : Os) (path : String) (attempts : ℕ) (start d : Disk)
    → Same start d
    → Post (IsFresh os path start) (Same start) (create_temp_from os attempts path d)
unfolding create_temp_from unique_sibling_path
create_temp-Post os path zero start d h = h
create_temp-Post os path (suc attempts) start d h =
    let tmp = sibling os path d.next_temp_id "tmp" in
    after-Post (λ _ d'. IsFresh os path start tmp d') (Same start)
      (Post (IsFresh os path start) (Same start)) _ _ _ (fresh os path start d h)
      (λ _ next made. made)
      λ e next same. elim (Bool-cases (retry? e)) [
        | inl f ↦ rw f (create_temp-Post os path attempts start next same)
        | inr f ↦ rw f same
      ]

-- What a write does, if every way through it does: it fails before there is a temporary file, or
-- before the replacement, or it comes to the replacement with the temporary file written.
module _ (os : Os) (replace : String → String → Disk → Outcome) (path body : String) (start : Disk)
    (R : Outcome → Type 0) where
  abbrev pub IsReady : String → Disk → Type 0
  IsReady tmp d = Pending tmp start d × (d.files tmp ≡ some body)

  fill-rule :
      (tmp : String) (d : Disk)
      → Pending tmp start d
      → ((e : IoError) (d' : Disk) → Pending tmp start d' → R (clean_up os tmp (err e, d')))
      → ((d' : Disk) → IsReady tmp d' → R (clean_up os tmp (replace tmp path d')))
      → R (fill_and_replace os replace tmp path body d)
  unfolding fill_and_replace
  fill-rule tmp d pending fails ready =
      after-Post (λ _ d'. Changed (update tmp (some body) d.files) d d')
        (λ d'. (t : String) × Changed (update tmp (some t) d.files) d d')
        (λ r. R (clean_up os tmp r)) _ _ _ (write_all-Post os tmp body d)
        (λ _ d1 c.
          after-Post (λ _. Same d1) (Same d1) (λ r. R (clean_up os tmp r)) _ _ _
            (plain_call-Post os d1)
            (λ _ d2 same. ready d2 (
              Pending-Same tmp start d1 d2 (Pending-change tmp (some body) start d d1 pending c)
                  same,
              ap (λ f. f tmp) (same.0 ∙ c.0) ∙ update-same tmp (some body) d.files,
            ))
            (λ e d2 same. fails e d2 (
              Pending-Same tmp start d1 d2 (Pending-change tmp (some body) start d d1 pending c)
                same)))
        (λ e d1 c. fails e d1 (Pending-change tmp (some c.0) start d d1 pending c.1))

  pub write-rule :
      start.past ≡ []
      → ((e : IoError) (d : Disk) → Same start d → R (err e, d))
      → ((tmp : String) (id : ℕ) (e : IoError) (d : Disk)
          → tmp ≡ sibling os path id "tmp"
          → start.files tmp ≡ none
          → Pending tmp start d
          → R (clean_up os tmp (err e, d)))
      → ((tmp : String) (id : ℕ) (d : Disk)
          → tmp ≡ sibling os path id "tmp"
          → start.files tmp ≡ none
          → IsReady tmp d
          → R (clean_up os tmp (replace tmp path d)))
      → R (write_private os replace path body start)
  unfolding write_private create_temp
  write-rule fresh_start stops fails ready =
      after-Post (λ _. Same start) (Same start) R _ _ _ (plain_call-Post os start)
        (λ _ d1 same.
          after-Post (IsFresh os path start) (Same start) R _ _ _
            (create_temp-Post os path 32 start d1 same)
            (λ tmp d2 (id, named, absent, c).
              let pending =
                Pending-change tmp (some "") start start d2
                  ((λ q _. refl), subst (All (Agrees tmp start)) (sym fresh_start) tt) c in
              fill-rule tmp d2 pending (λ e d3 p. fails tmp id e d3 named absent p)
                (λ d3 r. ready tmp id d3 named absent r))
            (λ e d2 same2. stops e d2 same2))
        (λ e d1 same. stops e d1 same)
