-- ===== src/SecureFile/Faults.antt =====
-- The ends that a write on Windows can come to, as the environment store has them.
use stdiod.Base.{
  ℕ, ◌+◌, String, ◌≡◌, ◌≢◌, refl, sym, ◌∙◌, ap, ◌⊎◌, inl, inr, Option, none, some, [], Result, ok,
  err, Bool-cases, subst,
}
use stdiod.EnvStore.{WriteFault, kept, lost}
use stdiod.SecureFile.{
  IoError, Disk, Os, Outcome, update, rename, remove_file, sibling, clean_up, write_private,
  replace_windows, install, set_aside, vanished?, in_the_way?, unique_sibling_path,
}
use stdiod.SecureFile.Calls.{
  Post, after-Post, Post-map, Post-state, Same, Changed, update-other, update-same, moved,
  rename-Post, remove_file-Post, sibling-path, tmp_is_no_bak,
}
use stdiod.SecureFile.Pending.{write-rule}

-- The file after a write, by its fault.
abbrev pub left_by : Option WriteFault → (old : Option String) → (body : String) → Option String
left_by none old body = some body
left_by (some kept) old body = old
left_by (some lost) old body = none

abbrev pub IsReported : Option WriteFault → Result IoError Unit → Type 0
IsReported none r = r ≡ ok tt
IsReported (some fault) r = (e : IoError) × (r ≡ err e)

abbrev KeptOrGone : String → Option String → Disk → Type 0
KeptOrGone path old d = (d.files path ≡ old) ⊎ (d.files path ≡ none)

-- The new contents after a success, the old or none after an error.
abbrev Ends : (path body : String) → Option String → Outcome → Type 0
Ends path body old = Post (λ _ d. d.files path ≡ some body) (KeptOrGone path old)

module _ (os : Os) (path body : String) (old : Option String) where
  -- A file that is moved to the path, and one that is removed beside it.
  rename-to :
      (from x : String) (d : Disk)
      → path ≢ from
      → d.files from ≡ some x
      → Post (λ _ d'. d'.files path ≡ some x) (Same d) (rename os from path d)
  rename-to from x d differ there =
      Post-map
        (λ _ d'.
          (c : String) × (d.files from ≡ some c) × Changed (moved os from path c d.files) d d')
        (λ _ d'. d'.files path ≡ some x) (Same d) (Same d) _ (rename-Post os from path d)
        (λ _ d' (c, found, changed).
          ap (λ f. f path) changed.0
          ∙ update-other from none (update path (some c) d.files) path differ
          ∙ update-same path (some c) d.files
          ∙ sym found
          ∙ there)
        (λ d' same. same)

  remove-beside :
      (other : String) (d : Disk)
      → path ≢ other
      → (remove_file os other d).1.files path ≡ d.files path
  remove-beside other d differ =
      Post-state (λ d'. d'.files path ≡ d.files path) _
        (Post-map (λ _. Changed (update other none d.files) d)
          (λ _ d'. d'.files path ≡ d.files path) (Same d) (λ d'. d'.files path ≡ d.files path) _
          (remove_file-Post os other d)
          (λ _ d' changed. ap (λ f. f path) changed.0 ∙ update-other other none d.files path differ)
          λ d' same. ap (λ f. f path) same.0)

  clean_up-Ends :
      (tmp : String) (r : Outcome)
      → path ≢ tmp
      → Ends path body old r
      → Ends path body old (clean_up os tmp r)
  unfolding clean_up
  clean_up-Ends tmp (ok _, d) differ put = put
  clean_up-Ends tmp (err e, d) differ (inl same) = inl (remove-beside tmp d differ ∙ same)
  clean_up-Ends tmp (err e, d) differ (inr gone) = inr (remove-beside tmp d differ ∙ gone)

  -- The new file takes the place, and a rename that fails leaves what was there.
  rename-Ends :
      (tmp : String) (d : Disk)
      → path ≢ tmp
      → d.files tmp ≡ some body
      → KeptOrGone path old d
      → Ends path body old (rename os tmp path d)
  rename-Ends tmp d differ filled there =
      Post-map (λ _ d'. d'.files path ≡ some body) (λ _ d'. d'.files path ≡ some body) (Same d)
        (KeptOrGone path old) _ (rename-to tmp body d differ filled) (λ _ d' h. h)
        (λ d' same. subst (λ f. (f path ≡ old) ⊎ (f path ≡ none)) (sym same.0) there)

  module _ (tmp backup : String) (differ : path ≢ tmp) (aside : path ≢ backup) where
    -- The old file is the backup, and none is at the path.
    install-Ends :
        (c : String) (d : Disk)
        → d.files tmp ≡ some body
        → d.files backup ≡ some c
        → some c ≡ old
        → d.files path ≡ none
        → Ends path body old (install os tmp path backup d)
    unfolding install
    install-Ends c d filled copy own gone =
        after-Post (λ _ d'. d'.files path ≡ some body) (Same d) (Ends path body old) _ _ _
          (rename-to tmp body d differ filled) (λ _ d' put. remove-beside backup d' aside ∙ put)
          λ e d' same. Post-state (KeptOrGone path old) _ (
            Post-map (λ _ d2. d2.files path ≡ some c) (λ _. KeptOrGone path old) (Same d')
              (KeptOrGone path old) _
              (rename-to backup c d' aside (ap (λ f. f backup) same.0 ∙ copy))
              (λ _ d2 back. inl (back ∙ own))
              λ d2 same2. inr (ap (λ f. f path) (same2.0 ∙ same.0) ∙ gone))

    -- The directory once the old file is moved to the backup.
    moved-Ends :
        (c : String) (d d' : Disk)
        → backup ≢ tmp
        → d.files tmp ≡ some body
        → d.files path ≡ old
        → d.files path ≡ some c
        → Changed (moved os path backup c d.files) d d'
        → Ends path body old (install os tmp path backup d')
    moved-Ends c d d' bak_no_tmp filled own found changed =
        install-Ends c d'
          (ap (λ f. f tmp) changed.0
            ∙ update-other path none (update backup (some c) d.files) tmp (λ e. differ (sym e))
            ∙ update-other backup (some c) d.files tmp (λ e. bak_no_tmp (sym e))
            ∙ filled)
          (ap (λ f. f backup) changed.0
            ∙ update-other path none (update backup (some c) d.files) backup (λ e. aside (sym e))
            ∙ update-same backup (some c) d.files)
          (sym found ∙ own)
          (ap (λ f. f path) changed.0 ∙ update-same path none (update backup (some c) d.files))

module _ (os : Os) (path body : String) (old : Option String) (tmp : String) (id : ℕ)
    (named : tmp ≡ sibling os path id "tmp") where
  apart : path ≢ tmp
  apart e = sibling-path os path id "tmp" (sym (e ∙ named))

  set_aside-Ends :
      (d : Disk)
      → d.files tmp ≡ some body
      → d.files path ≡ old
      → Ends path body old (set_aside os tmp path d)
  unfolding set_aside unique_sibling_path
  set_aside-Ends d filled own =
      let backup = sibling os path d.next_temp_id "bak" in
      let next : Disk = record d { next_temp_id = d.next_temp_id + 1 } in
      after-Post
        (λ _ d'.
          (c : String) × (next.files path ≡ some c)
          × Changed (moved os path backup c next.files) next d')
        (Same next) (Ends path body old) _ _ _ (rename-Post os path backup next)
        (λ _ d' (c, found, changed).
          moved-Ends os path body old tmp backup apart
            (λ e. sibling-path os path d.next_temp_id "bak" (sym e)) c next d'
            (λ e. tmp_is_no_bak os path id d.next_temp_id (sym (e ∙ named))) filled own found
            changed)
        λ e d' same.
          let there = ap (λ f. f path) same.0 ∙ own in
          elim (Bool-cases (vanished? e)) [
            | inl f ↦ rw f (
                rename-Ends os path body old tmp d' apart (ap (λ f. f tmp) same.0 ∙ filled)
                  (inl there))
            | inr f ↦ rw f (inl there)
          ]

  replace-Ends :
      (d : Disk)
      → d.files tmp ≡ some body
      → d.files path ≡ old
      → Ends path body old (replace_windows os tmp path d)
  unfolding replace_windows
  replace-Ends d filled own =
      after-Post (λ _ d'. d'.files path ≡ some body) (Same d) (Ends path body old) _ _ _
        (rename-to os path body old tmp body d apart filled) (λ _ d' h. h)
        λ e d' same.
          let there = ap (λ f. f path) same.0 ∙ own in
          elim (Bool-cases (in_the_way? e)) [
            | inl f ↦ rw f (set_aside-Ends d' (ap (λ f. f tmp) same.0 ∙ filled) there)
            | inr f ↦ rw f (inl there)
          ]

-- Each of the ends has its fault.
fault-Ends :
    (path body : String) (old : Option String) (r : Outcome)
    → Ends path body old r
    → (fault : Option WriteFault) × IsReported fault r.0 × (r.1.files path ≡ left_by fault old body)
fault-Ends path body old (ok _, d) put = (none, refl, put)
fault-Ends path body old (err e, d) (inl same) = (some kept, (e, refl), same)
fault-Ends path body old (err e, d) (inr gone) = (some lost, (e, refl), gone)

module _ (os : Os) (path body : String) (start : Disk) where
  -- A write on Windows, whichever calls fail and whatever they fail with, has one of the three ends
  -- that the environment store takes a write to have: it reports success, and the file has the new
  -- contents; or it reports an error, and the file is as it was; or it reports an error, and there is
  -- no file at the path.
  pub write_private-fault :
      start.past ≡ []
      → let r = write_private os (replace_windows os) path body start in
        (fault : Option WriteFault) × IsReported fault r.0
        × (r.1.files path ≡ left_by fault (start.files path) body)
  write_private-fault begins =
      let old = start.files path in
      fault-Ends path body old _ (
        write-rule os (replace_windows os) path body start (Ends path body old) begins
          (λ e d same. inl (ap (λ f. f path) same.0))
          (λ tmp id e d named absent pending.
            let differ = apart os path body old tmp id named in
            clean_up-Ends os path body old tmp (err e, d) differ (inl (pending.0 path differ)))
          λ tmp id d named absent (pending, filled).
            let differ = apart os path body old tmp id named in
            clean_up-Ends os path body old tmp _ differ
              (replace-Ends os path body old tmp id named d filled (pending.0 path differ)))
