-- ===== src/SecureFile/Aside.antt =====
-- The replacement on Windows, with the old file aside as a backup.
use stdiod.Base.{
  ℕ, ◌+◌, String, ◌≡◌, ◌≢◌, sym, ◌∙◌, ap, ◌⊎◌, inl, inr, none, some, ok, err, All, subst,
  Bool-cases,
}
use stdiod.SecureFile.{
  IoError, Files, Disk, Os, Outcome, update, rename, remove_file, sibling, replace_windows, install,
  set_aside, vanished?, in_the_way?, unique_sibling_path,
}
use stdiod.SecureFile.Calls.{
  Post, after-Post, Post-map, Post-state, Same, Changed, update-other, update-same, moved,
  rename-Post, remove_file-Post, sibling-path, tmp_is_no_bak,
}

-- Some file other than this one has the old or the new contents.
abbrev pub HasCopy : (avoid old body : String) → Files → Type 0
HasCopy avoid old body files =
    (q : String) × (q ≢ avoid) × ((files q ≡ some old) ⊎ (files q ≡ some body))

-- So it is in all the states up to now.
abbrev pub IsSafe : (avoid old body : String) → Disk → Type 0
IsSafe avoid old body d = HasCopy avoid old body d.files × All (HasCopy avoid old body) d.past

-- A result with which the write may end.
abbrev pub IsGood : (path old body tmp : String) → Outcome → Type 0
IsGood path old body tmp =
    Post (λ _ d. IsSafe tmp old body d × (d.files path ≡ some body)) (IsSafe tmp old body)

module _ (os : Os) (path old body tmp backup : String) (tmp_differs : path ≢ tmp)
    (backup_differs : path ≢ backup) (bak_no_tmp : backup ≢ tmp) where
  IsSafe-change :
      (files : Files) (d d' : Disk)
      → IsSafe tmp old body d
      → Changed files d d'
      → HasCopy tmp old body files
      → IsSafe tmp old body d'
  IsSafe-change files d d' safe (now, past) (q, differs, copy) = (
    subst (HasCopy tmp old body) (sym now) (q, differs, copy),
    subst (All (HasCopy tmp old body)) (sym past) safe,
  )

  IsSafe-Same : (d d' : Disk) → IsSafe tmp old body d → Same d d' → IsSafe tmp old body d'
  IsSafe-Same d d' (here, past) (files, history) = (
    subst (HasCopy tmp old body) (sym files) here,
    subst (All (HasCopy tmp old body)) (sym history) past,
  )

  -- The contents of a file that another was moved to.
  moved-to :
      (from : String) (c : String) (files : Files)
      → path ≢ from
      → moved os from path c files path ≡ some c
  moved-to from c files differ =
      update-other from none (update path (some c) files) path differ
      ∙ update-same path (some c) files

  -- The new file takes its place, or nothing changes.
  rename-put :
      (d : Disk)
      → IsSafe tmp old body d
      → d.files tmp ≡ some body
      → Post
          (λ _ d'. IsSafe tmp old body d' × (d'.files path ≡ some body))
          (Same d)
          (rename os tmp path d)
  rename-put d safe filled =
      Post-map
        (λ _ d'. (c : String) × (d.files tmp ≡ some c) × Changed (moved os tmp path c d.files) d d')
        (λ _ d'. IsSafe tmp old body d' × (d'.files path ≡ some body)) (Same d) (Same d) _
        (rename-Post os tmp path d)
        (λ _ d' (c, there, changed).
          let put = moved-to tmp c d.files tmp_differs ∙ sym there ∙ filled in
          (
            IsSafe-change _ d d' safe changed (path, tmp_differs, inr put),
            ap (λ f. f path) changed.0 ∙ put,
          ))
        (λ d' same. same)

  -- The backup is dropped.
  dropped :
      (d : Disk)
      → IsSafe tmp old body d
      → d.files path ≡ some body
      → IsGood path old body tmp (ok tt, (remove_file os backup d).1)
  dropped d safe put =
      Post-state (λ d'. IsSafe tmp old body d' × (d'.files path ≡ some body)) _
        (Post-map (λ _. Changed (update backup none d.files) d)
          (λ _ d'. IsSafe tmp old body d' × (d'.files path ≡ some body)) (Same d)
          (λ d'. IsSafe tmp old body d' × (d'.files path ≡ some body)) _
          (remove_file-Post os backup d)
          (λ _ d' changed.
            let still = update-other backup none d.files path backup_differs ∙ put in
            (
              IsSafe-change _ d d' safe changed (path, tmp_differs, inr still),
              ap (λ f. f path) changed.0 ∙ still,
            ))
          λ d' same. (IsSafe-Same d d' safe same, ap (λ f. f path) same.0 ∙ put))

  -- The backup takes its old place again.
  rolled_back :
      (e : IoError) (d : Disk)
      → IsSafe tmp old body d
      → d.files backup ≡ some old
      → IsGood path old body tmp (err e, (rename os backup path d).1)
  rolled_back e d safe kept = Post-state (IsSafe tmp old body) _ (
      Post-map
        (λ _ d'.
          (c : String) × (d.files backup ≡ some c) × Changed (moved os backup path c d.files) d d')
        (λ _. IsSafe tmp old body) (Same d) (IsSafe tmp old body) _ (rename-Post os backup path d)
        (λ _ d' (c, there, changed).
          let put = moved-to backup c d.files backup_differs ∙ sym there ∙ kept in
          IsSafe-change _ d d' safe changed (path, tmp_differs, inl put))
        λ d' same. IsSafe-Same d d' safe same)

  install-IsGood :
      (d : Disk)
      → IsSafe tmp old body d
      → d.files tmp ≡ some body
      → d.files backup ≡ some old
      → IsGood path old body tmp (install os tmp path backup d)
  unfolding install
  install-IsGood d safe filled kept =
      after-Post (λ _ d'. IsSafe tmp old body d' × (d'.files path ≡ some body)) (Same d)
        (IsGood path old body tmp) _ _ _ (rename-put d safe filled)
        (λ _ d' (safe', put). dropped d' safe' put)
        λ e d' same.
          rolled_back e d' (IsSafe-Same d d' safe same) (ap (λ f. f backup) same.0 ∙ kept)

  rename-IsGood :
      (d : Disk)
      → IsSafe tmp old body d
      → d.files tmp ≡ some body
      → IsGood path old body tmp (rename os tmp path d)
  rename-IsGood d safe filled =
      Post-map (λ _ d'. IsSafe tmp old body d' × (d'.files path ≡ some body))
        (λ _ d'. IsSafe tmp old body d' × (d'.files path ≡ some body)) (Same d)
        (IsSafe tmp old body) _ (rename-put d safe filled) (λ _ d' h. h)
        (λ d' same. IsSafe-Same d d' safe same)

  -- The directory once the old file is the backup.
  backup-IsGood :
      (d d' : Disk) (c : String)
      → IsSafe tmp old body d
      → d.files tmp ≡ some body
      → d.files path ≡ some old
      → d.files path ≡ some c
      → Changed (moved os path backup c d.files) d d'
      → IsGood path old body tmp (install os tmp path backup d')
  backup-IsGood d d' c safe filled own found changed =
      let aside : moved os path backup c d.files backup ≡ some old =
        update-other path none (update backup (some c) d.files) backup (λ e. backup_differs (sym e))
        ∙ update-same backup (some c) d.files
        ∙ sym found
        ∙ own in
      let new : moved os path backup c d.files tmp ≡ some body =
        update-other path none (update backup (some c) d.files) tmp (λ e. tmp_differs (sym e))
        ∙ update-other backup (some c) d.files tmp (λ e. bak_no_tmp (sym e))
        ∙ filled in
      install-IsGood d' (IsSafe-change _ d d' safe changed (backup, bak_no_tmp, inl aside))
        (ap (λ f. f tmp) changed.0 ∙ new) (ap (λ f. f backup) changed.0 ∙ aside)

module _ (os : Os) (path old body : String) (tmp : String) (id : ℕ)
    (named : tmp ≡ sibling os path id "tmp") where
  pub differs : path ≢ tmp
  differs e = sibling-path os path id "tmp" (sym (e ∙ named))

  bak_differs : (n : ℕ) → path ≢ sibling os path n "bak"
  bak_differs n e = sibling-path os path n "bak" (sym e)

  bak_is_no_tmp : (n : ℕ) → sibling os path n "bak" ≢ tmp
  bak_is_no_tmp n e = tmp_is_no_bak os path id n (sym (e ∙ named))

  set_aside-IsGood :
      (d : Disk)
      → IsSafe tmp old body d
      → d.files tmp ≡ some body
      → d.files path ≡ some old
      → IsGood path old body tmp (set_aside os tmp path d)
  unfolding set_aside unique_sibling_path
  set_aside-IsGood d safe filled own =
      let n = d.next_temp_id in
      let backup = sibling os path n "bak" in
      let next : Disk = record d { next_temp_id = n + 1 } in
      after-Post
        (λ _ d'.
          (c : String) × (next.files path ≡ some c)
          × Changed (moved os path backup c next.files) next d')
        (Same next) (IsGood path old body tmp) _ _ _ (rename-Post os path backup next)
        (λ _ d' (c, found, changed).
          backup-IsGood os path old body tmp backup differs (bak_differs n) (bak_is_no_tmp n) next
            d' c safe filled own found changed)
        λ e d' same.
          let safe' =
            IsSafe-Same os path old body tmp backup differs (bak_differs n) (bak_is_no_tmp n) next
              d' safe same in
          elim (Bool-cases (vanished? e)) [
            | inl f ↦ rw f (
                rename-IsGood os path old body tmp backup differs (bak_differs n) (bak_is_no_tmp n)
                  d' safe' (ap (λ f. f tmp) same.0 ∙ filled))
            | inr f ↦ rw f safe'
          ]

  pub replace-IsGood :
      (d : Disk)
      → IsSafe tmp old body d
      → d.files tmp ≡ some body
      → d.files path ≡ some old
      → IsGood path old body tmp (replace_windows os tmp path d)
  unfolding replace_windows
  replace-IsGood d safe filled own =
      let n = d.next_temp_id in
      after-Post (λ _ d'. IsSafe tmp old body d' × (d'.files path ≡ some body)) (Same d)
        (IsGood path old body tmp) _ _ _
        (rename-put os path old body tmp (sibling os path n "bak") differs (bak_differs n)
          (bak_is_no_tmp n) d safe filled)
        (λ _ d' h. h)
        λ e d' same.
          let safe' =
            IsSafe-Same os path old body tmp (sibling os path n "bak") differs (bak_differs n)
              (bak_is_no_tmp n) d d' safe same in
          elim (Bool-cases (in_the_way? e)) [
            | inl f ↦ rw f (
                set_aside-IsGood d' safe' (ap (λ f. f tmp) same.0 ∙ filled)
                  (ap (λ f. f path) same.0 ∙ own))
            | inr f ↦ rw f safe'
          ]
