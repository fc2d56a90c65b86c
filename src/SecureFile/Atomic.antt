-- ===== src/SecureFile/Atomic.antt =====
-- That a write on Unix replaces the file at once, and touches no other.
use stdiod.Base.{
  ℕ, String, ◌≡◌, ◌≢◌, sym, ◌∙◌, ap, none, some, List, [], ◌∷◌, ok, err, All, All-map, subst,
  some_inj, String-discrete,
}
use stdiod.SecureFile.{
  IoError, Files, Disk, Os, Outcome, update, sibling, clean_up, write_private, replace_unix,
}
use stdiod.SecureFile.Calls.{
  after-Post, Same, Changed, update-other, update-same, moved, rename-Post, sibling-path,
}
use stdiod.SecureFile.Pending.{Agrees, Pending, Pending-Same, Pending-remove, write-rule}

-- What a write leaves: on success the new contents and all other files as they were, on an error the
-- old contents and no file gone or changed, and in every state before the last the old contents.
pub record IsAtomic (path body : String) (start : Disk) (r : Outcome) : Type 0 where
  pub written :
      r.0 ≡ ok tt
      → (r.1.files path ≡ some body) × ((q : String) → q ≢ path → r.1.files q ≡ start.files q)
  pub kept :
      (e : IoError)
      → r.0 ≡ err e
      → (r.1.files path ≡ start.files path)
        × ((q contents : String) → start.files q ≡ some contents → r.1.files q ≡ some contents)
  pub whole : All (λ files. files path ≡ start.files path) r.1.past

module _ (os : Os) (path body : String) (start : Disk) where
  -- All the past states have the old contents.
  old-past :
      (tmp : String) (states : List Files)
      → path ≢ tmp
      → All (Agrees tmp start) states
      → All (λ files. files path ≡ start.files path) states
  old-past tmp states differ = All-map (Agrees tmp start) _ states (λ f agrees. agrees path differ)

  -- A file that was there is not the temporary one.
  there_before :
      (tmp : String) (files : Files)
      → start.files tmp ≡ none
      → Agrees tmp start files
      → (q contents : String) → start.files q ≡ some contents
      → files q ≡ some contents
  there_before tmp files absent agrees q contents there =
      agrees q (λ same. let e = sym there ∙ ap start.files same ∙ absent in cc) ∙ there

  error-IsAtomic :
      (tmp : String) (e : IoError) (d : Disk)
      → path ≢ tmp
      → start.files tmp ≡ none
      → Pending tmp start d
      → IsAtomic path body start (err e, d)
  error-IsAtomic tmp e d differ absent (now, past) = record {
    written = λ h. cc;
    kept = λ x h. (now path differ, there_before tmp d.files absent now);
    whole = old-past tmp d.past differ past;
  }

  failed-IsAtomic :
      (tmp : String) (e : IoError) (d : Disk)
      → path ≢ tmp
      → start.files tmp ≡ none
      → Pending tmp start d
      → IsAtomic path body start (clean_up os tmp (err e, d))
  unfolding clean_up
  failed-IsAtomic tmp e d differ absent pending =
      error-IsAtomic tmp e _ differ absent (Pending-remove os tmp start d pending)

  -- The directory once the temporary file has taken the place of the file.
  moved-others :
      (tmp : String) (files : Files) (q : String)
      → start.files tmp ≡ none
      → Agrees tmp start files
      → q ≢ path
      → moved os tmp path body files q ≡ start.files q
  moved-others tmp files q absent agrees other = elim (String-discrete q tmp) [
    | yes same ↦
        ap (moved os tmp path body files) same
        ∙ update-same tmp none (update path (some body) files)
        ∙ sym absent
        ∙ ap start.files (sym same)
    | no differ ↦
        update-other tmp none (update path (some body) files) q differ
        ∙ update-other path (some body) files q other
        ∙ agrees q differ
  ]

  moved-IsAtomic :
      (tmp : String) (d : Disk)
      → path ≢ tmp
      → start.files tmp ≡ none
      → Pending tmp start d
      → d.files tmp ≡ some body
      → IsAtomic path body start (clean_up os tmp (replace_unix os tmp path d))
  unfolding clean_up replace_unix
  moved-IsAtomic tmp d differ absent pending filled =
      after-Post
        (λ _ d'. (c : String) × (d.files tmp ≡ some c) × Changed (moved os tmp path c d.files) d d')
        (Same d) (IsAtomic path body start) _ _ _ (rename-Post os tmp path d)
        (λ _ d' (c, there, (files, past)).
          let own : c ≡ body = some_inj (sym there ∙ filled) in
          let now = files ∙ ap (λ x. moved os tmp path x d.files) own in
          record {
            written = λ _. (
              ap (λ f. f path) now
                  ∙ update-other tmp none (update path (some body) d.files) path differ
                  ∙ update-same path (some body) d.files,
              λ q other. ap (λ f. f q) now ∙ moved-others tmp d.files q absent pending.0 other,
            );
            kept = λ e h. cc;
            whole =
                subst (All (λ f. f path ≡ start.files path)) (sym past)
                  (old-past tmp (d.files ∷ d.past) differ pending);
          })
        λ e d' same.
          failed-IsAtomic tmp e d' differ absent (Pending-Same tmp start d d' pending same)

  sibling-differs : (tmp : String) (id : ℕ) → tmp ≡ sibling os path id "tmp" → path ≢ tmp
  sibling-differs tmp id named e = sibling-path os path id "tmp" (sym (e ∙ named))

  -- A write on Unix is all or nothing, whichever calls fail: on success the file has the new
  -- contents and every other file is as before; on an error the file has its old contents and no
  -- other file is gone or changed; and in all states of the directory before the last one the file
  -- has its old contents.
  pub write_private-IsAtomic :
      start.past ≡ []
      → IsAtomic path body start (write_private os (replace_unix os) path body start)
  write_private-IsAtomic begins =
      write-rule os (replace_unix os) path body start (IsAtomic path body start) begins
        (λ e d same. record {
          written = λ h. cc;
          kept = λ x h. (ap (λ f. f path) same.0, λ q c there. ap (λ f. f q) same.0 ∙ there);
          whole = subst (All (λ f. f path ≡ start.files path)) (sym (same.1 ∙ begins)) tt;
        })
        (λ tmp id e d named absent pending.
          failed-IsAtomic tmp e d (sibling-differs tmp id named) absent pending)
        λ tmp id d named absent ready.
          moved-IsAtomic tmp d (sibling-differs tmp id named) absent ready.0 ready.1
