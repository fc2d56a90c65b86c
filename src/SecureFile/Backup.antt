-- ===== src/SecureFile/Backup.antt =====
-- That on Windows no state of the directory is without a copy of the data.
use stdiod.Base.{
  String, ◌≡◌, ◌≢◌, sym, ◌∙◌, ap, ◌⊎◌, inl, none, some, [], ◌∷◌, ok, err, All, All-map, subst,
}
use stdiod.SecureFile.{
  Files, Disk, Os, Outcome, update, remove_file, clean_up, write_private, replace_windows,
}
use stdiod.SecureFile.Calls.{Post-map, Post-state, Same, Changed, update-other, remove_file-Post}
use stdiod.SecureFile.Aside.{HasCopy, IsSafe, IsGood, differs, replace-IsGood}
use stdiod.SecureFile.Pending.{Agrees, Pending, write-rule}

-- Some file has the old or the new contents.
abbrev pub HasData : (old body : String) → Files → Type 0
HasData old body files = (q : String) × ((files q ≡ some old) ⊎ (files q ≡ some body))

-- No state was without the data, and a success put the new contents at the path.
abbrev pub IsCovered : (path old body : String) → Outcome → Type 0
IsCovered path old body r =
    All (HasData old body) (r.1.files ∷ r.1.past) × (r.0 ≡ ok tt → r.1.files path ≡ some body)

IsSafe-data :
    (tmp old body : String) (d : Disk)
    → IsSafe tmp old body d
    → All (HasData old body) (d.files ∷ d.past)
IsSafe-data tmp old body d safe =
    All-map (HasCopy tmp old body) (HasData old body) (d.files ∷ d.past)
      (λ f (q, differs, copy). (q, copy)) safe

module _ (os : Os) (path old body : String) where
  IsSafe-remove :
      (tmp : String) (d : Disk)
      → IsSafe tmp old body d
      → IsSafe tmp old body (remove_file os tmp d).1
  IsSafe-remove tmp d (now, past) =
      let (q, differs, copy) = now in
      let still : HasCopy tmp old body (update tmp none d.files) = (
        q,
        differs,
        subst (λ c. (c ≡ some old) ⊎ (c ≡ some body))
            (sym (update-other tmp none d.files q differs)) copy,
      ) in
      Post-state (IsSafe tmp old body) _ (
        Post-map (λ _. Changed (update tmp none d.files) d) (λ _. IsSafe tmp old body) (Same d)
          (IsSafe tmp old body) _ (remove_file-Post os tmp d)
          (λ _ d' (files, history). (
            subst (HasCopy tmp old body) (sym files) still,
            subst (All (HasCopy tmp old body)) (sym history) (now, past),
          ))
          λ d' (files, history). (
            subst (HasCopy tmp old body) (sym files) now,
            subst (All (HasCopy tmp old body)) (sym history) past,
          ))

  clean_up-IsCovered :
      (tmp : String) (r : Outcome)
      → IsGood path old body tmp r
      → IsCovered path old body (clean_up os tmp r)
  unfolding clean_up
  clean_up-IsCovered tmp (ok _, d) (safe, put) = (IsSafe-data tmp old body d safe, λ h. put)
  clean_up-IsCovered tmp (err e, d) safe =
      (IsSafe-data tmp old body (remove_file os tmp d).1 (IsSafe-remove tmp d safe), λ h. cc)

  module _ (start : Disk) (own : start.files path ≡ some old) where
    -- Before the replacement the file itself is the copy.
    Pending-IsSafe :
        (tmp : String) (d : Disk) → path ≢ tmp → Pending tmp start d → IsSafe tmp old body d
    Pending-IsSafe tmp d differ (now, past) =
        let copies : (f : Files) → Agrees tmp start f → HasCopy tmp old body f =
          λ f agrees. (path, differ, inl (agrees path differ ∙ own)) in
        (copies d.files now, All-map (Agrees tmp start) (HasCopy tmp old body) d.past copies past)

    -- On Windows a write to a file that is there leaves no state of the directory without its old or
    -- the new contents in some file, whichever calls fail and whatever error they fail with; and when
    -- it reports success, the file has the new contents.
    pub write_private-IsCovered :
        start.past ≡ []
        → IsCovered path old body (write_private os (replace_windows os) path body start)
    write_private-IsCovered begins =
        write-rule os (replace_windows os) path body start (IsCovered path old body) begins
          (λ e d same. (
            subst (All (HasData old body)) (sym (ap (λ p. d.files ∷ p) (same.1 ∙ begins)))
                ((path, inl (ap (λ f. f path) same.0 ∙ own)), tt),
            λ h. cc,
          ))
          (λ tmp id e d named absent pending.
            clean_up-IsCovered tmp (err e, d)
              (Pending-IsSafe tmp d (differs os path old body tmp id named) pending))
          λ tmp id d named absent (pending, filled).
            let differ = differs os path old body tmp id named in
            clean_up-IsCovered tmp _ (
              replace-IsGood os path old body tmp id named d (Pending-IsSafe tmp d differ pending)
                filled (pending.0 path differ ∙ own))
