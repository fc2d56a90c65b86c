-- ===== src/Platform/Linux/Removal.antt =====
-- What removing the service leaves.
use stdiod.Base.{
  String, ◌≡◌, ◌≢◌, refl, sym, ◌∙◌, ap, inl, inr, Option, none, some, Result, ok, err, Option-cases,
  if_rule,
}
use stdiod.Platform.Linux.{
  Os, Service, Step, then_step, pure_step, systemctl, systemd_user_available, unit_path, disable,
  remove_unit, remove_found, reload_after, uninstall,
}

-- What holds of every way through a step and its continuation.
then_step-rule :
    {A B : Type 0} (P : Result String B × Service → Type 0) (r : Result String A × Service)
    (next : A → Step B)
    → ((a : A) (t : Service) → r ≡ (ok a, t) → P (next a t))
    → ((e : String) (t : Service) → r ≡ (err e, t) → P (err e, t))
    → P (then_step r next)
unfolding then_step
then_step-rule P (ok a, t) next good bad = good a t refl
then_step-rule P (err e, t) next good bad = bad e t refl

-- A success leaves no unit, an error the unit as it was.
abbrev IsRemoval : Service → Result String Unit × Service → Type 0
IsRemoval before r =
    (r.0 ≡ ok tt → r.1.unit ≡ none) × ((e : String) → r.0 ≡ err e → r.1.unit ≡ before.unit)

module _ (os : Os) where
  abbrev SameUnit : {A : Type 0} → Service → Result String A × Service → Type 0
  SameUnit s r = r.1.unit ≡ s.unit

  disable-SameUnit : (s : Service) → SameUnit s (disable os s)
  unfolding disable systemd_user_available systemctl
  disable-SameUnit s =
      if_rule (SameUnit s) (systemd_user_available os s).0 _ _
        (λ _.
          then_step-rule (SameUnit s) _ _ (λ out t e. ap (λ p. p.1.unit) (sym e))
            λ x t e. ap (λ p. p.1.unit) (sym e))
        (λ _. refl)

  reload_after-IsRemoval : (s : Service) → s.unit ≡ none → IsRemoval s (reload_after os s)
  unfolding reload_after systemd_user_available systemctl
  reload_after-IsRemoval s gone =
      if_rule (IsRemoval s) (systemd_user_available os s).0 _ _ (λ _. (λ h. gone, λ e h. refl))
        (λ _. (λ h. gone, λ e h. refl))

  reload_fine : (s : Service) (e : String) → (reload_after os s).0 ≢ err e
  unfolding reload_after
  reload_fine s e =
      let P : Result String Unit × Service → Type 0 = λ r. r.0 ≢ err e in
      if_rule P (systemd_user_available os s).0 _ _ (λ _ h. cc) (λ _ h. cc)

  remove_found-IsRemoval :
      (found : Option String) (s : Service) → s.unit ≡ found → IsRemoval s (remove_found os found s)
  unfolding remove_found
  remove_found-IsRemoval none s e = (λ h. e, λ x h. refl)
  remove_found-IsRemoval (some body) s e = elim (Option-cases os.remove_unit) [
    | inl f ↦ rw (f, remove_found) (λ h. refl, λ x h. cc)
    | inr (x, f) ↦ rw (f, remove_found) (λ h. cc, λ x' h. refl)
  ]

  IsRemoval-start :
      (s t : Service) (r : Result String Unit × Service)
      → t.unit ≡ s.unit
      → IsRemoval t r
      → IsRemoval s r
  IsRemoval-start s t r same (gone, kept) = (gone, λ e h. kept e h ∙ same)

  -- Removing the service leaves no unit file when it reports success, and the unit file as it was when
  -- it reports an error.
  pub uninstall-IsRemoval :
      (s : Service)
      → let r = uninstall os s in
        (r.0 ≡ ok tt → r.1.unit ≡ none) × ((e : String) → r.0 ≡ err e → r.1.unit ≡ s.unit)
  unfolding uninstall remove_unit
  uninstall-IsRemoval s =
      then_step-rule (IsRemoval s) (disable os s) _
        (λ _ s1 off.
          let kept : s1.unit ≡ s.unit = ap (λ p. p.1.unit) (sym off) ∙ disable-SameUnit s in
          then_step-rule (IsRemoval s) (pure_step (unit_path os) s1) _
            (λ _ s2 known.
              let kept2 : s2.unit ≡ s.unit = ap (λ p. p.1.unit) (sym known) ∙ kept in
              let removal = remove_found-IsRemoval s2.unit s2 refl in
              then_step-rule (IsRemoval s) (remove_unit os s2) _
                (λ _ s3 done.
                  let gone : s3.unit ≡ none =
                    ap (λ p. p.1.unit) (sym done) ∙ removal.0 (ap (λ p. p.0) done) in
                  (λ h. (reload_after-IsRemoval s3 gone).0 h, λ e h. absurd (reload_fine s3 e h)))
                λ e s3 failed. (
                  λ h. cc,
                  λ x h.
                      ap (λ p. p.1.unit) (sym failed) ∙ removal.1 e (ap (λ p. p.0) failed) ∙ kept2,
                ))
            λ e s2 failed. (λ h. cc, λ x h. ap (λ p. p.1.unit) (sym failed) ∙ kept))
        λ e s1 failed. (λ h. cc, λ x h. ap (λ p. p.1.unit) (sym failed) ∙ disable-SameUnit s)
