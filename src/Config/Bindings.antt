-- ===== src/Config/Bindings.antt =====
-- What `Resolved::merge` keeps together: a saved credential with its backend and its device.
use stdiod.Config.{nonempty-inv}
use stdiod.Base.{ok_inj}
use stdiod.Base.{
  String, Bool, true, false, ◌&&◌, not, Option, none, some, is_some, or_else, same_text?,
  same_text?_iff, ok, err, Result-cases, eq_iff, ◌≡◌, refl, sym, ap, subst, ◌∙◌, ◌⊎◌, inl, inr,
  arith, Bool-cases,
}
use stdiod.Config.{PersistedConfig, Resolved, nonempty, has_issuer_bound_values}
use stdiod.Config.Backend.{Url}
use stdiod.Config.Merge.{
  check_backend, check_device, keeps_backend, preserved, merge_legacy, merge_saved, normalize_opt,
  saved_backend, merge_checked, merge_with, merge,
}

-- Values that the saved backend issued go only to that backend, and a client credential only with
-- the device it was issued for.
pub record IsBound (parse : String → Option Url) (c : PersistedConfig) (r : Resolved) : Type 0 where
  pub own_token : r.client_access_token ≡ c.client_access_token
  pub own_key : r.api_key ≡ c.api_key
  pub own_installation : r.client_installation_id ≡ c.client_installation_id
  pub own_backend :
      has_issuer_bound_values c ≡ true → normalize_opt parse c.backend_url ≡ ok r.backend_url
  pub own_device : is_some (nonempty c.client_access_token) ≡ true → r.device_id ≡ c.device_id

-- The saved configuration holds a legacy key and no client credential, for the backend of `r`.
pub record Inherits (parse : String → Option Url) (c : PersistedConfig) (r : Resolved)
    : Type 0 where
  pub no_client : nonempty c.client_access_token ≡ none
  pub legacy : is_some (nonempty c.api_key) ≡ true
  pub same_backend : normalize_opt parse c.backend_url ≡ ok r.backend_url

-- With an explicit key nothing of a client credential is used, and a saved secret or device only
-- with a saved legacy key and the saved backend.
pub record IsSeparate (parse : String → Option Url) (c : PersistedConfig) (o r : Resolved)
    : Type 0 where
  pub own_key : r.api_key ≡ o.api_key
  pub no_token : r.client_access_token ≡ none
  pub no_installation : r.client_installation_id ≡ none
  pub secret : (r.edison_secret_key ≡ o.edison_secret_key) ⊎ Inherits parse c r
  pub device : (r.device_id ≡ o.device_id) ⊎ Inherits parse c r

module _ (parse : String → Option Url) (c : PersistedConfig) (o : Resolved) where
  record Normalized (has_legacy_override : Bool) (r : Resolved) : Type 0 where
    pub override_backend : Option String
    pub saved : Option String
    pub override_read : normalize_opt parse o.backend_url ≡ ok override_backend
    pub saved_read :
        saved_backend parse has_legacy_override override_backend c.backend_url ≡ ok saved
    pub checked : merge_checked parse has_legacy_override c o override_backend saved ≡ ok r

  check_backend_lem :
      (override_backend saved : Option String)
      → check_backend override_backend saved true ≡ ok tt
      → or_else override_backend saved ≡ saved
  unfolding check_backend
  check_backend_lem none saved e = refl
  check_backend_lem (some requested) (some saved) e = ground (arith, eq_iff requested saved)
  check_backend_lem (some requested) none e = absurd (ground arith)

  check_device_lem :
      (requested : Option String)
      → check_device c requested ≡ ok tt
      → is_some (nonempty c.client_access_token) ≡ true
      → or_else requested c.device_id ≡ c.device_id
  unfolding check_device
  check_device_lem none e h = refl
  check_device_lem (some requested) e h =
      let same : same_text? (nonempty c.device_id) (some requested) ≡ true = ground arith in
      sym (
        nonempty-inv c.device_id requested
          ((same_text?_iff (nonempty c.device_id) (some requested)).0 same))

  merge_checked-IsBound :
      (override_backend saved : Option String) (r : Resolved)
      → normalize_opt parse c.backend_url ≡ ok saved
      → merge_checked parse false c o override_backend saved ≡ ok r
      → IsBound parse c r
  unfolding merge_checked merge_saved
  merge_checked-IsBound override_backend saved r n e =
      elim (Result-cases (check_backend override_backend saved (has_issuer_bound_values c))) [
        | inr (m, f) ↦ absurd (let e' : err m ≡ ok r = rw f at e in cc)
        | inl (u, f) ↦ elim (Result-cases (check_device c o.device_id)) [
          | inr (m, g) ↦ absurd (let e' : err m ≡ ok r = rw (f, g) at e in cc)
          | inl (v, g) ↦
              let same : merge_saved c o override_backend saved ≡ r = ok_inj (rw (f, g) at e) in
              rw (← same) (record {
                own_token = refl;
                own_key = refl;
                own_installation = refl;
                own_backend = λ bound.
                    n ∙ ap ok (sym (check_backend_lem override_backend saved (rw bound at f)));
                own_device = λ client. check_device_lem o.device_id g client;
              })
        ]
      ]

  -- What both normalizations came to when a merge succeeds.
  merge_with-inv :
      (has_legacy_override : Bool) (r : Resolved)
      → merge_with parse has_legacy_override c o ≡ ok r
      → Normalized has_legacy_override r
  unfolding merge_with
  merge_with-inv legacy r e = elim (Result-cases (normalize_opt parse o.backend_url)) [
    | inr (m, f) ↦ absurd (let e' : err m ≡ ok r = rw f at e in cc)
    | inl (override_backend, f) ↦
        elim (Result-cases (saved_backend parse legacy override_backend c.backend_url)) [
          | inr (m, g) ↦ absurd (let e' : err m ≡ ok r = rw (f, g) at e in cc)
          | inl (saved, g) ↦ record {
            override_backend = override_backend;
            saved = saved;
            override_read = f;
            saved_read = g;
            checked = rw (f, g) at e;
          }
        ]
  ]

  -- Without an explicit legacy key, a merge that succeeds keeps the saved credentials and their
  -- installation, sends values that a backend issued to no other backend than the saved one, and
  -- uses a client credential with no other device than the saved one.
  pub merge-IsBound : (r : Resolved) → o.api_key ≡ none → merge parse c o ≡ ok r → IsBound parse c r
  unfolding merge saved_backend
  merge-IsBound r no_key e =
      let n : Normalized false r =
        merge_with-inv false r (subst (λ k. merge_with parse (is_some k) c o ≡ ok r) no_key e) in
      merge_checked-IsBound n.override_backend n.saved r n.saved_read n.checked

  inherits :
      (override_backend saved : Option String)
      → saved_backend parse true override_backend c.backend_url ≡ ok saved
      → keeps_backend override_backend saved ≡ true
      → normalize_opt parse c.backend_url ≡ ok (merge_legacy c o override_backend saved).backend_url
  unfolding saved_backend merge_legacy
  inherits none saved e h = e
  inherits (some requested) saved e h =
      let same : saved ≡ some requested = (same_text?_iff saved (some requested)).0 h in
      elim (Result-cases (normalize_opt parse c.backend_url)) [
        | inl (v, f) ↦ f ∙ ap ok (ok_inj (rw f at e) ∙ same)
        | inr (m, f) ↦ absurd (let e' : none ≡ saved = ok_inj (rw f at e) in cc)
      ]

  or_else-none : (v : Option String) → or_else v none ≡ v
  or_else-none none = refl
  or_else-none (some v) = refl

  merge_legacy-IsSeparate :
      (override_backend saved : Option String)
      → saved_backend parse true override_backend c.backend_url ≡ ok saved
      → IsSeparate parse c o (merge_legacy c o override_backend saved)
  unfolding merge_legacy
  merge_legacy-IsSeparate override_backend saved e =
      let kept =
        not (is_some (nonempty c.client_access_token))
        && is_some (nonempty c.api_key)
        && keeps_backend override_backend saved in
      let r = merge_legacy c o override_backend saved in
      let inherit : kept ≡ true → Inherits parse c r = λ k. record {
        no_client = ground arith;
        legacy = ground arith;
        same_backend = inherits override_backend saved e (ground arith);
      } in
      record {
        own_key = refl;
        no_token = refl;
        no_installation = refl;
        secret = elim (Bool-cases kept) [
          | inl k ↦ inr (inherit k)
          | inr k ↦ inl (
              ap (λ b. or_else o.edison_secret_key (preserved b c.edison_secret_key)) k
              ∙ or_else-none o.edison_secret_key)
        ];
        device = elim (Bool-cases kept) [
          | inl k ↦ inr (inherit k)
          | inr k ↦
              inl (
                ap (λ b. or_else o.device_id (preserved b c.device_id)) k
                ∙ or_else-none o.device_id)
        ];
      }

  -- With an explicit legacy key, a merge that succeeds uses that key and nothing of a saved client
  -- credential. The saved secret key and device are used only if a legacy key was saved, no
  -- client credential, and the backend of the result is the saved one.
  pub merge-IsSeparate :
      (key : String) (r : Resolved)
      → o.api_key ≡ some key
      → merge parse c o ≡ ok r
      → IsSeparate parse c o r
  unfolding merge merge_checked
  merge-IsSeparate key r with_key e =
      let n : Normalized true r =
        merge_with-inv true r (subst (λ k. merge_with parse (is_some k) c o ≡ ok r) with_key e) in
      subst (IsSeparate parse c o) (ok_inj n.checked)
        (merge_legacy-IsSeparate n.override_backend n.saved n.saved_read)
