-- ===== src/Cli/Logout/Offline.antt =====
-- What a logout leaves for the daemon, and what it sends.
use stdiod.Base.{
  String, Bool, false, ◌≡◌, ◌≢◌, bind-inv, map_err-inv, ok_inj, some_inj, sym, ap, ◌∙◌, map_err,
  is_some, refl, ◌⊎◌, inl, inr, Option, none, some, [], ◌∷◌, ok, Option-cases, Result-cases,
  Bool-cases, ◌>>◌,
}
use stdiod.Config.{
  Resolved, resolved_credential, has_issuer_bound_values, PersistedConfig, FileRead, Machine,
  load_from, usable_credential, choose_credential, nonempty, nonempty-inv, CredentialRef,
  CredentialKind, clear_authentication, client_access_token, legacy_api_key,
}
use stdiod.Config.Backend.{Url}
use stdiod.Config.Merge.{
  merge_with, merge_checked, merge_saved, saved_backend, check_backend, check_device, normalize_opt,
  merge,
}
use stdiod.DaemonAuth.{from_args, ResolvedRun, RunArgs, overrides, invalid, from_merged}
use stdiod.Http.{Request}
use stdiod.Auth
use stdiod.Cli.Login.{revoke_previous}
use stdiod.Cli.Logout.{run, capture_of, capture_revocation}

-- The only revocation that a logout sends is for the client token of the configuration, at its backend.
abbrev pub IsOwn : (String → Option Url) → PersistedConfig → Request → Type 0
IsOwn parse c r =
    (backend : String) × (base : String) × (token : String) × (c.backend_url ≡ some backend)
    × (Auth.new parse backend ≡ ok base)
    × (c.client_access_token ≡ some token)
    × (r ≡ Auth.post base "/api/v1/auth/device/revoke" (some token) none)

-- Without a credential there is nothing to connect with.
merged_offline :
    (machine : Machine) (c : PersistedConfig) (args : RunArgs) (a b : Option String)
    (r : ResolvedRun)
    → from_merged machine (merge_saved (clear_authentication c) (overrides args) a b) ≢ ok r
unfolding from_merged merge_saved clear_authentication resolved_credential choose_credential
    nonempty
merged_offline machine c args a b r e = cc

merge_with-saved :
    (parse : String → Option Url) (c : PersistedConfig) (given m : Resolved)
    → merge_with parse false c given ≡ ok m
    → (a : Option String) × (b : Option String) × (m ≡ merge_saved c given a b)
unfolding merge_with merge_checked
merge_with-saved parse c given m e =
    let (a, _, f) = bind-inv (normalize_opt parse given.backend_url) _ m e in
    let (b, _, g) = bind-inv (saved_backend parse false a c.backend_url) _ m f in
    let checks = check_backend a b (has_issuer_bound_values c) >> check_device c given.device_id in
    let (_, _, h) = bind-inv checks _ m g in (a, b, sym (ok_inj h))

-- A client token that is chosen is the one of the configuration.
usable_credential-token :
    (c : PersistedConfig) (credential : CredentialRef)
    → usable_credential c ≡ some credential
    → credential.kind ≡ client_access_token
    → c.client_access_token ≡ some credential.token
unfolding usable_credential choose_credential
usable_credential-token c credential e client =
    elim (Option-cases (nonempty c.client_access_token)) [
      | inr (t, f) ↦ nonempty-inv c.client_access_token credential.token (let e' = rw f at e in cc)
      | inl f ↦ elim (Option-cases (nonempty c.api_key)) [
        | inl g ↦ absurd (let e' = rw (f, g) at e in cc)
        | inr (k, g) ↦ absurd (let e' = rw (f, g) at e in cc)
      ]
    ]

kind-cases : (k : CredentialKind) → (k ≡ client_access_token) ⊎ (k ≡ legacy_api_key)
kind-cases client_access_token = inl refl
kind-cases legacy_api_key = inr refl

-- What is sent for a captured revocation.
capture-IsOwn :
    (parse : String → Option Url) (backend : Option String) (credential : Option CredentialRef)
    → let sent = revoke_previous parse (capture_of backend credential) in
      (sent ≡ [])
      ⊎ (r : Request) × (sent ≡ r ∷ [])
        × (b : String) × (base : String) × (cr : CredentialRef) × (backend ≡ some b)
        × (Auth.new parse b ≡ ok base)
        × (credential ≡ some cr)
        × (cr.kind ≡ client_access_token)
        × (r ≡ Auth.post base "/api/v1/auth/device/revoke" (some cr.token) none)
unfolding revoke_previous
capture-IsOwn parse none credential = inl refl
capture-IsOwn parse (some b) none = inl refl
capture-IsOwn parse (some b) (some cr) = elim (kind-cases cr.kind) [
  | inr legacy ↦ rw legacy (inl refl)
  | inl client ↦ elim (Result-cases (Auth.new parse b)) [
    | inr (e, bad) ↦ rw (client, bad, revoke_previous) (inl refl)
    | inl (base, fine) ↦
        rw (client, fine, revoke_previous) (inr (_, refl, b, base, _, refl, fine, refl, refl, refl))
  ]
]

module _ (parse : String → Option Url) (path : String) (file : FileRead) (save_fails : Bool) where
  run-saved :
      (after : PersistedConfig)
      → (run parse path file save_fails).saved ≡ some after
      → (c : PersistedConfig) × (after ≡ clear_authentication c)
  unfolding run
  run-saved after e = elim (Result-cases (load_from path file)) [
    | inr (x, bad) ↦ absurd (let e' = rw (bad, run) at e in cc)
    | inl (c, loads) ↦ elim (Bool-cases save_fails) [
      | inl f ↦ absurd (let e' = rw (loads, f, run) at e in cc)
      | inr f ↦ (c, sym (some_inj (rw (loads, f, run) at e)))
    ]
  ]

  -- After a logout that succeeded, the daemon does not resolve connection values from the saved
  -- configuration on any machine, whatever its arguments are, unless they have an API key.
  pub run-from_args :
      (after : PersistedConfig) (machine : Machine) (args : RunArgs) (r : ResolvedRun)
      → (run parse path file save_fails).saved ≡ some after
      → args.api_key ≡ none
      → from_args parse machine (ok after) args ≢ ok r
  unfolding from_args merge
  run-from_args after machine args r saved keyless e =
      let (c, cleared) = run-saved after saved in
      let e' : from_args parse machine (ok (clear_authentication c)) args ≡ ok r =
        sym (ap (λ x. from_args parse machine (ok x) args) cleared) ∙ e in
      let (m, merges, starts) =
        bind-inv (map_err invalid (merge parse (clear_authentication c) (overrides args))) _ r e' in
      let keyless? : merge_with parse false (clear_authentication c) (overrides args) ≡ ok m =
        ap (λ k. merge_with parse (is_some k) (clear_authentication c) (overrides args))
          (sym keyless)
        ∙ map_err-inv _ _ m merges in
      let (a, b, same) = merge_with-saved parse _ _ m keyless? in
      merged_offline machine c args a b r (ap (from_merged machine) (sym same) ∙ starts)

  -- A logout sends at most one revocation, and only when the cleared configuration was saved: for the
  -- client token that was saved, at the backend it was saved with.
  pub run-IsOwn :
      (c : PersistedConfig)
      → load_from path file ≡ ok c
      → let l = run parse path file save_fails in
        (l.revocations ≡ [])
        ⊎ ((l.result ≡ ok tt) × (r : Request) × (l.revocations ≡ r ∷ []) × IsOwn parse c r)
  unfolding run capture_revocation
  run-IsOwn c loads = elim (Bool-cases save_fails) [
    | inl f ↦ rw (loads, f, run) (inl refl)
    | inr f ↦
        rw (loads, f, run)
          elim (capture-IsOwn parse c.backend_url (usable_credential c)) [
            | inl nothing ↦ inl nothing
            | inr (r, sent, b, base, cr, saved, known, chosen, client, is) ↦ inr (
              refl,
              r,
              sent,
              (b, base, cr.token, saved, known, usable_credential-token c cr chosen client, is),
            )
          ]
  ]
