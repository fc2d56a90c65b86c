-- ===== src/DaemonAuth/Installed.antt =====
-- What the daemon runs with, and that an installation that passed its check can start it.
use stdiod.Config.{nonempty-inv}
use stdiod.Base.{ok_inj}
use stdiod.Base.{some_inj}
use stdiod.Base.{
  String, ◌≡◌, refl, sym, subst, ap, true, false, Option, none, some, is_some, Result, ok, bind-inv,
  map_err-inv, or_fail-inv, or_fail, map_err, arith, inl, inr, Option-cases,
}
use stdiod.Base.Text.{is_blank}
use stdiod.Config.{
  CredentialKind, client_access_token, legacy_api_key, CredentialRef, PersistedConfig, Resolved,
  Machine, nonempty, choose_credential, credential_of, usable_credential, resolved_credential,
  backend_url, device_id, device_label,
}
use stdiod.Config.Backend.{Url, check_binding, normalize_backend_url, ensure_installable}
use stdiod.Config.Merge.{
  check_backend, check_device, merge, merge_with, merge_checked, merge_saved, normalize_opt,
  saved_backend,
}
use stdiod.DaemonAuth.{
  RunArgs, awaiting_login, invalid, ResolvedRun, overrides, installation_for, device_for,
  from_merged, from_args,
}

-- A client credential comes with an installation and a device, a legacy key with no installation.
abbrev pub HasInstallation : CredentialKind → Option String → String → Type 0
HasInstallation client_access_token installation device =
    (is_some (nonempty installation) ≡ true) × (is_blank device ≡ false)
HasInstallation legacy_api_key installation device = installation ≡ none

-- The shape of the values that the daemon runs with.
pub record IsComplete (r : ResolvedRun) : Type 0 where
  pub has_credential : is_blank r.credential ≡ false
  pub installed : HasInstallation r.credential_kind r.client_installation_id r.device_id

nonempty-some : (v : Option String) (s : String) → nonempty v ≡ some s → is_blank s ≡ false
unfolding nonempty
nonempty-some none s e = cc
nonempty-some (some v) s e = ground arith

nonempty_again : (v : Option String) (s : String) → nonempty v ≡ some s → nonempty (some s) ≡ some s
unfolding nonempty
nonempty_again v s e = rw (nonempty-some v s e)

credential_of-token :
    (kind : CredentialKind) (v : Option String) (c : CredentialRef)
    → credential_of kind (nonempty v) ≡ some c
    → is_blank c.token ≡ false
credential_of-token kind v c e = elim (Option-cases (nonempty v)) [
  | inl f ↦ absurd (let e' : none ≡ some c = rw f at e in cc)
  | inr (s, f) ↦
      let same : record { token = s; kind = kind } ≡ c = some_inj (rw f at e) in
      rw (← same) (nonempty-some v s f)
]

resolved_credential-inv :
    (m : Resolved) (c : CredentialRef)
    → resolved_credential m ≡ ok c
    → choose_credential m.client_access_token m.api_key ≡ some c
unfolding resolved_credential
resolved_credential-inv m c e = or_fail-inv _ _ c e

choose_credential-token :
    (token key : Option String) (c : CredentialRef)
    → choose_credential token key ≡ some c
    → is_blank c.token ≡ false
unfolding choose_credential
choose_credential-token token key c e = elim (Option-cases (nonempty token)) [
  | inl f ↦ credential_of-token legacy_api_key key c (rw f at e)
  | inr (s, f) ↦ credential_of-token client_access_token token c (rw f (rw f at e))
]

installed_lem :
    (kind : CredentialKind) (machine : Machine) (m : Resolved) (installation : Option String)
    (device : String)
    → installation_for kind m ≡ ok installation
    → device_for kind machine m ≡ ok device
    → HasInstallation kind installation device
unfolding installation_for device_for
installed_lem client_access_token machine m installation device e f =
    let (id, g, h) =
      bind-inv (or_fail (nonempty m.client_installation_id) awaiting_login) _ installation e in
    let kept : nonempty m.client_installation_id ≡ some id = or_fail-inv _ awaiting_login id g in
    let same : some id ≡ installation = ok_inj h in
    (
      rw (← same) (ap is_some (nonempty_again m.client_installation_id id kept)),
      nonempty-some m.device_id device (or_fail-inv _ awaiting_login device f),
    )
installed_lem legacy_api_key machine m installation device e f = cc

from_merged-IsComplete :
    (machine : Machine) (m : Resolved) (r : ResolvedRun)
    → from_merged machine m ≡ ok r
    → IsComplete r
unfolding from_merged
from_merged-IsComplete machine m r e =
    let (c, e1, f1) = bind-inv (map_err (λ _. awaiting_login) (resolved_credential m)) _ r e in
    let (installation, e2, f2) = bind-inv (installation_for c.kind m) _ r f1 in
    let (device, e3, f3) = bind-inv (device_for c.kind machine m) _ r f2 in
    let (backend, e4, f4) = bind-inv (map_err (λ _. awaiting_login) (backend_url m)) _ r f3 in
    subst IsComplete (ok_inj f4) (record {
      has_credential =
          choose_credential-token m.client_access_token m.api_key c
            (resolved_credential-inv m c (map_err-inv _ (resolved_credential m) c e1));
      installed = installed_lem c.kind machine m installation device e2 e3;
    })

from_merged_lem :
    (machine : Machine) (m : Resolved) (c : CredentialRef) (installation : Option String)
    (device backend : String)
    → resolved_credential m ≡ ok c
    → installation_for c.kind m ≡ ok installation
    → device_for c.kind machine m ≡ ok device
    → backend_url m ≡ ok backend
    → from_merged machine m
      ≡ ok (record {
        backend = backend;
        credential = c.token;
        credential_kind = c.kind;
        client_installation_id = installation;
        edison_secret_key = m.edison_secret_key;
        device_id = device;
        label = device_label machine m;
      })
unfolding from_merged
from_merged_lem machine m c installation device backend e1 e2 e3 e4 =
    rw e1 (rw e2 (rw e3 (rw e4 refl)))

-- Values that `from_args` returns have a credential that is not empty. A client credential comes
-- with an installation and a device that are not empty, and a legacy key with no installation.
pub from_args-IsComplete :
    (parse : String → Option Url) (machine : Machine) (load : Result String PersistedConfig)
    (args : RunArgs) (r : ResolvedRun)
    → from_args parse machine load args ≡ ok r
    → IsComplete r
unfolding from_args
from_args-IsComplete parse machine load args r e =
    let (c, e1, f1) = bind-inv (map_err invalid load) _ r e in
    let (m, e2, f2) = bind-inv (map_err invalid (merge parse c (overrides args))) _ r f1 in
    from_merged-IsComplete machine m r f2

-- No argument and no environment variable is given.
abbrev pub no_args : RunArgs
no_args = record {
  backend = none;
  api_key = none;
  edison_secret_key = none;
  device_id = none;
  label = none;
}

-- The run that a saved configuration stands for.
pub record Runs (parse : String → Option Url) (machine : Machine) (c : PersistedConfig)
    : Type 0 where
  pub run : ResolvedRun
  pub starts : from_args parse machine (ok c) no_args ≡ ok run
  pub own_backend : normalize_opt parse c.backend_url ≡ ok (some run.backend)
  pub own_credential :
      usable_credential c ≡ some (record { token = run.credential; kind = run.credential_kind })

module _ (parse : String → Option Url) (machine : Machine) (c : PersistedConfig) where
  -- Without arguments the merge is the saved configuration.
  merge-no_args :
      (u : String)
      → normalize_opt parse c.backend_url ≡ ok (some u)
      → merge parse c (overrides no_args) ≡ ok (merge_saved c (overrides no_args) none (some u))
  unfolding merge merge_with merge_checked saved_backend check_backend check_device normalize_opt
  merge-no_args u e = rw e refl

  abbrev saved_run : String → Resolved
  saved_run u = merge_saved c (overrides no_args) none (some u)

  binding_starts :
      (kind : CredentialKind) (u : String)
      → check_binding kind c ≡ ok tt
      → (installation : Option String) × (device : String) × (installation_for kind (saved_run u)
          ≡ ok installation)
        × (device_for kind machine (saved_run u) ≡ ok device)
  unfolding check_binding installation_for device_for merge_saved
  binding_starts client_access_token u e = elim (Option-cases (nonempty c.client_installation_id)) [
    | inl f ↦ absurd (let e' = rw f at e in cc)
    | inr (i, f) ↦ elim (Option-cases (nonempty c.device_id)) [
      | inl g ↦ absurd (let e' = rw (f, g) at e in cc)
      | inr (d, g) ↦ (some i, d, rw f refl, rw g refl)
    ]
  ]
  binding_starts legacy_api_key u e = (none, device_id machine (saved_run u), refl, refl)

  credential_starts :
      (u : String) (cr : CredentialRef)
      → usable_credential c ≡ some cr
      → resolved_credential (saved_run u) ≡ ok cr
  unfolding usable_credential resolved_credential merge_saved
  credential_starts u cr e = rw e refl

  backend_starts : (u : String) → backend_url (saved_run u) ≡ ok u
  unfolding backend_url merge_saved
  backend_starts u = refl

  from_saved :
      (u : String) (cr : CredentialRef)
      → normalize_opt parse c.backend_url ≡ ok (some u)
      → usable_credential c ≡ some cr
      → check_binding cr.kind c ≡ ok tt
      → Runs parse machine c
  unfolding from_args merge_saved
  from_saved u cr e1 e2 e3 =
      let (installation, device, f, g) = binding_starts cr.kind u e3 in
      record {
        run = record {
          backend = u;
          credential = cr.token;
          credential_kind = cr.kind;
          client_installation_id = installation;
          edison_secret_key = c.edison_secret_key;
          device_id = device;
          label = device_label machine (saved_run u);
        };
        starts = rw (merge-no_args u e1) (
            from_merged_lem machine (saved_run u) cr installation device u
              (credential_starts u cr e2) f g (backend_starts u));
        own_backend = e1;
        own_credential = e2;
      }

  -- A saved configuration that passes the check of a supervisor installation starts the daemon
  -- without arguments, on its own backend and with its own credential.
  pub ensure_installable-Runs : ensure_installable parse c ≡ ok tt → Runs parse machine c
  unfolding ensure_installable normalize_opt
  ensure_installable-Runs e =
      let (b, e1, f1) = bind-inv (or_fail (nonempty c.backend_url) _) _ tt e in
      let (u, e2, f2) = bind-inv (normalize_backend_url parse b) _ tt f1 in
      let (cr, e3, f3) = bind-inv (or_fail (usable_credential c) _) _ tt f2 in
      from_saved u cr
        (subst (λ v. normalize_opt parse v ≡ ok (some u))
          (sym (nonempty-inv c.backend_url b (or_fail-inv _ _ b e1))) (rw e2 refl))
        (or_fail-inv _ _ cr e3) f3
