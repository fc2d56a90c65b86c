-- ===== src/Cli/Login/Secrets.antt =====
-- What a login keeps of the account before it.
use stdiod.Base.{
  String, Bool, true, false, ◌≡◌, refl, ◌⊎◌, inl, inr, Option, none, some, List, [], ok, arith,
  or_else, if◌then◌else◌, not, ◌||◌, if_rule, Option-cases, same_text?_iff, some_inj, bind-inv,
  ok_inj, subst, require,
}
use stdiod.Base.Text.{is_blank}
use stdiod.Config.{PersistedConfig, load_from, nonempty, clear_authentication}
use stdiod.Config.Backend.{Url, same_backend}
use stdiod.Auth.{DeviceTokenResponse}
use stdiod.Http.{Request}
use stdiod.Cli.Login.{
  LoginArgs, Login, Host, account_changed, authorized_config, finish_login, login_with, run,
  save_login, configure_legacy_login, legacy_config, has_client_token,
}
use stdiod.Cli.Login.Outcomes.{by_key, by_device, by_loaded}

-- A login takes the two configurations to be of one account: logins with an API key at one backend,
-- whichever the keys are, or authorizations of one installation by one user of one organization.
abbrev pub IsSameAccount : (String → Option Url) → (before after : PersistedConfig) → Type 0
IsSameAccount parse before after =
    (backend : String) × (after.backend_url ≡ some backend)
    × (same_backend parse before.backend_url backend ≡ true)
    × (((after.client_access_token ≡ none) × (nonempty before.client_access_token ≡ none))
        ⊎ ((after.client_installation_id ≡ before.client_installation_id)
            × (after.authenticated_user_id ≡ before.authenticated_user_id)
            × (after.authenticated_org_id ≡ before.authenticated_org_id)))

-- A secret key that is saved was given to the command, or was saved before for the same account.
abbrev pub KeepsSecret :
    (String → Option Url) → LoginArgs → (before after : PersistedConfig) → Type 0
KeepsSecret parse args before after =
    (secret : String)
    → after.edison_secret_key ≡ some secret
    → (args.edison_secret_key ≡ some secret)
      ⊎ ((before.edison_secret_key ≡ some secret) × IsSameAccount parse before after)

-- The token is for the account of the configuration.
account_changed-same :
    (c : PersistedConfig) (same_issuer : Bool) (token : DeviceTokenResponse)
    → account_changed c same_issuer token ≡ false
    → (same_issuer ≡ true)
      × (some token.client_installation_id ≡ c.client_installation_id)
      × (some token.user_id ≡ c.authenticated_user_id)
      × (some token.org_id ≡ c.authenticated_org_id)
unfolding account_changed
account_changed-same c same_issuer token h = ground (
  arith,
  same_text?_iff c.client_installation_id (some token.client_installation_id),
  same_text?_iff c.authenticated_user_id (some token.user_id),
  same_text?_iff c.authenticated_org_id (some token.org_id),
)

from_either :
    (asked kept : Option String) (secret : String)
    → or_else asked kept ≡ some secret
    → (asked ≡ some secret) ⊎ (kept ≡ some secret)
from_either none kept secret e = inr e
from_either (some s) kept secret e = inl e

-- Where the secret key of an authorized configuration comes from.
authorized_secret :
    (changed : Bool) (asked kept : Option String) (secret : String)
    → (if changed then asked else or_else asked kept) ≡ some secret
    → (asked ≡ some secret) ⊎ ((kept ≡ some secret) × (changed ≡ false))
authorized_secret true asked kept secret e = inl e
authorized_secret false asked kept secret e = elim (from_either asked kept secret e) [
  | inl own ↦ inl own
  | inr old ↦ inr (old, refl)
]

-- Where the secret key of a configuration with an API key comes from.
legacy_secret :
    (cleared : Bool) (c : PersistedConfig) (backend key : String) (args : LoginArgs)
    (secret : String)
    → (legacy_config
        (if cleared then clear_authentication c else c)
        backend
        key
        args).edison_secret_key
      ≡ some secret
    → (args.edison_secret_key ≡ some secret)
      ⊎ ((c.edison_secret_key ≡ some secret) × (cleared ≡ false))
unfolding legacy_config clear_authentication
legacy_secret true c backend key args secret e =
    elim (from_either args.edison_secret_key none secret e) [
      | inl own ↦ inl own
      | inr old ↦ inl (cc)
    ]
legacy_secret false c backend key args secret e =
    elim (from_either args.edison_secret_key c.edison_secret_key secret e) [
      | inl own ↦ inl own
      | inr old ↦ inr (old, refl)
    ]

not_cleared :
    (c : PersistedConfig) (same_issuer : Bool)
    → (not same_issuer || has_client_token c) ≡ false
    → (same_issuer ≡ true) × (nonempty c.client_access_token ≡ none)
unfolding has_client_token
not_cleared c true e = elim (Option-cases (nonempty c.client_access_token)) [
  | inl f ↦ (refl, f)
  | inr (t, f) ↦ absurd (let e' = rw (f, has_client_token) at e in cc)
]
not_cleared c false e = cc

module _ (parse : String → Option Url) (args : LoginArgs) (c : PersistedConfig)
    (backend : String) where
  authorized-KeepsSecret :
      (token : DeviceTokenResponse)
      → let changed = account_changed c (same_backend parse c.backend_url backend) token in
        KeepsSecret parse args c (authorized_config c backend changed token args)
  unfolding authorized_config
  authorized-KeepsSecret token secret kept =
      let same = same_backend parse c.backend_url backend in
      elim (authorized_secret (account_changed c same token) args.edison_secret_key
        c.edison_secret_key secret kept) [
          | inl own ↦ inl own
          | inr (old, unchanged) ↦
              let (issuer, installation, user, org) = account_changed-same c same token unchanged in
              inr (old, (backend, refl, issuer, inr (installation, user, org)))
        ]

  legacy-KeepsSecret :
      (key : String) (next : PersistedConfig)
      → configure_legacy_login c backend (same_backend parse c.backend_url backend) key args
        ≡ ok next
      → KeepsSecret parse args c next
  unfolding configure_legacy_login legacy_config
  legacy-KeepsSecret key next made =
      let same = same_backend parse c.backend_url backend in
      let (_, _, f) =
        bind-inv (require (not (is_blank key)) "legacy API key cannot be empty") _ next made in
      subst (KeepsSecret parse args c) (ok_inj f) λ secret kept.
        elim (legacy_secret (not same || has_client_token c) c backend key args secret kept) [
          | inl own ↦ inl own
          | inr (old, uncleared) ↦
              let (issuer, none_before) = not_cleared c same uncleared in
              inr (old, (backend, refl, issuer, inl (refl, none_before)))
        ]

-- What a login saved has such a secret key, seen from the configuration that it loaded.
abbrev IsCareful : (String → Option Url) → Host → LoginArgs → Login → Type 0
IsCareful parse host args l =
    (after : PersistedConfig)
    → l.saved ≡ some after
    → (before : PersistedConfig) × (load_from host.path host.file ≡ ok before)
      × KeepsSecret parse args before after

module _ (parse : String → Option Url) (host : Host) (args : LoginArgs) where
  saves-IsCareful :
      (before next : PersistedConfig) (opened : List String) (revocations : List Request)
      → load_from host.path host.file ≡ ok before
      → KeepsSecret parse args before next
      → IsCareful parse host args (save_login parse host next opened revocations)
  unfolding save_login
  saves-IsCareful before next opened revocations loads keeps =
      if_rule (IsCareful parse host args) host.save_fails _ _ (λ _ after e. cc)
        λ _ after e. (before, loads, subst (KeepsSecret parse args before) (some_inj e) keeps)

  with-IsCareful :
      (key : Option String) (c : PersistedConfig) (backend : String)
      → load_from host.path host.file ≡ ok c
      → IsCareful parse host args (login_with parse host key args c backend)
  unfolding login_with finish_login
  with-IsCareful (some key) c backend loads =
      by_key parse host args (IsCareful parse host args) (λ opened e _ after bad. cc) c backend _
        key
        λ next made.
          saves-IsCareful c next [] _ loads (legacy-KeepsSecret parse args c backend key next made)
  with-IsCareful none c backend loads =
      by_device parse host args (IsCareful parse host args) (λ opened e _ after bad. cc) c backend _
        λ opened token.
          saves-IsCareful c _ opened _ loads (authorized-KeepsSecret parse args c backend token)

  -- An Edison secret key in the configuration that a login saved was an argument of the command, or
  -- was in the configuration that it loaded; in the second case both configurations are for the same
  -- backend, and either the login was an authorization of the same installation, user and
  -- organization as before, or it was one with an API key and no client token was there before. Two
  -- API keys at one backend are not told apart.
  pub run-KeepsSecret :
      (after : PersistedConfig)
      → (run parse host args).saved ≡ some after
      → (before : PersistedConfig) × (load_from host.path host.file ≡ ok before)
        × KeepsSecret parse args before after
  run-KeepsSecret =
      by_loaded parse host args (IsCareful parse host args) (λ opened e _ after bad. cc)
        λ c backend loads. with-IsCareful args.api_key c backend loads
