-- ===== src/DaemonAuth/Reset.antt =====
-- When a changed login resets the children, and what an error message may show.
use stdiod.Base.{
  String, ◌<◌, true, false, Option, none, some, same_text?_iff, eq_iff, eq_refl, ◌≡◌, refl, arith,
  ◌⊎◌, inl, inr,
}
use stdiod.Base.Text.{append, chars, contains, is_blank, replace}
use stdiod.Base.Text.Redaction
use stdiod.Base.Text.Redaction.{contains-replace, contains-replace_self}
use stdiod.Config.{CredentialKind, client_access_token, legacy_api_key, nonempty}
use stdiod.DaemonAuth.{
  ResolvedRun, same_kind, env_namespace, requires_child_reset, connection_error_message,
  redact_secret,
}

same_kind-inv : (a b : CredentialKind) → same_kind a b ≡ true → a ≡ b
unfolding same_kind
same_kind-inv client_access_token client_access_token e = refl
same_kind-inv client_access_token legacy_api_key e = absurd (ground arith)
same_kind-inv legacy_api_key client_access_token e = absurd (ground arith)
same_kind-inv legacy_api_key legacy_api_key e = refl

-- The account that a child's environment belongs to.
pub record IsSameAccount (a b : ResolvedRun) : Type 0 where
  pub backend : a.backend ≡ b.backend
  pub kind : a.credential_kind ≡ b.credential_kind
  pub installation : a.client_installation_id ≡ b.client_installation_id
  pub device : a.device_id ≡ b.device_id
  pub namespace : env_namespace a ≡ env_namespace b
  pub legacy_key : a.credential_kind ≡ legacy_api_key → a.credential ≡ b.credential

same_kind_refl : (k : CredentialKind) → same_kind k k ≡ true
unfolding same_kind
same_kind_refl client_access_token = refl
same_kind_refl legacy_api_key = refl

kinds : (a b : CredentialKind) → a ≡ b → same_kind a b ≡ true
kinds a b e = rw e (same_kind_refl b)

same_kind-cases : (k : CredentialKind) → (k ≡ legacy_api_key) ⊎ (same_kind k legacy_api_key ≡ false)
unfolding same_kind
same_kind-cases client_access_token = inr refl
same_kind-cases legacy_api_key = inl refl

legacy_kind : (k : CredentialKind) → k ≡ legacy_api_key → same_kind k legacy_api_key ≡ true
unfolding same_kind
legacy_kind k e = rw e refl

same_namespace :
    (a b : ResolvedRun)
    → a.backend ≡ b.backend
    → a.client_installation_id ≡ b.client_installation_id
    → env_namespace a ≡ env_namespace b
unfolding env_namespace
same_namespace a b p q = rw (p, q)

-- Children survive a change of login only if the backend, the kind of the credential, the
-- installation, the device and with them the namespace of the stored environment stay the same,
-- and for a legacy key also the key itself.
pub requires_child_reset-IsSameAccount :
    (a b : ResolvedRun) → requires_child_reset a b ≡ false → IsSameAccount a b
unfolding requires_child_reset
requires_child_reset-IsSameAccount a b e =
    let p : a.backend ≡ b.backend = ground (arith, eq_iff a.backend b.backend) in
    let q : a.client_installation_id ≡ b.client_installation_id =
      (same_text?_iff a.client_installation_id b.client_installation_id).0 (ground arith) in
    record {
      backend = p;
      kind = same_kind-inv a.credential_kind b.credential_kind (ground arith);
      installation = q;
      device = ground (arith, eq_iff a.device_id b.device_id);
      namespace = same_namespace a b p q;
      legacy_key = λ k.
          let own : same_kind a.credential_kind legacy_api_key ≡ true =
            legacy_kind a.credential_kind k in
          ground (arith, own, eq_iff a.credential b.credential);
    }

-- A login of the same account never resets the children, whatever its client token, secret key and
-- label are.
pub requires_child_reset-same :
    (a b : ResolvedRun) → IsSameAccount a b → requires_child_reset a b ≡ false
unfolding requires_child_reset
requires_child_reset-same a b same = elim (same_kind-cases a.credential_kind) [
  | inl key ↦
      rw (same.backend, same.kind, same.installation, same.device, same.legacy_key key)
        (ground (
          arith,
          eq_refl b.backend,
          same_kind_refl b.credential_kind,
          (same_text?_iff b.client_installation_id b.client_installation_id).1 refl,
          eq_refl b.device_id,
          eq_refl b.credential,
        ))
  | inr other ↦ ground (
    arith,
    other,
    eq_iff a.backend b.backend,
    same.backend,
    same.device,
    eq_iff a.device_id b.device_id,
    (same_text?_iff a.client_installation_id b.client_installation_id).1 same.installation,
    kinds a.credential_kind b.credential_kind same.kind,
  )
]

-- A credential that the redaction can hide: longer than the word `redacted` and without the
-- characters of the mark's brackets.
abbrev pub IsHideable : String → Type 0
IsHideable = Redaction.IsClean "<" ">" "redacted"

long-is_blank : (s : String) → 8 < chars s → is_blank s ≡ false
long-is_blank Prim.Native.String.[] h = absurd (omega arith)
long-is_blank (Prim.Native.String.◌∷◌ c s) h = refl

-- A secret key, if one is set: that the redaction can hide it, and that a text does not show it.
abbrev pub IsHideable? : Option String → Type 0
IsHideable? none = Unit
IsHideable? (some secret) = IsHideable secret

abbrev pub IsUnseen : String → Option String → Type 0
IsUnseen message none = Unit
IsUnseen message (some secret) = contains secret message ≡ false

redact_secret-IsUnseen :
    (secret : Option String) (credential error_text : String)
    → IsHideable credential
    → IsHideable? secret
    → let message = redact_secret (nonempty secret) (replace error_text credential "<redacted>") in
      (contains credential message ≡ false) × IsUnseen message secret
unfolding redact_secret nonempty append
redact_secret-IsUnseen none credential error_text clean hideable =
    (contains-replace_self "<" ">" "redacted" error_text credential clean, tt)
redact_secret-IsUnseen (some secret) credential error_text clean hideable =
    let first : String = replace error_text credential "<redacted>" in
    let visible : is_blank secret ≡ false = long-is_blank secret hideable.longer in
    rw visible (
      ground (
        arith,
        contains-replace "<" ">" "redacted" first secret credential visible clean,
        contains-replace_self "<" ">" "redacted" error_text credential clean,
      ),
      contains-replace_self "<" ">" "redacted" first secret hideable,
    )

-- What is reported of a connection error does not show the credential, nor the secret key if one is
-- set, if these are longer than the word `redacted` and have no angle brackets.
pub connection_error_message_lem :
    (error_text : String) (r : ResolvedRun)
    → IsHideable r.credential
    → IsHideable? r.edison_secret_key
    → let message = connection_error_message error_text r in
      (contains r.credential message ≡ false) × IsUnseen message r.edison_secret_key
unfolding connection_error_message
connection_error_message_lem error_text r clean hideable =
    redact_secret-IsUnseen r.edison_secret_key r.credential error_text clean hideable
