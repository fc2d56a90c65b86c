-- ===== src/Config/Merge.antt =====
-- `Resolved::merge` of config.rs: command-line values over the persisted configuration.
use stdiod.Base.{
  String, Bool, true, false, ◌&&◌, ◌||◌, not, Option, none, some, is_some, or_else, same_text?,
  Result, ok, err, require, ◌>>=◌, ◌>>◌, if◌then◌else◌, ◌==◌,
}
use stdiod.Config.{PersistedConfig, Resolved, nonempty, has_issuer_bound_values}
use stdiod.Config.Backend.{Url, normalize_backend_url}

-- `result.ok().flatten()`
abbrev pub ok_or_none : Result String (Option String) → Option String
ok_or_none (ok v) = v
ok_or_none (err e) = none

-- `--backend` against the backend that the saved values are bound to.
unfoldable pub check_backend : Option String → Option String → Bool → Result String Unit
check_backend none saved bound = ok tt
check_backend (some requested) (some saved) bound =
    require (requested == saved || not bound)
      "--backend does not match the backend bound to the saved credential; pass an explicit legacy --api-key or run `edison-stdiod login`"
check_backend (some requested) none bound =
    require (not bound)
      "saved credentials have no backend binding; pass an explicit legacy --api-key or run `edison-stdiod login`"

-- `--device-id` against the device of a saved client credential.
unfoldable pub check_device : PersistedConfig → Option String → Result String Unit
check_device c none = ok tt
check_device c (some requested) =
    require
      (not (is_some (nonempty c.client_access_token))
        || same_text? (nonempty c.device_id) (some requested))
      "the server-issued device ID bound to a client credential cannot be overridden"

-- `override_backend.as_ref().is_none_or(|requested| saved == Some(requested))`
abbrev pub keeps_backend : Option String → Option String → Bool
keeps_backend none saved = true
keeps_backend (some requested) saved = same_text? saved (some requested)

-- `preserve.then_some(value).flatten()`
abbrev pub preserved : Bool → Option String → Option String
preserved preserve value = if preserve then value else none

-- The values with an explicit legacy key, where both backends are normalized.
unfoldable pub merge_legacy :
    PersistedConfig → Resolved → (override_backend saved : Option String) → Resolved
merge_legacy c o override_backend saved =
    let preserve =
      not (is_some (nonempty c.client_access_token))
      && is_some (nonempty c.api_key)
      && keeps_backend override_backend saved in
    record {
      backend_url = or_else override_backend (if is_some override_backend then none else saved);
      api_key = o.api_key;
      client_access_token = none;
      client_installation_id = none;
      edison_secret_key = or_else o.edison_secret_key (preserved preserve c.edison_secret_key);
      device_id = or_else o.device_id (preserved preserve c.device_id);
      device_label = or_else o.device_label c.device_label;
    }

-- The values without one.
unfoldable pub merge_saved :
    PersistedConfig → Resolved → (override_backend saved : Option String) → Resolved
merge_saved c o override_backend saved = record {
  backend_url = or_else override_backend saved;
  api_key = c.api_key;
  client_access_token = c.client_access_token;
  client_installation_id = c.client_installation_id;
  edison_secret_key = or_else o.edison_secret_key c.edison_secret_key;
  device_id = or_else o.device_id c.device_id;
  device_label = or_else o.device_label c.device_label;
}

module _ (parse : String → Option Url) where
  -- `url.map(normalize_backend_url).transpose()`
  unfoldable pub normalize_opt : Option String → Result String (Option String)
  normalize_opt none = ok none
  normalize_opt (some raw) = normalize_backend_url parse raw >>= λ u. ok (some u)

  -- The saved backend: an invalid one is an error, except where an explicit backend comes with an
  -- explicit key.
  unfoldable pub saved_backend :
      Bool → Option String → Option String → Result String (Option String)
  saved_backend has_legacy_override override_backend raw =
      if has_legacy_override && is_some override_backend
      then ok (ok_or_none (normalize_opt raw))
      else normalize_opt raw

  -- What is left to do once both backends are normalized.
  unfoldable pub merge_checked :
      Bool
      → PersistedConfig
      → Resolved
      → (override_backend saved : Option String) → Result String Resolved
  merge_checked true persisted overrides override_backend saved =
      ok (merge_legacy persisted overrides override_backend saved)
  merge_checked false persisted overrides override_backend saved =
      check_backend override_backend saved (has_issuer_bound_values persisted)
      >> check_device persisted overrides.device_id
      >> ok (merge_saved persisted overrides override_backend saved)

  unfoldable pub merge_with : Bool → PersistedConfig → Resolved → Result String Resolved
  merge_with has_legacy_override persisted overrides =
      normalize_opt overrides.backend_url >>= λ override_backend.
      saved_backend has_legacy_override override_backend persisted.backend_url >>= λ saved.
      merge_checked has_legacy_override persisted overrides override_backend saved

  unfoldable pub merge : PersistedConfig → Resolved → Result String Resolved
  merge persisted overrides = merge_with (is_some overrides.api_key) persisted overrides
