-- ===== src/Config/Tests.antt =====
-- The theorems on merging at a saved client credential and at a saved legacy key.
use stdiod.Config.{nonempty}
use stdiod.Base.Text.{has_prefix}
use stdiod.Config.Backend.{
  normalize_backend_url, check_url, at_in_authority, after_separator, trim_end_slashes,
}
use stdiod.Config.Merge.{
  merge_with, normalize_opt, saved_backend, merge_checked, check_backend, check_device,
}
use stdiod.Base.{String, refl, Option, none, some, if◌then◌else◌, ◌==◌}
use stdiod.Config.{PersistedConfig, default_config, Resolved}
use stdiod.Config.Backend.{Url, domain}
use stdiod.Config.Merge.{merge, merge_saved, merge_legacy}
use stdiod.Config.Bindings.{IsBound, IsSeparate, merge-IsBound, merge-IsSeparate}

abbrev site : String
site = "https://edison.test"

abbrev site_url : Url
site_url = record {
  scheme = "https";
  username = "";
  password = none;
  host = some (domain "edison.test");
  path = "/";
  query = none;
  fragment = none;
  text = "https://edison.test/";
}

-- A parser that knows one URL.
abbrev parse : String → Option Url
parse raw = if raw == site then some site_url else none

abbrev client_config : PersistedConfig
client_config = record default_config {
  backend_url = some site;
  client_access_token = some "client-token";
  client_installation_id = some "install-1";
  device_id = some "device-1";
}

abbrev legacy_config : PersistedConfig
legacy_config = record default_config {
  backend_url = some site;
  api_key = some "old-key";
  edison_secret_key = some "secret";
}

abbrev no_overrides : Resolved
no_overrides = record {
  backend_url = none;
  api_key = none;
  client_access_token = none;
  client_installation_id = none;
  edison_secret_key = none;
  device_id = none;
  device_label = none;
}

abbrev same_device : Resolved
same_device = record no_overrides { backend_url = some site; device_id = some "device-1" }

abbrev new_key : Resolved
new_key = record no_overrides { api_key = some "new-key" }

merge-IsBound_example :
    IsBound parse client_config (merge_saved client_config same_device (some site) (some site))
unfolding merge merge_with normalize_opt saved_backend merge_checked check_backend check_device
    normalize_backend_url check_url at_in_authority after_separator trim_end_slashes has_prefix
    nonempty
merge-IsBound_example =
    merge-IsBound parse client_config same_device
      (merge_saved client_config same_device (some site) (some site)) refl refl

merge-IsSeparate_example :
    IsSeparate parse legacy_config new_key (merge_legacy legacy_config new_key none (some site))
unfolding merge merge_with normalize_opt saved_backend merge_checked check_backend check_device
    normalize_backend_url check_url at_in_authority after_separator trim_end_slashes has_prefix
    nonempty
merge-IsSeparate_example =
    merge-IsSeparate parse legacy_config new_key "new-key"
      (merge_legacy legacy_config new_key none (some site)) refl refl
