-- ===== src/Acme/Profiles.antt =====
-- acme/profiles.py: the upstream CA of a listener profile.
use Prim.Native.String.{◌++◌}
use acme_lan.Prelude.{String, Option, none, some, ◌==◌, if◌then◌else◌}
use acme_lan.Prelude.Text.{is_empty}
use acme_lan.Json.{str, end}
use acme_lan.Platform.{Platform, ProfileUpstream}
use acme_lan.Exec.{pure, raise, gets, ◌>>=◌}
use acme_lan.Models.Rows.{AcmeProfile}
use acme_lan.Models.Session
use acme_lan.Models.Session.{Handler}
use acme_lan.Acme.Errors.{acme, acme_error}
use acme_lan.Acme.Encoding.{default_profile}

module _ (p : Platform) where
  unfoldable pub default_upstream : ProfileUpstream
  default_upstream = record {
    profile = default_profile;
    upstream_type = "acme";
    directory_url = p.settings.upstream_directory_url;
    verify_ssl = p.settings.upstream_verify_ssl;
    account_email = p.settings.upstream_account_email;
    account_key_path = p.settings.upstream_account_key_path;
    eab_kid = "";
    eab_hmac_key = "";
    ca_handler = "";
    ca_handler_config = end;
  }

  unfoldable pub row_upstream : AcmeProfile → ProfileUpstream
  row_upstream row = record {
    profile = row.name;
    upstream_type = row.upstream_type;
    directory_url = row.directory_url;
    verify_ssl = row.verify_ssl;
    account_email = row.account_email;
    account_key_path =
        if is_empty row.account_key_path
        then "./data/upstream_" ++ (row.name ++ ".key")
        else row.account_key_path;
    eab_kid = row.eab_kid;
    eab_hmac_key = row.eab_hmac_key;
    ca_handler = row.ca_handler;
    ca_handler_config = row.ca_handler_config;
  }

  unfoldable pub row_or_raise : String → Option AcmeProfile → Handler ProfileUpstream
  row_or_raise profile none = raise (
      acme
        (acme_error "malformed" ("Unknown or disabled ACME profile " ++ p.repr (str profile)) 404))
  row_or_raise profile (some row) =
      if row.enabled
      then pure (row_upstream row)
      else raise (
          acme (
            acme_error "malformed" ("Unknown or disabled ACME profile " ++ p.repr (str profile))
              404))

  unfoldable pub resolve_profile_upstream : String → Handler ProfileUpstream
  resolve_profile_upstream profile =
      if profile == default_profile
      then pure default_upstream
      else (gets (Session.profile profile) >>= row_or_raise profile)
