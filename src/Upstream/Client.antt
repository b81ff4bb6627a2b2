-- ===== src/Upstream/Client.antt =====
-- upstream/client.py: the settings of the upstream client, and its registration.
pub mod Defaults
use acme_lan.Prelude.{ℕ, String, Bool, true, false, not, ◌&&◌, Option, none, some, if◌then◌else◌}
use acme_lan.Prelude.Text.{is_empty}
use acme_lan.Platform.{Platform, ProfileUpstream}

-- The keyword arguments of `build_client`.
pub record ClientArgs : Type 0 where
  pub directory_url : Option String
  pub verify_ssl : Option Bool
  pub account_key_path : Option String
  pub account_email : Option String
  pub eab_kid : String
  pub eab_hmac_key : String

-- What a client is set up with.
pub record Connection : Type 0 where
  pub directory_url : String
  pub verify_ssl : Bool
  pub account_key_name : String
  pub email : Option String
  pub external_account_binding : Option (String × String)

-- `text or other`, where the text may be missing.
abbrev or_text : Option String → String → String
or_text none other = other
or_text (some text) other = if is_empty text then other else text

abbrev value_or {ℓ} : {A : Type ℓ} → Option A → A → A
value_or none other = other
value_or (some x) other = x

-- `_client_kwargs` of upstream/fulfil.py.
unfoldable pub client_kwargs : Option ProfileUpstream → ClientArgs
client_kwargs none = record {
  directory_url = none;
  verify_ssl = none;
  account_key_path = none;
  account_email = none;
  eab_kid = "";
  eab_hmac_key = "";
}
client_kwargs (some upstream) = record {
  directory_url = some upstream.directory_url;
  verify_ssl = some upstream.verify_ssl;
  account_key_path = some upstream.account_key_path;
  account_email = some upstream.account_email;
  eab_kid = upstream.eab_kid;
  eab_hmac_key = upstream.eab_hmac_key;
}

module _ (p : Platform) where
  unfoldable pub connection : ClientArgs → Connection
  connection args = record {
    directory_url = or_text args.directory_url p.settings.upstream_directory_url;
    verify_ssl = value_or args.verify_ssl p.settings.upstream_verify_ssl;
    account_key_name =
        or_text args.account_key_path
          (or_text (some p.settings.upstream_account_key_path) "default");
    email = nonempty (value_or args.account_email p.settings.upstream_account_email);
    external_account_binding = binding args.eab_kid args.eab_hmac_key;
  }
    where
      nonempty : String → Option String
      nonempty email = if is_empty email then none else some email

      binding : String → String → Option (String × String)
      binding kid key = if not (is_empty kid) && not (is_empty key) then some (kid, key) else none
