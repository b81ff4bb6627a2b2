-- ===== src/Acme/Encoding.antt =====
-- acme/encoding.py: base64url without padding, and the URLs that the server advertises.
pub mod RoundTrips
use Prim.Native.Nat.{◌-◌, ◌%◌}
use Prim.Native.String.{count, ◌++◌}
use acme_lan.Prelude.{ℕ, zero, suc, String, Option, none, some, ◌==◌, if◌then◌else◌}
use acme_lan.Prelude.Text.{rstrip}
use acme_lan.Platform.{Platform, Bytes}

-- `"=" * n`.
unfoldable pub equals_signs : ℕ → String
equals_signs zero = ""
equals_signs (suc n) = "=" ++ equals_signs n

module _ (p : Platform) where
  unfoldable pub b64url_encode : Bytes → String
  unfolding rstrip
  b64url_encode bytes = rstrip b'=' (p.urlsafe_b64encode bytes)

  -- `-len(data) % 4`, which is not negative in Python.
  unfoldable pub b64url_decode : String → Option Bytes
  unfolding equals_signs
  b64url_decode text = p.urlsafe_b64decode (text ++ equals_signs ((4 - count text % 4) % 4))

abbrev pub default_profile : String
default_profile = "default"

unfoldable pub profile_prefix : String → String
profile_prefix profile = if profile == default_profile then "/acme" else "/acme/p/" ++ profile

-- The profile in the path parameters of a request.
unfoldable pub profile_from_request : Option String → String
profile_from_request none = default_profile
profile_from_request (some profile) = profile

pub record Urls : Type 0 where
  pub base : String
  pub prefix : String

-- `Urls(profile=...)`, over `settings.external_url`.
unfoldable pub urls_for : String → String → Urls
unfolding rstrip profile_prefix
urls_for external_url profile = record {
  base = rstrip b'/' external_url;
  prefix = profile_prefix profile;
}

module _ (urls : Urls) where
  -- `Urls._u`.
  abbrev pub url : String → String
  url path = urls.base ++ (urls.prefix ++ path)

  abbrev pub new_nonce_url : String
  new_nonce_url = url "/new-nonce"

  abbrev pub new_account_url : String
  new_account_url = url "/new-account"

  abbrev pub new_order_url : String
  new_order_url = url "/new-order"

  abbrev pub revoke_cert_url : String
  revoke_cert_url = url "/revoke-cert"

  abbrev pub key_change_url : String
  key_change_url = url "/key-change"

  abbrev pub account_url : String → String
  account_url account_id = url ("/acct/" ++ account_id)

  abbrev pub account_orders_url : String → String
  account_orders_url account_id = url ("/acct/" ++ (account_id ++ "/orders"))

  abbrev pub order_url : String → String
  order_url order_id = url ("/order/" ++ order_id)

  abbrev pub finalize_url : String → String
  finalize_url order_id = url ("/order/" ++ (order_id ++ "/finalize"))

  abbrev pub authorization_url : String → String
  authorization_url authz_id = url ("/authz/" ++ authz_id)

  abbrev pub challenge_url : String → String
  challenge_url challenge_id = url ("/chall/" ++ challenge_id)

  abbrev pub certificate_url : String → String
  certificate_url certificate_id = url ("/cert/" ++ certificate_id)
