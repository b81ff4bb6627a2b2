-- ===== src/Platform.antt =====
-- What the server takes from outside the repository: Python's standard library, `cryptography`,
-- `josepy`, the network, and the settings. Each is a field, with no law.
-- A `josepy.JWK` is represented by the JSON from which it was read, bytes by a list of numbers.
-- A source of randomness, or a call over the network, takes the number of the draw, so that two
-- calls with the same arguments can differ.
use acme_lan.Prelude.{ℕ, String, Bool, Option, List, ◌⊎◌}
use acme_lan.Json.{Json, Fields}

abbrev pub Bytes : Type 0
Bytes = List ℕ

-- A certificate signing request: its PEM text, and the DNS names of its SAN extension (none
-- without that extension).
pub record Csr : Type 0 where
  pub pem : String
  pub dns_names : Option (List String)

-- An X.509 certificate.
pub record Leaf : Type 0 where
  pub serial : String
  pub subject : String
  pub not_after : ℕ
  pub der : Bytes
  pub pem : String
  pub spki : Bytes

-- acme/profiles.py: `ProfileUpstream`.
pub record ProfileUpstream : Type 0 where
  pub profile : String
  pub upstream_type : String
  pub directory_url : String
  pub verify_ssl : Bool
  pub account_email : String
  pub account_key_path : String
  pub eab_kid : String
  pub eab_hmac_key : String
  pub ca_handler : String
  pub ca_handler_config : Fields

-- The part of config.py's `Settings` that the modelled code reads.
pub record Settings : Type 0 where
  pub external_url : String
  pub upstream_directory_url : String
  pub upstream_verify_ssl : Bool
  pub upstream_account_email : String
  pub upstream_account_key_path : String
  pub http01_resolver_overrides : List (String × String)
  pub tlsalpn_resolver_overrides : List (String × String)
  pub tlsalpn_default_port : ℕ
  pub expiry_warn_days : ℕ
  pub renew_before_days : ℕ
  pub postmark_server_token : String
  pub notify_email_from : String
  pub notify_email_to : String
  pub notify_webhook_url : String
  pub admin_token : String
  pub auth_required : Bool
  pub session_lifetime_hours : ℕ
  pub oidc_enabled : Bool
  pub oidc_provider : String
  pub oidc_tenant_id : String
  pub oidc_discovery_url : String
  pub oidc_client_id : String
  pub oidc_client_secret : String
  pub oidc_scopes : String
  pub oidc_auto_create_users : Bool
  pub oidc_allowed_emails : String

-- The answer to an HTTP GET: an error's text, or a status with the body.
abbrev pub Fetched : Type 0
Fetched = String ⊎ (ℕ × String)

-- What a TLS connection with the ALPN protocol acme-tls/1 shows: an error's text, or the protocol
-- that was negotiated and the peer's certificate.
pub data PeerCertificate : Type 0 where
  missing unparsable : PeerCertificate
  without_extension : PeerCertificate
  with_extension : Bytes → PeerCertificate

abbrev pub Connected : Type 0
Connected = String ⊎ (Option String × PeerCertificate)

pub record Platform : Type 0 where
  pub settings : Settings
  pub json_loads : Bytes → Option Json
  pub urlsafe_b64encode : Bytes → String
  pub urlsafe_b64decode : String → Option Bytes
  pub encode_ascii : String → Option Bytes
  pub iso_format : ℕ → String
  pub repr : Json → String
  pub repr_names : List String → String
  pub strip : String → String
  pub uuid : ℕ → String
  pub token_urlsafe : ℕ → String
  pub jwk_from_json : Json → Option Json
  pub jwk_thumbprint : Json → Bytes
  pub jwk_spki : Json → Bytes
  pub rsa_verify : Json → String → Bytes → Bytes → Bool
  pub ec_verify : Json → String → ℕ → ℕ → Bytes → Bool
  pub load_csr : Bytes → Option Csr
  pub load_leaf_der : Bytes → Option Leaf
  pub load_leaf_pem : String → Option Leaf
  pub http_get : ℕ → String → String → Fetched
  pub tls_connect : ℕ → String → ℕ → String → Connected
  pub sha256 : Bytes → Bytes
  pub parse_int : String → Option ℕ
  pub number_text : ℕ → String
  pub fulfil_order : ℕ → String → ProfileUpstream → String ⊎ String
  pub upstream_revoke : ℕ → String → Json → String ⊎ Unit {0}
  pub lower : String → String
  pub sql_lower : String → String
  pub b64encode : Bytes → String
  pub b64decode : String → Option Bytes
  pub token_bytes : ℕ → Bytes
  pub pbkdf2 : ℕ → Bytes → ℕ → String → Option Bytes
  pub time_text : ℕ → String
  pub encode_utf8 : String → Bytes
  pub urlencode : List (String × String) → String
  pub quote : String → String
  pub is_https : String → Bool
  pub get_json : ℕ → String → Option (ℕ × Option Json)
  pub post_form : ℕ → String → List (String × String) → Option (ℕ × String × Option Json)
