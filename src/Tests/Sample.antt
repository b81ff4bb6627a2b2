-- ===== src/Tests/Sample.antt =====
-- A concrete platform, and the states of a small server.
use Prim.Native.String.{◌∷◌, count}
use text.Mathlib.TextLemmas.{length-cons}
use acme_lan.Prelude.{
  ℕ, zero, suc, String, ◌≡◌, refl, ap, sym, ◌∙◌, true, false, Option, none, some, inl, inr, List,
  ◌==◌, arith, eqb, if◌then◌else◌,
}
use acme_lan.Json.{Json, str, obj, arr, nil, end, field}
use acme_lan.Platform.{Platform, Bytes, Settings, Csr, Leaf}
use acme_lan.Models.Rows.{
  Account, Order, Authorization, Challenge, Certificate, OrderStatus, AuthzStatus, ChallengeStatus,
  World, Tables, no_rows,
}

-- A text of its own for each number.
abbrev pub unary : ℕ → String
unary zero = "t"
unary (suc n) = "u" ∷ unary n

unary-count : (n : ℕ) → count (unary n) ≡ suc n
unary-count zero = refl
unary-count (suc n) = length-cons "u" (unary n) ∙ ap suc (unary-count n)

pub unary-IsInjective : (a b : ℕ) → unary a ≡ unary b → a ≡ b
unary-IsInjective a b e =
    let same : suc a ≡ suc b = sym (unary-count a) ∙ (ap count e ∙ unary-count b) in
    omega (arith, same)

abbrev pub rsa_key : Json
rsa_key = obj (field "kty" (str "RSA") end)

-- A signed header that holds a key, or the identifier of an account.
abbrev header : String → Json → String → Json
header name value nonce = obj (
    field "alg" (str "RS256")
      (field "url" (str "/p") (field "nonce" (str nonce) (field name value end))))

abbrev members : String → String → Json
members protected payload = obj (
    field "protected" (str protected)
      (field "payload" (str payload) (field "signature" (str "S") end)))

abbrev csr_payload : Json
csr_payload = obj (field "csr" (str "R") end)

-- The bytes 1 and 2 are request bodies; the others stand for the texts inside them.
abbrev json_loads : Bytes → Option Json
json_loads List.[] = none
json_loads (List.◌∷◌ b _) =
    if eqb b 1
    then some (members "J" "")
    else if eqb b 2
    then some (members "K" "P")
    else if eqb b 10
    then some (header "jwk" rsa_key "t")
    else if eqb b 20
    then some (header "kid" (str "/acct/a") "t")
    else if eqb b 30
    then some csr_payload
    else none

abbrev decode : String → Option Bytes
decode text =
    if text == "J==="
    then some (List.◌∷◌ 10 List.[])
    else if text == "K==="
    then some (List.◌∷◌ 20 List.[])
    else if text == "P==="
    then some (List.◌∷◌ 30 List.[])
    else if text == "AA=="
    then some (List.◌∷◌ 0 List.[])
    else some (List.◌∷◌ 40 List.[])

abbrev pub leaf : Leaf
leaf = record {
  serial = "5";
  subject = "CN=x";
  not_after = 9;
  der = List.◌∷◌ 40 List.[];
  pem = "pem";
  spki = List.◌∷◌ 7 List.[];
}

abbrev pub csr : Csr
csr = record { pem = "csr"; dns_names = some (List.◌∷◌ "x" List.[]) }

abbrev sample_settings : Settings
sample_settings = record {
  external_url = "";
  upstream_directory_url = "";
  upstream_verify_ssl = true;
  upstream_account_email = "";
  upstream_account_key_path = "";
  http01_resolver_overrides = List.[];
  tlsalpn_resolver_overrides = List.[];
  tlsalpn_default_port = 443;
  expiry_warn_days = 30;
  renew_before_days = 30;
  postmark_server_token = "";
  notify_email_from = "";
  notify_email_to = "";
  notify_webhook_url = "";
  admin_token = "";
  auth_required = true;
  session_lifetime_hours = 12;
  oidc_enabled = true;
  oidc_provider = "generic";
  oidc_tenant_id = "";
  oidc_discovery_url = "d";
  oidc_client_id = "me";
  oidc_client_secret = "";
  oidc_scopes = "";
  oidc_auto_create_users = true;
  oidc_allowed_emails = "";
}

-- The upstream fails for the CSR "bad" and returns the chain "pem" for any other.
abbrev pub sample : Platform
sample = record {
  settings = sample_settings;
  json_loads = json_loads;
  urlsafe_b64encode = λ _. "AA==";
  urlsafe_b64decode = decode;
  encode_ascii = λ _. some List.[];
  iso_format = λ _. "";
  repr = λ _. "";
  repr_names = λ _. "";
  strip = λ s. s;
  uuid = unary;
  token_urlsafe = unary;
  jwk_from_json = λ j. some j;
  jwk_thumbprint = λ _. List.◌∷◌ 0 List.[];
  jwk_spki = λ _. List.◌∷◌ 7 List.[];
  rsa_verify = λ _ _ _ _. true;
  ec_verify = λ _ _ _ _ _. false;
  load_csr = λ _. some csr;
  load_leaf_der = λ _. some leaf;
  load_leaf_pem = λ _. some leaf;
  http_get = λ _ _ _. inr (200, "");
  tls_connect = λ _ _ _ _. inl "refused";
  sha256 = λ b. b;
  parse_int = λ _. none;
  number_text = unary;
  fulfil_order = λ _ pem _. if pem == "bad" then inl "no" else inr "pem";
  upstream_revoke = λ _ _ _. inr tt;
  time_text = λ _. "";
  lower = λ s. s;
  encode_utf8 = λ _. List.[];
  urlencode = λ _. "";
  quote = λ s. s;
  is_https = λ _. true;
  get_json = λ _ _. none;
  post_form = λ _ _ _. none;
  sql_lower = λ s. s;
  b64encode = λ _. "AA==";
  b64decode = λ _. some (List.◌∷◌ 0 List.[]);
  token_bytes = λ _. List.◌∷◌ 0 List.[];
  pbkdf2 = λ _ _ _ _. some (List.◌∷◌ 0 List.[]);
}

abbrev pub owner : Account
owner = record {
  id = "a";
  status = "valid";
  key_thumbprint = "AA";
  jwk = rsa_key;
  contact = arr nil;
  terms_agreed = true;
  created_at = 0;
}

abbrev pub pending_order : Order
pending_order = record {
  id = "o";
  account_id = "a";
  status = OrderStatus.pending;
  identifiers = List.◌∷◌ "x" List.[];
  not_before = Json.null;
  not_after = Json.null;
  error = none;
  certificate_id = none;
  expires_at = 10;
  created_at = 0;
}

abbrev pub valid_authz : Authorization
valid_authz = record {
  id = "z";
  order_id = "o";
  identifier_type = "dns";
  identifier_value = "x";
  wildcard = false;
  status = AuthzStatus.valid;
  expires_at = 10;
}

abbrev pub http_challenge : Challenge
http_challenge = record {
  id = "c";
  authz_id = "z";
  kind = "http-01";
  token = "t";
  status = ChallengeStatus.pending;
  validated_at = none;
  error = none;
}

abbrev pub stored_certificate : Certificate
stored_certificate = record {
  id = "k";
  order_id = some "o";
  host_id = none;
  pem_chain = "pem";
  serial = some "5";
  subject = some "CN=x";
  domains = List.[];
  not_after = some 9;
  issued_at = 0;
  key_storage = "none";
  key_reference = none;
  retired = false;
  retired_at = none;
  retired_reason = none;
  expiry_warned_at = none;
}

abbrev pub rows : Tables
rows = record no_rows {
  accounts = List.◌∷◌ owner List.[];
  orders = List.◌∷◌ pending_order List.[];
  authorizations = List.◌∷◌ valid_authz List.[];
  challenges = List.◌∷◌ http_challenge List.[];
  certificates = List.◌∷◌ stored_certificate List.[];
}

-- One nonce is stored, and the next draw gives another.
abbrev pub serving : World
serving = record {
  clock = 0;
  draws = 1;
  nonces = List.◌∷◌ (record { value = "t"; created_at = 0 }) List.[];
  db = rows;
  tx = rows;
}
