-- ===== src/Models/Rows.antt =====
-- models.py: the rows of the database, and the state that a request works on.
-- A date is a number of microseconds.
use acme_lan.Prelude.{ℕ, String, Bool, Option, List, []}
use acme_lan.Json.{Json, Fields}

pub data OrderStatus : Type 0 where
  pending ready processing valid invalid : OrderStatus

pub data AuthzStatus : Type 0 where
  pending valid invalid deactivated expired revoked : AuthzStatus

pub data ChallengeStatus : Type 0 where
  pending processing valid invalid : ChallengeStatus

abbrev pub order_status_text : OrderStatus → String
order_status_text OrderStatus.pending = "pending"
order_status_text OrderStatus.ready = "ready"
order_status_text OrderStatus.processing = "processing"
order_status_text OrderStatus.valid = "valid"
order_status_text OrderStatus.invalid = "invalid"

abbrev pub authz_status_text : AuthzStatus → String
authz_status_text AuthzStatus.pending = "pending"
authz_status_text AuthzStatus.valid = "valid"
authz_status_text AuthzStatus.invalid = "invalid"
authz_status_text AuthzStatus.deactivated = "deactivated"
authz_status_text AuthzStatus.expired = "expired"
authz_status_text AuthzStatus.revoked = "revoked"

abbrev pub challenge_status_text : ChallengeStatus → String
challenge_status_text ChallengeStatus.pending = "pending"
challenge_status_text ChallengeStatus.processing = "processing"
challenge_status_text ChallengeStatus.valid = "valid"
challenge_status_text ChallengeStatus.invalid = "invalid"

-- `contact` is the JSON array that the client sent.
pub record Account : Type 0 where
  pub id : String
  pub status : String
  pub key_thumbprint : String
  pub jwk : Json
  pub contact : Json
  pub terms_agreed : Bool
  pub created_at : ℕ

-- `identifiers` holds the value of each identifier; the type of each is "dns".
pub record Order : Type 0 where
  pub id : String
  pub account_id : String
  pub status : OrderStatus
  pub identifiers : List String
  pub not_before : Json
  pub not_after : Json
  pub error : Option Json
  pub certificate_id : Option String
  pub expires_at : ℕ
  pub created_at : ℕ

pub record Authorization : Type 0 where
  pub id : String
  pub order_id : String
  pub identifier_type : String
  pub identifier_value : String
  pub wildcard : Bool
  pub status : AuthzStatus
  pub expires_at : ℕ

pub record Challenge : Type 0 where
  pub id : String
  pub authz_id : String
  pub kind : String
  pub token : String
  pub status : ChallengeStatus
  pub validated_at : Option ℕ
  pub error : Option Json

pub record Certificate : Type 0 where
  pub id : String
  pub order_id : Option String
  pub host_id : Option String
  pub pem_chain : String
  pub serial : Option String
  pub subject : Option String
  pub domains : List String
  pub not_after : Option ℕ
  pub issued_at : ℕ
  pub key_storage : String
  pub key_reference : Option String
  pub retired : Bool
  pub retired_at : Option ℕ
  pub retired_reason : Option String
  pub expiry_warned_at : Option ℕ

pub record AcmeProfile : Type 0 where
  pub name : String
  pub enabled : Bool
  pub upstream_type : String
  pub directory_url : String
  pub verify_ssl : Bool
  pub account_email : String
  pub account_key_path : String
  pub eab_kid : String
  pub eab_hmac_key : String
  pub ca_handler : String
  pub ca_handler_config : Fields
  pub created_at : ℕ

pub record User : Type 0 where
  pub id : String
  pub username : String
  pub email : String
  pub password_hash : String
  pub provider : String
  pub oidc_subject : Option String
  pub is_admin : Bool
  pub disabled : Bool
  pub last_login_at : Option ℕ
  pub created_at : ℕ

pub record UserSession : Type 0 where
  pub token : String
  pub user_id : String
  pub expires_at : ℕ
  pub created_at : ℕ

pub record OidcState : Type 0 where
  pub state : String
  pub nonce : String
  pub code_verifier : String
  pub redirect_uri : String
  pub next_url : String
  pub expires_at : ℕ

pub record ManagedHost : Type 0 where
  pub id : String
  pub name : String
  pub domains : List String
  pub address : String
  pub port : ℕ
  pub deploy_plugin : String
  pub csr_source : String
  pub credential_id : Option String
  pub config : Fields
  pub enabled : Bool
  pub last_deployed_at : Option ℕ
  pub last_status : Option String
  pub created_at : ℕ

pub record StoredCredential : Type 0 where
  pub id : String
  pub name : String
  pub kind : String
  pub username : String
  pub provider : String
  pub secret_encrypted : String
  pub secret_reference : String
  pub created_at : ℕ

pub record Nonce : Type 0 where
  pub value : String
  pub created_at : ℕ

-- The tables that a request's session reads and writes; those of nonces is apart (`World`).
pub record Tables : Type 0 where
  pub accounts : List Account
  pub orders : List Order
  pub authorizations : List Authorization
  pub challenges : List Challenge
  pub certificates : List Certificate
  pub profiles : List AcmeProfile
  pub users : List User
  pub sessions : List UserSession
  pub oidc_states : List OidcState
  pub hosts : List ManagedHost
  pub credentials : List StoredCredential

abbrev pub no_rows : Tables
no_rows = record {
  accounts = [];
  orders = [];
  authorizations = [];
  challenges = [];
  certificates = [];
  profiles = [];
  users = [];
  sessions = [];
  oidc_states = [];
  hosts = [];
  credentials = [];
}

-- What a request works on. `db` is what is committed, `tx` what the request's own session sees;
-- nonces are written by sessions of their own, which commit at once. `draws` counts the random
-- values drawn so far. The clock stands still while a request is handled.
pub record World : Type 0 where
  pub clock : ℕ
  pub draws : ℕ
  pub nonces : List Nonce
  pub db : Tables
  pub tx : Tables
