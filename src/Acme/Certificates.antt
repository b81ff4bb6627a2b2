-- ===== src/Acme/Certificates.antt =====
-- acme/certificates.py: download of a certificate, and revocation.
pub mod Revocation
use Prim.Native.String.{◌++◌}
use acme_lan.Prelude.{
  String, Bool, false, ◌&&◌, Option, none, some, inl, inr, ◌⊎◌, List, [], ◌∷◌, ◌==◌, if◌then◌else◌,
}
use acme_lan.Prelude.Text.{is_empty}
use acme_lan.Json.{Json, str, obj, end, get, truthy}
use acme_lan.Platform.{Platform, Bytes, Leaf}
use acme_lan.Exec.{Result, ok, err, pure, raise, lift, gets, or_raise, require, ◌>>=◌, ◌>>◌}
use acme_lan.Table.{find}
use acme_lan.Models.Rows.{Account, Order, Certificate}
use acme_lan.Models.Session
use acme_lan.Models.Session.{Handler, draw}
use acme_lan.Validators.{same_bytes}
use acme_lan.Acme.Errors.{malformed, unauthorized, server_internal}
use acme_lan.Acme.Encoding.{b64url_decode}
use acme_lan.Acme.Jws.{VerifiedRequest}
use acme_lan.Acme.Common.{Request, Response, read_verified, acme_json_response, acme_raw_response}
use acme_lan.Acme.Accounts.{authorize_account, payload_fields}
use acme_lan.Acme.Authz.{owned_by}

abbrev pub pem_chain_media_type : String
pem_chain_media_type = "application/pem-certificate-chain"

-- The order that a certificate was issued for, if it names one.
unfoldable pub issued_for : Certificate → List Order → Option Order
issued_for cert orders = elim cert.order_id [
  | none ↦ none
  | some id ↦ if is_empty id then none else find (λ o. o.id) id orders
]

-- Signed by the certificate's own key, or by the account that ordered it.
unfoldable pub allowed : Option Account → Bool → Option Order → Result (Unit {0})
allowed none same_key order =
    if same_key
    then ok tt
    else err (unauthorized "Revocation JWK does not match the certificate key")
allowed (some account) same_key order =
    if owned_by account.id order
    then ok tt
    else err (unauthorized "Certificate does not belong to this account")

module _ (p : Platform) where
  unfoldable pub download_certificate : String → Request → Handler Response
  download_certificate certificate_id request = do
    verified ← read_verified p request
    account ← authorize_account verified
    found ← gets (Session.certificate certificate_id)
    cert ← or_raise found (unauthorized "Unknown certificate")
    orders ← gets (λ w. w.tx.orders)
    require (owned_by account.id (issued_for cert orders))
        (unauthorized "Certificate does not belong to this account")
    acme_raw_response p cert.pem_chain pem_chain_media_type

  -- Does a stored certificate have these bytes? One that does not parse is passed over.
  unfoldable pub is_same_leaf : Bytes → Certificate → Bool
  is_same_leaf cert_der candidate = elim (p.load_leaf_pem candidate.pem_chain) [
    | none ↦ false
    | some leaf ↦ same_bytes leaf.der cert_der
  ]

  unfoldable pub has_serial : String → Certificate → Bool
  has_serial serial cert = elim cert.serial [ none ↦ false | some s ↦ s == serial ]

  -- The first stored certificate with this serial and these bytes.
  unfoldable pub stored_record : String → Bytes → List Certificate → Option Certificate
  stored_record serial cert_der [] = none
  stored_record serial cert_der (c ∷ rows) =
      if has_serial serial c && is_same_leaf cert_der c
      then some c
      else stored_record serial cert_der rows

  unfoldable pub authorize_revocation : Leaf → Bytes → VerifiedRequest → Handler (Unit {0})
  authorize_revocation cert cert_der verified = do
    rows ← gets (λ w. w.tx.certificates)
    found ← or_raise (stored_record cert.serial cert_der rows) (unauthorized "Unknown certificate")
    orders ← gets (λ w. w.tx.orders)
    lift (
        allowed verified.account (same_bytes (p.jwk_spki verified.jwk) cert.spki)
          (issued_for found orders))

  -- Any failure to decode or to parse is malformed.
  unfoldable pub decode_certificate : Json → Result (Bytes × Leaf)
  decode_certificate (str cert_b64) =
      if is_empty cert_b64
      then err (malformed "revoke request must contain a base64url DER 'certificate'")
      else elim (b64url_decode p cert_b64) [
        | none ↦ err (malformed "Could not parse certificate")
        | some der ↦ elim (p.load_leaf_der der) [
          | none ↦ err (malformed "Could not parse certificate")
          | some leaf ↦ ok (der, leaf)
        ]
      ]
  decode_certificate other =
      if truthy other
      then err (malformed "Could not parse certificate")
      else err (malformed "revoke request must contain a base64url DER 'certificate'")

  -- The answer of the upstream: an error's text, or that it is done.
  unfoldable pub revoked : String ⊎ Unit {0} → Handler (Unit {0})
  revoked (inl detail) = raise (server_internal ("Upstream revocation failed: " ++ detail))
  revoked (inr _) = pure tt

  unfoldable pub forward : String → Json → Handler (Unit {0})
  forward cert_pem reason = do n ← draw; revoked (p.upstream_revoke n cert_pem reason)

  unfoldable pub revoke_certificate : Request → Handler Response
  revoke_certificate request = do
    verified ← read_verified p request
    payload ← lift (payload_fields verified.payload)
    (cert_der, cert) ← lift (decode_certificate (get "certificate" payload))
    authorize_revocation cert cert_der verified
    forward cert.pem (get "reason" payload)
    acme_json_response p 200 (obj end) none []
