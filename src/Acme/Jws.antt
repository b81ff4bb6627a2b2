-- ===== src/Acme/Jws.antt =====
-- acme/jws.py: parsing and verification of the JWS that every ACME request is.
pub mod KeyIds
pub mod ReadOnly
pub mod Soundness
use Prim.Native.Nat.{◌+◌, ◌*◌}
use Prim.Native.String.{◌++◌}
use acme_lan.Prelude.{
  ℕ, String, Bool, true, false, not, ◌&&◌, Option, none, some, [], ◌∷◌, ◌==◌, eqb, length, take,
  drop, if◌then◌else◌,
}
use mathlib.Core.Option
use acme_lan.Prelude.Text.{is_empty, rstrip, last_part}
use acme_lan.Json.{Json, null, str, obj, Fields, get, has, truthy, is_text}
use acme_lan.Platform.{Platform, Bytes}
use acme_lan.Exec.{Result, ok, err, pure, raise, lift, gets, or_raise, require, ◌>>=◌, ◌>>◌, ◌>>?◌}
use acme_lan.Models.Rows.{Account}
use acme_lan.Models.Session
use acme_lan.Models.Session.{Handler}
use acme_lan.Acme.Errors.{uncaught, malformed, unauthorized, bad_nonce}
use acme_lan.Acme.Encoding.{b64url_encode, b64url_decode}
use acme_lan.Acme.Nonce.{consume_nonce}

-- `account` is there exactly when the request was signed by a key identifier. A payload `None`
-- is a POST-as-GET.
pub record VerifiedRequest : Type 0 where
  pub payload : Option Json
  pub protected : Fields
  pub account_id : Option String
  pub account : Option Account
  pub jwk : Json
  pub jwk_dict : Json

-- What is read from the body before the nonce is consumed.
pub record Parsed : Type 0 where
  pub protected : Fields
  pub protected_b64 : String
  pub payload_b64 : Json
  pub signature : Bytes
  pub alg : String
  pub nonce : String

unfoldable pub rsa_hash : String → Option String
rsa_hash alg =
    if alg == "RS256"
    then some "sha256"
    else if alg == "RS384"
    then some "sha384"
    else if alg == "RS512"
    then some "sha512"
    else none

unfoldable pub ec_hash : String → Option (String × ℕ)
ec_hash alg =
    if alg == "ES256"
    then some ("sha256", 32)
    else if alg == "ES384"
    then some ("sha384", 48)
    else if alg == "ES512"
    then some ("sha512", 66)
    else none

-- `int.from_bytes(bytes, "big")`.
unfoldable pub from_bytes : ℕ → Bytes → ℕ
from_bytes n [] = n
from_bytes n (b ∷ bytes) = from_bytes (n * 256 + b) bytes

module _ (p : Platform) where
  -- `_verify_signature`.
  unfoldable pub verify_rsa : Json → String → Bytes → Bytes → Result (Unit {0})
  verify_rsa jwk alg input signature = elim (rsa_hash alg) [
    | none ↦ err (malformed ("Unsupported RSA alg " ++ alg))
    | some hash ↦
        if p.rsa_verify jwk hash signature input
        then ok tt
        else err (unauthorized "JWS signature verification failed")
  ]

  unfoldable pub verify_ec : Json → String → Bytes → Bytes → Result (Unit {0})
  verify_ec jwk alg input signature = elim (ec_hash alg) [
    | none ↦ err (malformed ("Unsupported EC alg " ++ alg))
    | some (hash, comp_len) ↦
        if not (eqb (length signature) (comp_len * 2))
        then err (malformed "Malformed ECDSA signature length")
        else if p.ec_verify jwk hash (from_bytes 0 (take comp_len signature))
            (from_bytes 0 (drop comp_len signature)) input
        then ok tt
        else err (unauthorized "JWS signature verification failed")
  ]

  -- A key type in an f-string.
  abbrev key_type_text : Json → String
  key_type_text (str s) = s
  key_type_text j = p.repr j

  unfoldable pub verify_signature : Json → Json → String → Bytes → Bytes → Result (Unit {0})
  verify_signature jwk kty alg input signature =
      if is_text "RSA" kty
      then verify_rsa jwk alg input signature
      else if is_text "EC" kty
      then verify_ec jwk alg input signature
      else err (malformed ("Unsupported key type " ++ key_type_text kty))

  abbrev pub or_malformed : Option Json → Result Json
  or_malformed none = err (malformed "Could not parse JWK")
  or_malformed (some jwk) = ok jwk

  -- `bool(a) == bool(b)`.
  abbrev same_truth : Bool → Bool → Bool
  same_truth true b = b
  same_truth false b = not b

  -- `b64url_decode` of a JSON value: on a value that is no text it raises a `TypeError`.
  unfoldable pub decode_member : Json → Result Bytes
  decode_member (str text) = elim (b64url_decode p text) [
    | none ↦ err (malformed "Could not decode JWS protected header or signature")
    | some bytes ↦ ok bytes
  ]
  decode_member _ = err uncaught

  -- `json.loads(body)` and the test of its shape.
  unfoldable pub parse_members : Bytes → Result Fields
  parse_members [] = err (malformed "Empty request body")
  parse_members (b ∷ body) = elim (p.json_loads (b ∷ body)) [
    | none ↦ err (malformed "Request body is not valid JSON")
    | some (obj members) ↦
        if has "protected" members && (has "payload" members && has "signature" members)
        then ok members
        else err (malformed "Request is not a valid flattened JWS")
    | some _ ↦ err (malformed "Request is not a valid flattened JWS")
  ]

  unfoldable pub parse_header : Bytes → Result Json
  parse_header header = elim (p.json_loads header) [
    | none ↦ err (malformed "Could not decode JWS protected header or signature")
    | some value ↦ ok value
  ]

  unfoldable pub parse_object : Json → Result Fields
  parse_object (obj fields) = ok fields
  parse_object _ = err (malformed "JWS protected header is not an object")

  unfoldable pub parse_alg : Json → Result String
  parse_alg (str alg) =
      if alg == "none" then err (malformed "Missing or unacceptable JWS alg") else ok alg
  parse_alg _ = err (malformed "Missing or unacceptable JWS alg")

  unfoldable pub parse_nonce : Json → Result String
  parse_nonce (str nonce) =
      if is_empty nonce then err (bad_nonce "Missing anti-replay nonce") else ok nonce
  parse_nonce _ = err (bad_nonce "Missing anti-replay nonce")

  abbrev pub check_url : Json → String → Result (Unit {0})
  check_url signed_url actual_url =
      if is_text actual_url signed_url
      then ok tt
      else err (
          unauthorized (
            "JWS url "
            ++ p.repr signed_url
            ++ " does not match request url "
            ++ p.repr (str actual_url)))

  abbrev text_of : Json → String
  text_of (str s) = s
  text_of _ = ""

  -- `verify_jws`, up to the nonce.
  unfoldable pub parse_jws : String → Bytes → Result Parsed
  parse_jws actual_url body = parse_members body >>? λ members.
      decode_member (get "protected" members) >>? λ header_bytes.
      parse_header header_bytes >>? λ header.
      decode_member (get "signature" members) >>? λ signature. parse_object header >>? λ protected.
      parse_alg (get "alg" protected) >>? λ alg. check_url (get "url" protected) actual_url >>? λ _.
      parse_nonce (get "nonce" protected) >>? λ nonce. ok (record {
        protected = protected;
        protected_b64 = text_of (get "protected" members);
        payload_b64 = get "payload" members;
        signature = signature;
        alg = alg;
        nonce = nonce;
      })

  -- Key resolution: the key, with the account that a key identifier names.
  unfoldable pub resolve_kid : Json → Handler (Json × Option Account)
  resolve_kid (str kid) = do
    found ← gets (Session.account (last_part b'/' (rstrip b'/' kid)))
    account ← or_raise found (unauthorized "Unknown account key identifier")
    require (account.status == "valid") (unauthorized ("Account is " ++ account.status))
    pure (account.jwk, some account)
  resolve_kid _ = raise uncaught

  unfoldable pub resolve_key : Fields → Handler (Json × Option Account)
  resolve_key protected =
      if same_truth (truthy (get "jwk" protected)) (truthy (get "kid" protected))
      then raise (malformed "JWS must contain exactly one of 'jwk' or 'kid'")
      else if truthy (get "jwk" protected)
      then pure (get "jwk" protected, none)
      else resolve_kid (get "kid" protected)

  -- `jwk_dict.get("kty", "")`.
  unfoldable pub key_type : Json → Result Json
  key_type (obj fields) = ok (if has "kty" fields then get "kty" fields else str "")
  key_type _ = err uncaught

  -- `(protected_b64 + "." + payload_b64).encode("ascii")`.
  unfoldable pub signing_input : String → Json → Result Bytes
  signing_input protected_b64 (str payload_b64) =
      elim (p.encode_ascii (protected_b64 ++ ("." ++ payload_b64))) [
        | none ↦ err uncaught
        | some bytes ↦ ok bytes
      ]
  signing_input protected_b64 _ = err uncaught

  -- The empty text is a POST-as-GET; so is the JSON value `null`.
  unfoldable pub decode_payload : Json → Result (Option Json)
  decode_payload (str payload_b64) =
      if is_empty payload_b64 then ok none else elim (b64url_decode p payload_b64) [
        | none ↦ err (malformed "JWS payload is not valid JSON")
        | some bytes ↦ elim (p.json_loads bytes) [
          | none ↦ err (malformed "JWS payload is not valid JSON")
          | some null ↦ ok none
          | some value ↦ ok (some value)
        ]
      ]
  decode_payload _ = err uncaught

  -- The part of `verify_jws` that reads only the request and the key.
  unfoldable pub check_key : Parsed → Json → Result (Json × Option Json)
  check_key parsed jwk_dict = or_malformed (p.jwk_from_json jwk_dict) >>? λ jwk.
      key_type jwk_dict >>? λ kty.
      signing_input parsed.protected_b64 parsed.payload_b64 >>? λ input.
      verify_signature jwk kty parsed.alg input parsed.signature >>? λ _.
      decode_payload parsed.payload_b64 >>? λ payload. ok (jwk, payload)

  -- The part of `verify_jws` after the nonce: the key, the signature, the payload.
  unfoldable pub after_nonce : Parsed → Handler VerifiedRequest
  after_nonce parsed = do
    (jwk_dict, account) ← resolve_key parsed.protected
    (jwk, payload) ← lift (check_key parsed jwk_dict)
    pure (record {
      payload = payload;
      protected = parsed.protected;
      account_id = Option.map (λ a. a.id) account;
      account = account;
      jwk = jwk;
      jwk_dict = jwk_dict;
    })

  unfoldable pub verify_jws : String → Bytes → Handler VerifiedRequest
  verify_jws actual_url body = do
    parsed ← lift (parse_jws actual_url body)
    consume_nonce parsed.nonce
    after_nonce parsed

  -- `VerifiedRequest.thumbprint_b64`.
  unfoldable pub thumbprint_b64 : VerifiedRequest → String
  thumbprint_b64 verified = b64url_encode p (p.jwk_thumbprint verified.jwk)
