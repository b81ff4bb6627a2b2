-- ===== src/Acme/Jws/Soundness.antt =====
-- What `verify_jws` (acme/jws.py) says of a request that it returns.

use mathlib.Core.Path.{subst}
use acme_lan.Prelude.{
  String, ◌≡◌, refl, ap, sym, ◌∙◌, true, false, Option, none, some, inl, inr, arith, eq_iff,
  Bool-cases,
}
use acme_lan.Prelude.Text.{rstrip, last_part}
use acme_lan.Json.{Json, Fields, str, get, truthy, is_text}
use acme_lan.Platform.{Platform, Bytes}
use acme_lan.Exec.{ok, pure, raise}
use acme_lan.Exec.Returns.{
  bind_returned, chain_returned, lift_returned, or_raise_returned, require_returned, gets-bind,
}
use acme_lan.Models.Rows.{Account, World}
use acme_lan.Models.Session
use acme_lan.Acme.Nonce.{consume_nonce}
use acme_lan.Acme.Nonce.SingleUse.{consume_nonce_lem}
use acme_lan.Acme.Jws.{
  VerifiedRequest, Parsed, parse_jws, resolve_kid, resolve_key, or_malformed, check_url,
  parse_members, decode_member, parse_header, parse_object, parse_alg, parse_nonce, check_key,
  key_type, signing_input, verify_signature, decode_payload, after_nonce, verify_jws,
}

ok-injective : {A : Type 0} {a b : A} → ok a ≡ ok b → a ≡ b
ok-injective e = cc

module _ (p : Platform) where
  -- The signature of a parsed request verifies under a key.
  pub record IsSigned (parsed : Parsed) (jwk_dict : Json) (jwk : Json) : Type 0 where
    pub parsed_key : p.jwk_from_json jwk_dict ≡ some jwk
    pub kty : Json
    pub input : Bytes
    pub same_kty : key_type p jwk_dict ≡ ok kty
    pub same_input : signing_input p parsed.protected_b64 parsed.payload_b64 ≡ ok input
    pub signature : verify_signature p jwk kty parsed.alg input parsed.signature ≡ ok tt

  key_parsed : (o : Option Json) {jwk : Json} → or_malformed p o ≡ ok jwk → o ≡ some jwk
  key_parsed none e = cc
  key_parsed (some j) e = cc

  check_key-IsSigned :
      (parsed : Parsed) (jwk_dict : Json) {jwk : Json} {payload : Option Json}
      → check_key p parsed jwk_dict ≡ ok (jwk, payload)
      → IsSigned parsed jwk_dict jwk
  unfolding check_key
  check_key-IsSigned parsed jwk_dict {jwk} e =
      let (j, e1, r1) = chain_returned (or_malformed p (p.jwk_from_json jwk_dict)) _ e in
      let (kty, e2, r2) = chain_returned (key_type p jwk_dict) _ r1 in
      let (input, e3, r3) =
        chain_returned (signing_input p parsed.protected_b64 parsed.payload_b64) _ r2 in
      let (u, e4, r4) =
        chain_returned (verify_signature p j kty parsed.alg input parsed.signature) _ r3 in
      let (body, e5, r5) = chain_returned (decode_payload p parsed.payload_b64) _ r4 in
      let same : j ≡ jwk = ground arith in
      record {
        parsed_key = key_parsed (p.jwk_from_json jwk_dict) (rw same at e1);
        kty = kty;
        input = input;
        same_kty = e2;
        same_input = e3;
        signature = rw same at e4;
      }

  -- Where the key of a request comes from: from its header, or from an account that is stored
  -- under the key identifier and is not deactivated.
  pub data KeyOf (w : World) (protected : Fields) (jwk_dict : Json) (account : Option Account)
      : Type 0 where
    embedded :
        account ≡ none
        → truthy (get "jwk" protected) ≡ true
        → truthy (get "kid" protected) ≡ false
        → jwk_dict ≡ get "jwk" protected
        → KeyOf w protected jwk_dict account
    registered :
        (kid : String) (a : Account)
        → account ≡ some a
        → truthy (get "jwk" protected) ≡ false
        → get "kid" protected ≡ str kid
        → Session.account (last_part b'/' (rstrip b'/' kid)) w ≡ some a
        → a.status ≡ "valid"
        → jwk_dict ≡ a.jwk
        → KeyOf w protected jwk_dict account

  -- Only the accounts that the session sees matter.
  KeyOf-of_tx :
      {u w : World} {protected : Fields} {jwk_dict : Json} {account : Option Account}
      → KeyOf u protected jwk_dict account
      → u.tx ≡ w.tx
      → KeyOf w protected jwk_dict account
  KeyOf-of_tx (embedded a b c d) same = embedded a b c d
  KeyOf-of_tx (registered kid a b c d found f g) same =
      registered kid a b c d (rw same at found) f g

  resolve_kid_sound :
      (protected : Fields) (kid : Json) (w : World) {jwk_dict : Json} {account : Option Account}
      → truthy (get "jwk" protected) ≡ false
      → get "kid" protected ≡ kid
      → (resolve_kid p kid w).0 ≡ ok (jwk_dict, account)
      → KeyOf w protected jwk_dict account
  unfolding resolve_kid pure raise
  resolve_kid_sound protected (str kid) w {jwk_dict} {account} no_jwk same e =
      let found = Session.account (last_part b'/' (rstrip b'/' kid)) w in
      let (a, e1, r1) = or_raise_returned found _ _ w (rw gets-bind at e) in
      let (valid, r2) = require_returned _ _ _ w (rw r1 at (rw gets-bind at e)) in
      let done = rw r2 at (rw r1 at (rw gets-bind at e)) in
      registered kid a (ground arith) no_jwk same e1 ((eq_iff a.status "valid").0 valid)
        (ground arith)
  resolve_kid_sound protected _ w no_jwk same e = cc

  resolve_key_sound :
      (protected : Fields) (w : World) {jwk_dict : Json} {account : Option Account}
      → (resolve_key p protected w).0 ≡ ok (jwk_dict, account)
      → KeyOf w protected jwk_dict account
  unfolding resolve_key pure raise
  resolve_key_sound protected w {jwk_dict} {account} e =
      elim (Bool-cases (truthy (get "jwk" protected))) [
        | inl jwk ↦ elim (Bool-cases (truthy (get "kid" protected))) [
          | inl kid ↦ cc (rw (jwk, kid) at e)
          | inr kid ↦
              let done = rw (jwk, kid) at e in embedded (ground arith) jwk kid (ground arith)
        ]
        | inr jwk ↦ elim (Bool-cases (truthy (get "kid" protected))) [
          | inl kid ↦
              resolve_kid_sound protected (get "kid" protected) w jwk refl (rw (jwk, kid) at e)
          | inr kid ↦ cc (rw (jwk, kid) at e)
        ]
      ]

  is_text_eq : (s : String) (j : Json) → is_text s j ≡ true → j ≡ str s
  is_text_eq s (str t) e = ap str ((eq_iff t s).0 e)
  is_text_eq s _ e = cc

  check_url_signed :
      (j : Json) (url : String) {u : Unit {0}} → check_url p j url ≡ ok u → j ≡ str url
  check_url_signed j url e = elim (Bool-cases (is_text url j)) [
    | inl same ↦ is_text_eq url j same
    | inr other ↦ cc (rw other at e)
  ]

  parse_jws_url :
      (url : String) (body : Bytes) {parsed : Parsed}
      → parse_jws p url body ≡ ok parsed
      → get "url" parsed.protected ≡ str url
  unfolding parse_jws
  parse_jws_url url body {parsed} e =
      let (members, _, r1) = chain_returned (parse_members p body) _ e in
      let (bytes, _, r2) = chain_returned (decode_member p (get "protected" members)) _ r1 in
      let (header, _, r3) = chain_returned (parse_header p bytes) _ r2 in
      let (signature, _, r4) = chain_returned (decode_member p (get "signature" members)) _ r3 in
      let (protected, _, r5) = chain_returned (parse_object p header) _ r4 in
      let (alg, _, r6) = chain_returned (parse_alg p (get "alg" protected)) _ r5 in
      let (u, e7, r7) = chain_returned (check_url p (get "url" protected) url) _ r6 in
      let (nonce, _, r8) = chain_returned (parse_nonce p (get "nonce" protected)) _ r7 in
      ap (λ (x : Parsed). get "url" x.protected) (sym (ok-injective r8))
      ∙ check_url_signed (get "url" protected) url e7

  -- What holds of a request that was verified: the body parses, for this URL; the key is that of
  -- the header or of an account that is registered and not deactivated; the signature verifies
  -- under that key; the protected header is the one that was signed.
  pub record IsVerified (url : String) (body : Bytes) (w : World) (v : VerifiedRequest)
      : Type 0 where
    pub parsed : Parsed
    pub parses : parse_jws p url body ≡ ok parsed
    pub protected : v.protected ≡ parsed.protected
    pub url_signed : get "url" v.protected ≡ str url
    pub key : KeyOf w parsed.protected v.jwk_dict v.account
    pub signed : IsSigned parsed v.jwk_dict v.jwk

  after_nonce_sound :
      (parsed : Parsed) (w : World) {v : VerifiedRequest}
      → (after_nonce p parsed w).0 ≡ ok v
      → (v.protected ≡ parsed.protected)
        × KeyOf w parsed.protected v.jwk_dict v.account
        × IsSigned parsed v.jwk_dict v.jwk
  unfolding after_nonce pure
  after_nonce_sound parsed w {v} e =
      let (found, e1, r1) = bind_returned (resolve_key p parsed.protected) _ w e in
      let (checked, e2, r2) = lift_returned (check_key p parsed found.0) _ _ (rw r1 at e) in
      subst
        (λ (x : VerifiedRequest).
          (x.protected ≡ parsed.protected)
          × KeyOf w parsed.protected x.jwk_dict x.account
          × IsSigned parsed x.jwk_dict x.jwk)
        (ok-injective (rw r2 at (rw r1 at e)))
        (refl, resolve_key_sound parsed.protected w e1, check_key-IsSigned parsed found.0 e2)

  -- Every request that is verified is signed by the key in its header, or by an account of the
  -- database that is not deactivated, for the URL under which it arrived.
  pub verify_jws_sound :
      (url : String) (body : Bytes) (w : World) (v : VerifiedRequest)
      → (verify_jws p url body w).0 ≡ ok v
      → IsVerified url body w v
  unfolding verify_jws
  verify_jws_sound url body w v e =
      let (parsed, e1, r1) = lift_returned (parse_jws p url body) _ w e in
      let (u, e2, r2) = bind_returned (consume_nonce parsed.nonce) _ w (rw r1 at e) in
      let (_, _, state) = consume_nonce_lem parsed.nonce w in
      let (same, key, signed) =
        after_nonce_sound parsed (consume_nonce parsed.nonce w).1 (rw r2 at (rw r1 at e)) in
      record {
        parsed = parsed;
        parses = e1;
        protected = same;
        url_signed = rw same (parse_jws_url url body e1);
        key = KeyOf-of_tx key (ap (λ (x : World). x.tx) state);
        signed = signed;
      }
