-- ===== src/Oidc.antt =====
-- oidc.py: OpenID Connect login with PKCE. An `OidcError` is a `failure`.
use Prim.Native.String.{◌++◌, count}
use acme_lan.Prelude.{
  ℕ, suc, zero, ◌-◌, String, Bool, true, false, not, ◌&&◌, ◌||◌, Option, none, some, List, [], ◌∷◌,
  leb, any, starts_with, if◌then◌else◌,
}
use acme_lan.Prelude.Text.{is_empty}
use acme_lan.Json.{Json, bool, num, str, arr, obj, Fields, items, get, has, truthy, is_text}
use acme_lan.Platform.{Platform}
use acme_lan.Exec.{Result, ok, err, pure, lift, or_raise, require, ◌>>=◌, ◌>>◌}
use acme_lan.Models.Session.{Handler, draw}
use acme_lan.Acme.Errors.{uncaught, failure}
use acme_lan.Acme.Encoding.{b64url_encode, b64url_decode}
use acme_lan.Users.{split}

-- `text.replace(old, new)` for a text that is not empty; the number is how many characters of an
-- occurrence are still to be passed over.
unfoldable pub replace_from : ℕ → String → String → String → String
replace_from k old new String.[] = String.[]
replace_from (suc k) old new (String.◌∷◌ c s) = replace_from k old new s
replace_from zero old new (String.◌∷◌ c s) = elim (starts_with (String.◌∷◌ c s) old) [
  | true ↦ new ++ replace_from (count old - 1) old new s
  | false ↦ String.◌∷◌ c (replace_from zero old new s)
]

abbrev pub number_of_bool : Bool → ℕ
number_of_bool true = 1
number_of_bool false = 0

-- `isinstance(value, int)`: a Boolean is one.
abbrev pub as_int : Json → Option ℕ
as_int (num n) = some n
as_int (bool b) = some (number_of_bool b)
as_int _ = none

-- `claims.get("iss", "")`.
abbrev pub get_or : Json → String → Fields → Json
get_or default key fields = if has key fields then get key fields else default

-- `audience if isinstance(audience, list) else [audience]`.
abbrev pub audiences : Json → List Json
audiences (arr js) = items js
audiences j = j ∷ []

-- The first of some values that is true, or the empty text.
abbrev pub first_true : List Json → Json
first_true [] = str ""
first_true (j ∷ js) = if truthy j then j else first_true js

-- The first of some names without a true value.
abbrev pub missing_member : List String → Fields → Option String
missing_member [] document = none
missing_member (required ∷ names) document =
    if truthy (get required document) then missing_member names document else some required

-- `text[:n]`.
abbrev pub first_chars : ℕ → String → String
first_chars zero s = ""
first_chars (suc n) String.[] = ""
first_chars (suc n) (String.◌∷◌ c s) = String.◌∷◌ c (first_chars n s)

module _ (p : Platform) where
  -- `str(value)`.
  abbrev pub text_of : Json → String
  text_of (str s) = s
  text_of j = p.repr j

  unfoldable pub decode_claims_segment : String → Result Json
  decode_claims_segment segment = elim (b64url_decode p segment) [
    | none ↦ err (failure "could not decode the ID token payload")
    | some bytes ↦ elim (p.json_loads bytes) [
      | none ↦ err (failure "could not decode the ID token payload")
      | some claims ↦ ok claims
    ]
  ]

  unfoldable pub decode_parts : List String → Result Json
  decode_parts (header ∷ payload ∷ signature ∷ []) = decode_claims_segment payload
  decode_parts _ = err (failure "malformed ID token")

  unfoldable pub decode_jwt_claims : Json → Result Json
  decode_jwt_claims (str token) = decode_parts (split b'.' token)
  decode_jwt_claims _ = err uncaught

  -- The verifier, and the challenge that is sent ahead.
  unfoldable pub make_pkce : Handler (String × String)
  make_pkce = do
    n ← draw
    let verifier = p.token_urlsafe n
    pure (verifier, b64url_encode p (p.sha256 (p.encode_utf8 verifier)))

  -- A JSON answer that is no object raises where it is read.
  unfoldable pub as_document : Option Json → Result Fields
  as_document none = err (failure "discovery document was not JSON")
  as_document (some (obj fields)) =
      elim (missing_member ("authorization_endpoint" ∷ "token_endpoint" ∷ "issuer" ∷ []) fields) [
        | none ↦ ok fields
        | some required ↦ err (failure ("discovery document is missing " ++ required))
      ]
  as_document (some _) = err uncaught

  unfoldable pub fetch_discovery : String → Handler Fields
  fetch_discovery discovery_url = do
    require (not (is_empty discovery_url)) (failure "no OIDC discovery URL configured")
    n ← draw
    (status, body) ← or_raise (p.get_json n discovery_url) uncaught
    require (not (leb 400 status))
        (failure ("discovery failed (" ++ (p.number_text status ++ (") for " ++ discovery_url))))
    lift (as_document body)

  unfoldable pub authorize_url :
      Fields → String → String → String → String → String → String → String
  authorize_url document client_id redirect_uri scopes state nonce code_challenge =
      text_of (get "authorization_endpoint" document)
      ++ ("?"
          ++ p.urlencode (
              ("client_id", client_id)
              ∷ ("response_type", "code")
              ∷ ("redirect_uri", redirect_uri)
              ∷ ("scope", if is_empty scopes then "openid email profile" else scopes)
              ∷ ("state", state)
              ∷ ("nonce", nonce)
              ∷ ("code_challenge", code_challenge)
              ∷ ("code_challenge_method", "S256")
              ∷ []))

  unfoldable pub token_form : String → String → String → String → String → List (String × String)
  token_form code client_id client_secret redirect_uri code_verifier =
      ("grant_type", "authorization_code")
      ∷ ("code", code)
      ∷ ("redirect_uri", redirect_uri)
      ∷ ("client_id", client_id)
      ∷ ("code_verifier", code_verifier)
      ∷ (if is_empty client_secret then [] else ("client_secret", client_secret) ∷ [])

  unfoldable pub as_tokens : Option Json → Result Fields
  as_tokens (some (obj fields)) =
      if truthy (get "id_token" fields)
      then ok fields
      else err (failure "token response contained no id_token")
  as_tokens _ = err uncaught

  unfoldable pub exchange_code :
      Fields → String → String → String → String → String → Handler Fields
  exchange_code document code client_id client_secret redirect_uri code_verifier = do
    n ← draw
    (status, text, body) ←
        or_raise
          (p.post_form n (text_of (get "token_endpoint" document))
            (token_form code client_id client_secret redirect_uri code_verifier))
          uncaught
    require (not (leb 400 status)) (
        failure
          ("token exchange failed (" ++ (p.number_text status ++ ("): " ++ first_chars 300 text))))
    lift (as_tokens body)

  -- The issuer, with the directory of a multi-tenant provider put in.
  unfoldable pub is_issuer : Fields → String → Bool
  is_issuer claims issuer =
      is_empty issuer
      || (is_text issuer (get_or (str "") "iss" claims)
          || is_text (replace_from 0 "{tenantid}" (text_of (get_or (str "") "tid" claims)) issuer)
              (get_or (str "") "iss" claims))

  unfoldable pub is_audience : Fields → String → Bool
  is_audience claims client_id =
      any (λ a. truthy a && is_text client_id a) (audiences (get "aud" claims))

  unfoldable pub is_current : Fields → ℕ → Bool
  is_current claims time = elim (as_int (get "exp" claims)) [
    | none ↦ false
    | some expiry ↦ not (leb expiry time)
  ]

  unfoldable pub is_nonce : Fields → String → Bool
  is_nonce claims nonce = is_empty nonce || is_text nonce (get "nonce" claims)

  unfoldable pub validate_claims : Fields → String → String → String → ℕ → Result (Unit {0})
  validate_claims claims issuer client_id nonce time =
      if not (is_issuer claims issuer)
      then err (failure ("unexpected issuer " ++ p.repr (get_or (str "") "iss" claims)))
      else if not (is_audience claims client_id)
      then err (failure "ID token audience does not match the configured client ID")
      else if not (is_current claims time)
      then err (failure "ID token has expired")
      else if not (is_nonce claims nonce)
      then err (failure "ID token nonce did not match the login request")
      else ok tt

  unfoldable pub claim_email : Fields → String
  claim_email claims =
      text_of
        (first_true (get "email" claims ∷ get "preferred_username" claims ∷ get "upn" claims ∷ []))

  unfoldable pub claim_subject : Fields → String
  claim_subject claims = text_of (first_true (get "sub" claims ∷ []))

  -- The subject, the email address and the name.
  unfoldable pub claim_identity : Fields → String × String × String
  claim_identity claims = (
    claim_subject claims,
    claim_email claims,
    text_of (
        first_true
          (get "name" claims ∷ str (claim_email claims) ∷ str (claim_subject claims) ∷ [])),
  )
