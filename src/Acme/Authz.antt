-- ===== src/Acme/Authz.antt =====
-- acme/authz.py: the authorization resource, and the answer to a challenge.
pub mod Outcome
use Prim.Native.String.{◌++◌}
use acme_lan.Prelude.{ℕ, String, Bool, true, false, Option, none, some, List, ◌==◌, if◌then◌else◌}
use acme_lan.Json.{str, obj, end, field}
use acme_lan.Platform.{Platform}
use acme_lan.Exec.{pure, raise, gets, or_raise, require, ◌>>=◌, ◌>>◌}
use acme_lan.Models.Rows.{Order, Authorization, Challenge, AuthzStatus, ChallengeStatus}
use acme_lan.Models.Session
use acme_lan.Models.Session.{Handler, commit, now, write, put_authorization, put_challenge}
use acme_lan.Validators.{ValidationResult, validate_http01, validate_tlsalpn01}
use acme_lan.Acme.Errors.{malformed, unauthorized}
use acme_lan.Acme.Encoding.{Urls, authorization_url}
use acme_lan.Acme.Jws.{VerifiedRequest, thumbprint_b64}
use acme_lan.Acme.Common.{Request, Response, read_verified, acme_json_response}
use acme_lan.Acme.Serializers.{authz_to_json, challenge_to_json}
use acme_lan.Acme.Accounts.{authorize_account, urls_of}

-- `order is None or order.account_id != account_id`.
unfoldable pub owned_by : String → Option Order → Bool
owned_by account_id none = false
owned_by account_id (some order) = order.account_id == account_id

unfoldable pub load_owned_authz : String → String → Handler Authorization
load_owned_authz authz_id account_id = do
  found ← gets (Session.authorization authz_id)
  authz ← or_raise found (unauthorized "Unknown authorization")
  order ← gets (Session.order authz.order_id)
  require (owned_by account_id order) (unauthorized "Authorization does not belong to this account")
  pure authz

-- `challenge.status in (VALID, INVALID)`.
abbrev pub is_resolved : ChallengeStatus → Bool
is_resolved ChallengeStatus.valid = true
is_resolved ChallengeStatus.invalid = true
is_resolved _ = false

-- What the result of a validation does to the challenge and to its authorization.
unfoldable pub resolve_challenge : ℕ → ValidationResult → Challenge → Challenge
resolve_challenge time result challenge =
    if result.passed
    then record challenge { status = ChallengeStatus.valid; validated_at = some time }
    else record challenge {
      status = ChallengeStatus.invalid;
      error = some (
          obj (
            field "type" (str "urn:ietf:params:acme:error:unauthorized")
              (field "detail" (str result.detail) end)));
    }

unfoldable pub resolve_authz : ValidationResult → Authorization → Authorization
resolve_authz result authz =
    if result.passed
    then record authz { status = AuthzStatus.valid }
    else record authz { status = AuthzStatus.invalid }

module _ (p : Platform) where
  unfoldable pub authorization_detail : String → Request → Handler Response
  authorization_detail authz_id request = do
    verified ← read_verified p request
    account ← authorize_account verified
    authz ← load_owned_authz authz_id account.id
    doc ← gets (λ w. authz_to_json p authz w (urls_of p request))
    acme_json_response p 200 doc none List.[]

  unfoldable pub challenge_response : Challenge → Authorization → Urls → Handler Response
  challenge_response challenge authz urls =
      acme_json_response p 200 (challenge_to_json p challenge urls) none
        (List.◌∷◌ (authorization_url urls authz.id, "up") List.[])

  -- The check that the challenge's type asks for.
  unfoldable pub validate : VerifiedRequest → Challenge → Authorization → Handler ValidationResult
  validate verified challenge authz =
      let key_authorization = challenge.token ++ ("." ++ thumbprint_b64 p verified) in
      if challenge.kind == "http-01"
      then validate_http01 p authz.identifier_value challenge.token key_authorization
      else if challenge.kind == "tls-alpn-01"
      then validate_tlsalpn01 p authz.identifier_value key_authorization
      else raise (
          malformed (
            "Challenge type "
            ++ (p.repr (str challenge.kind) ++ " is not supported for validation yet")))

  unfoldable pub attempt : VerifiedRequest → Challenge → Authorization → Urls → Handler Response
  attempt verified challenge authz urls = do
    result ← validate verified challenge authz
    time ← now
    let challenge' = resolve_challenge time result challenge
    write (put_challenge challenge')
    write (put_authorization (resolve_authz result authz))
    commit
    challenge_response challenge' authz urls

  unfoldable pub respond_challenge : String → Request → Handler Response
  respond_challenge challenge_id request = do
    verified ← read_verified p request
    account ← authorize_account verified
    found ← gets (Session.challenge challenge_id)
    challenge ← or_raise found (unauthorized "Unknown challenge")
    authz ← load_owned_authz challenge.authz_id account.id
    if is_resolved challenge.status
        then challenge_response challenge authz (urls_of p request)
        else attempt verified challenge authz (urls_of p request)
