-- ===== src/Acme/Accounts.antt =====
-- acme/accounts.py: account creation, and the account resource.
use acme_lan.Prelude.{
  ℕ, String, Bool, true, false, not, Option, none, some, List, ◌==◌, if◌then◌else◌,
}
use acme_lan.Json.{Json, arr, obj, nil, Fields, get, has, truthy, is_text, or_empty}
use acme_lan.Platform.{Platform}
use acme_lan.Exec.{Result, ok, err, pure, lift, gets, or_raise, require, ◌>>=◌, ◌>>◌}
use acme_lan.Models.Rows.{Account}
use acme_lan.Models.Session.{Handler, commit, now, draw, write, put_account}
use acme_lan.Acme.Errors.{uncaught, malformed, unauthorized, account_does_not_exist}
use acme_lan.Acme.Encoding.{Urls, urls_for, profile_from_request, account_url}
use acme_lan.Acme.Jws.{VerifiedRequest, thumbprint_b64}
use acme_lan.Acme.Common.{Request, Response, read_verified, acme_json_response}
use acme_lan.Acme.Serializers.{account_to_json}

-- `verified.payload or {}` as a dictionary: calling `.get` on another value raises.
unfoldable pub payload_fields : Option Json → Result Fields
payload_fields payload = elim (or_empty payload) [ obj fields ↦ ok fields | _ ↦ err uncaught ]

-- `scalar_one_or_none` of the accounts with a key thumbprint; two of them would raise.
unfoldable pub by_thumbprint : String → List Account → Result (Option Account)
by_thumbprint thumbprint List.[] = ok none
by_thumbprint thumbprint (List.◌∷◌ a rows) =
    let others = by_thumbprint thumbprint rows in
    if a.key_thumbprint == thumbprint
    then elim others [ ok none ↦ ok (some a) | _ ↦ err uncaught ]
    else others

abbrev is_array : Json → Bool
is_array (arr _) = true
is_array _ = false

abbrev is_none : Option String → Bool
is_none none = true
is_none (some _) = false

-- `payload.get("contact") or []`.
abbrev contact_of : Fields → Json
contact_of payload = if truthy (get "contact" payload) then get "contact" payload else arr nil

-- `verified.account`, which is there for a request signed by a key identifier.
unfoldable pub authorize_account : VerifiedRequest → Handler Account
authorize_account verified =
    or_raise verified.account
      (unauthorized "Request must be signed with an account key identifier (kid)")

module _ (p : Platform) where
  unfoldable pub urls_of : Request → Urls
  urls_of request = urls_for p.settings.external_url (profile_from_request request.profile)

  unfoldable pub account_response : ℕ → Account → Urls → Handler Response
  account_response status account urls =
      acme_json_response p status (account_to_json account urls)
        (some (account_url urls account.id)) List.[]

  unfoldable pub create_account : VerifiedRequest → Urls → Handler Response
  create_account verified urls = do
    payload ← lift (payload_fields verified.payload)
    require (not (truthy (get "onlyReturnExisting" payload))) account_does_not_exist
    require (is_array (contact_of payload)) (malformed "contact must be an array of URLs")
    n ← draw
    time ← now
    let account : Account = record {
      id = p.uuid n;
      status = "valid";
      key_thumbprint = thumbprint_b64 p verified;
      jwk = verified.jwk_dict;
      contact = contact_of payload;
      terms_agreed = truthy (get "termsOfServiceAgreed" payload);
      created_at = time;
    }
    write (put_account account)
    commit
    account_response 201 account urls

  unfoldable pub new_account_for : VerifiedRequest → Urls → Option Account → Handler Response
  new_account_for verified urls none = create_account verified urls
  new_account_for verified urls (some existing) = account_response 200 existing urls

  unfoldable pub new_account : Request → Handler Response
  new_account request = do
    verified ← read_verified p request
    require (is_none verified.account_id)
        (malformed "newAccount must be signed with an embedded JWK, not a kid")
    rows ← gets (λ w. w.tx.accounts)
    existing ← lift (by_thumbprint (thumbprint_b64 p verified) rows)
    new_account_for verified (urls_of request) existing

  -- The changes that a payload asks for; a payload that is no object raises.
  unfoldable pub update_contact : Fields → Account → Result Account
  update_contact payload account =
      if has "contact" payload
      then (if is_array (get "contact" payload)
          then ok (record account { contact = get "contact" payload })
          else err (malformed "contact must be an array of URLs"))
      else ok account

  unfoldable pub update_status : Fields → Account → Account
  update_status payload account =
      if is_text "deactivated" (get "status" payload)
      then record account { status = "deactivated" }
      else account

  unfoldable pub update_account : Option Json → Account → Handler Account
  update_account none account = pure account
  update_account (some j) account = do
    payload ← lift (payload_fields (some j))
    updated ← lift (update_contact payload account)
    let account' : Account = update_status payload updated
    write (put_account account')
    commit
    pure account'

  unfoldable pub account_detail : String → Request → Handler Response
  account_detail account_id request = do
    verified ← read_verified p request
    account ← authorize_account verified
    require (account.id == account_id)
        (unauthorized "Account key does not match the requested account")
    account' ← update_account verified.payload account
    account_response 200 account' (urls_of request)
