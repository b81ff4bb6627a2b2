-- ===== src/Acme/Orders/Create.antt =====
-- acme/orders.py: newOrder, and the polling of an order.
use Prim.Native.Nat.{◌+◌}
use Prim.Native.String.{◌++◌}
use acme_lan.Prelude.{
  ℕ, String, Bool, true, false, Option, none, some, List, [], ◌∷◌, starts_with, if◌then◌else◌,
}
use acme_lan.Prelude.Text.{is_empty}
use acme_lan.Json.{Json, str, arr, obj, Fields, items, get, truthy, is_text}
use acme_lan.Platform.{Platform}
use acme_lan.Exec.{Result, ok, err, pure, lift, gets, or_raise, require, ◌>>=◌, ◌>>◌, ◌>>?◌}
use acme_lan.Models.Rows.{Account, Order, Authorization, OrderStatus, AuthzStatus, ChallengeStatus}
use acme_lan.Models.Session
use acme_lan.Models.Session.{
  Handler, commit, now, draw, write, put_order, put_authorization, put_challenge, put_certificate,
}
use acme_lan.Acme.Errors.{uncaught, malformed, unauthorized, unsupported_identifier}
use acme_lan.Acme.Encoding.{Urls, order_url}
use acme_lan.Acme.Common.{Request, Response, read_verified, acme_json_response}
use acme_lan.Acme.Serializers.{order_to_json}
use acme_lan.Acme.Accounts.{authorize_account, payload_fields, urls_of}
use acme_lan.Acme.Authz.{owned_by}
use acme_lan.Acme.Orders.Status.{recompute_order_status}

-- `ORDER_TTL`, seven days.
abbrev pub order_ttl : ℕ
order_ttl = 604_800_000_000

module _ (p : Platform) where
  -- One identifier of the payload. A value that is not a text gets no further than `startswith`.
  unfoldable pub parse_identifier : Json → Result String
  parse_identifier (obj fields) =
      if is_text "dns" (get "type" fields)
      then (elim (get "value" fields) [
        | str value ↦
            if is_empty value
            then err (unsupported_identifier ("Unsupported identifier " ++ p.repr (obj fields)))
            else ok value
        | other ↦
            if truthy other
            then err uncaught
            else err (unsupported_identifier ("Unsupported identifier " ++ p.repr (obj fields)))
      ])
      else err (unsupported_identifier ("Unsupported identifier " ++ p.repr (obj fields)))
  parse_identifier other = err (unsupported_identifier ("Unsupported identifier " ++ p.repr other))

  unfoldable pub parse_each : List Json → Result (List String)
  parse_each [] = ok []
  parse_each (j ∷ js) =
      parse_identifier j >>? λ value. parse_each js >>? λ values. ok (value ∷ values)

  unfoldable pub parse_identifiers : Json → Result (List String)
  parse_identifiers (arr js) = elim (items js) [
    | [] ↦ err (malformed "Order must contain a non-empty 'identifiers' array")
    | j ∷ rest ↦ parse_each (j ∷ rest)
  ]
  parse_identifiers _ = err (malformed "Order must contain a non-empty 'identifiers' array")

-- `value[2:]`, for a value that starts with "*.".
abbrev drop_two : String → String
drop_two String.[] = ""
drop_two (String.◌∷◌ _ rest) = elim rest [ String.[] ↦ "" | String.◌∷◌ _ base ↦ base ]

-- Wildcards want dns-01; for the others http-01 and tls-alpn-01 are offered.
unfoldable pub challenge_types : Bool → List String
challenge_types true = "dns-01" ∷ []
challenge_types false = "http-01" ∷ "tls-alpn-01" ∷ []

module _ (p : Platform) where
  unfoldable pub add_challenges : String → List String → Handler (Unit {0})
  add_challenges authz_id [] = pure tt
  add_challenges authz_id (kind ∷ kinds) = do
    t ← draw
    n ← draw
    write (
        put_challenge (record {
          id = p.uuid n;
          authz_id = authz_id;
          kind = kind;
          token = p.token_urlsafe t;
          status = ChallengeStatus.pending;
          validated_at = none;
          error = none;
        }))
    add_challenges authz_id kinds

  unfoldable pub new_authz : String → ℕ → String → String → Authorization
  new_authz order_id expires id value = record {
    id = id;
    order_id = order_id;
    identifier_type = "dns";
    identifier_value = if starts_with value "*." then drop_two value else value;
    wildcard = starts_with value "*.";
    status = AuthzStatus.pending;
    expires_at = expires;
  }

  unfoldable pub add_authzs : String → ℕ → List String → Handler (Unit {0})
  add_authzs order_id expires [] = pure tt
  add_authzs order_id expires (value ∷ values) = do
    n ← draw
    write (put_authorization (new_authz order_id expires (p.uuid n) value))
    add_challenges (p.uuid n) (challenge_types (starts_with value "*."))
    add_authzs order_id expires values

  unfoldable pub order_response : ℕ → Order → Urls → Option String → Handler Response
  order_response status order urls location = do
    doc ← gets (λ w. order_to_json p order w urls)
    acme_json_response p status doc location []

  unfoldable pub order_of : Account → Fields → List String → ℕ → ℕ → Order
  order_of account payload names n time = record {
    id = p.uuid n;
    account_id = account.id;
    status = OrderStatus.pending;
    identifiers = names;
    not_before = get "notBefore" payload;
    not_after = get "notAfter" payload;
    error = none;
    certificate_id = none;
    expires_at = time + order_ttl;
    created_at = time;
  }

  -- The rows of a new order.
  unfoldable pub insert_order : Account → Fields → List String → Handler Order
  insert_order account payload names = do
    n ← draw
    time ← now
    let order = order_of account payload names n time
    write (put_order order)
    add_authzs order.id order.expires_at names
    commit
    pure order

  unfoldable pub new_order : Request → Handler Response
  new_order request = do
    verified ← read_verified p request
    account ← authorize_account verified
    payload ← lift (payload_fields verified.payload)
    names ← lift (parse_identifiers p (get "identifiers" payload))
    order ← insert_order account payload names
    let urls = urls_of p request
    order_response 201 order urls (some (order_url urls order.id))

  -- The order under an id, if the account owns it; an unknown one gives the same error.
  unfoldable pub owned_order : String → Account → Handler Order
  owned_order order_id account = do
    found ← gets (Session.order order_id)
    require (owned_by account.id found) (unauthorized "Unknown order")
    or_raise found (unauthorized "Unknown order")

  unfoldable pub order_detail : String → Request → Handler Response
  order_detail order_id request = do
    verified ← read_verified p request
    account ← authorize_account verified
    found ← owned_order order_id account
    order ← recompute_order_status found
    commit
    let urls = urls_of p request
    order_response 200 order urls (some (order_url urls order.id))
