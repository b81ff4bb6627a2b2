-- ===== src/Acme/Orders/Finalize.antt =====
-- `finalize_order` of acme/orders.py: from a ready order and a CSR to a certificate.
use Prim.Native.String.{◌++◌}
use acme_lan.Prelude.{
  ℕ, String, Bool, true, false, Option, none, some, ◌⊎◌, inl, inr, List, [], same_set,
  if◌then◌else◌,
}
use acme_lan.Json.{Json, str, obj, end, field, get, truthy}
use acme_lan.Platform.{Platform, Csr, Leaf, ProfileUpstream}
use acme_lan.Exec.{Result, ok, err, pure, raise, lift, or_raise, ◌>>=◌, ◌>>◌, ◌>>?◌}
use acme_lan.Models.Rows.{Order, Certificate, OrderStatus, order_status_text}
use acme_lan.Models.Session.{Handler, commit, now, draw, write, put_order, put_certificate}
use acme_lan.Acme.Errors.{uncaught, malformed, order_not_ready, bad_csr, server_internal}
use acme_lan.Acme.Encoding.{order_url, profile_from_request, b64url_decode}
use acme_lan.Acme.Common.{Request, Response, read_verified}
use acme_lan.Acme.Profiles.{resolve_profile_upstream}
use acme_lan.Acme.Accounts.{authorize_account, payload_fields, urls_of}
use acme_lan.Acme.Orders.Status.{recompute_order_status}
use acme_lan.Acme.Orders.Create.{owned_order, order_response}

abbrev pub is_ready : OrderStatus → Bool
is_ready OrderStatus.ready = true
is_ready _ = false

-- `_csr_dns_names`.
abbrev pub csr_dns_names : Csr → List String
csr_dns_names csr = names csr.dns_names
  where
    names : Option (List String) → List String
    names none = []
    names (some found) = found

module _ (p : Platform) where
  -- Any failure to decode or to parse is a badCSR.
  unfoldable pub decode_csr : Json → Result Csr
  decode_csr (str csr_b64) = elim (b64url_decode p csr_b64) [
    | none ↦ err (bad_csr "Could not parse CSR")
    | some der ↦ elim (p.load_csr der) [
      | none ↦ err (bad_csr "Could not parse CSR")
      | some csr ↦ ok csr
    ]
  ]
  decode_csr _ = err (bad_csr "Could not parse CSR")

  -- The DNS names of a CSR must be those of the order, as sets.
  unfoldable pub match_names : List String → Csr → Result Csr
  match_names names csr =
      if same_set (csr_dns_names csr) names
      then ok csr
      else err (
          bad_csr (
            "CSR SANs "
            ++ (p.repr_names (csr_dns_names csr)
                ++ (" do not match order identifiers " ++ p.repr_names names))))

  unfoldable pub require_csr : Json → Result (Unit {0})
  require_csr value =
      if truthy value
      then ok tt
      else err (malformed "finalize request must contain a base64url DER 'csr'")

  -- The CSR of the request, for exactly the names of the order.
  unfoldable pub parse_csr : Option Json → List String → Result Csr
  parse_csr body names = payload_fields body >>? λ payload. require_csr (get "csr" payload) >>? λ _.
      decode_csr (get "csr" payload) >>? λ csr. match_names names csr

  unfoldable pub issuance_failed : Order → String → Order
  issuance_failed order detail = record order {
    status = OrderStatus.invalid;
    error = some (
        obj (
          field "type" (str "urn:ietf:params:acme:error:serverInternal")
            (field "detail" (str ("Upstream issuance failed: " ++ detail)) end)));
  }

  unfoldable pub certificate_of : Order → String → Leaf → String → ℕ → Certificate
  certificate_of order chain leaf id time = record {
    id = id;
    order_id = some order.id;
    host_id = none;
    pem_chain = chain;
    serial = some leaf.serial;
    subject = some leaf.subject;
    domains = [];
    not_after = some leaf.not_after;
    issued_at = time;
    key_storage = "none";
    key_reference = none;
    retired = false;
    retired_at = none;
    retired_reason = none;
    expiry_warned_at = none;
  }

  -- The answer of the upstream: an error's text, or a certificate chain.
  unfoldable pub record_issuance : Order → String ⊎ String → Handler Order
  record_issuance order (inl detail) = do
    write (put_order (issuance_failed order detail))
    commit
    raise (server_internal ("Upstream issuance failed: " ++ detail))
  record_issuance order (inr chain) = do
    leaf ← or_raise (p.load_leaf_pem chain) uncaught
    n ← draw
    time ← now
    write (put_certificate (certificate_of order chain leaf (p.uuid n) time))
    let order' : Order = record order {
      certificate_id = some (p.uuid n);
      status = OrderStatus.valid;
    }
    write (put_order order')
    commit
    pure order'

  -- The proxy step: the order is processing, and committed so, while the upstream works.
  unfoldable pub issue : Order → Csr → ProfileUpstream → Handler Order
  issue order csr upstream = do
    let processing : Order = record order { status = OrderStatus.processing }
    write (put_order processing)
    commit
    n ← draw
    record_issuance processing (p.fulfil_order n csr.pem upstream)

  unfoldable pub not_ready : Order → Handler (Unit {0})
  not_ready order = do
    commit
    raise (
        order_not_ready (
          "Order status is "
          ++ (p.repr (str (order_status_text order.status)) ++ ", expected 'ready'")))

  unfoldable pub require_ready : Order → Handler (Unit {0})
  require_ready order = if is_ready order.status then pure tt else not_ready order

  unfoldable pub finalize_order : String → Request → Handler Response
  finalize_order order_id request = do
    verified ← read_verified p request
    account ← authorize_account verified
    found ← owned_order p order_id account
    order ← recompute_order_status found
    require_ready order
    csr ← lift (parse_csr verified.payload order.identifiers)
    upstream ← resolve_profile_upstream p (profile_from_request request.profile)
    issued ← issue order csr upstream
    let urls = urls_of p request
    order_response p 200 issued urls (some (order_url urls issued.id))
