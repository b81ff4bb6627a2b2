-- ===== src/Acme/Orders/Issuance.antt =====
-- The upstream step of finalize (acme/orders.py), when it succeeds and when it fails.

use Prim.Native.String.{◌++◌}
use acme_lan.Prelude.{
  suc, String, ◌≡◌, refl, ◌∙◌, ap, true, Option, some, inl, inr, List, eq_refl, same_set,
  Bool-cases, Option-cases,
}
use acme_lan.Json.{Json, Fields, str, obj, end, field, get}
use acme_lan.Platform.{Platform, Bytes, Csr, Leaf, ProfileUpstream}
use acme_lan.Exec.{ok, err, pure, raise, or_raise, ◌>>=◌}
use acme_lan.Exec.Returns.{chain_returned}
use acme_lan.Models.Rows.{Order, Certificate, OrderStatus, World}
use acme_lan.Models.Session.{commit, now, draw, write}
use acme_lan.Table.{find, find-put}
use acme_lan.Acme.Accounts.{payload_fields}
use acme_lan.Acme.Errors.{server_internal}
use acme_lan.Acme.Encoding.{b64url_decode}
use acme_lan.Acme.Orders.Finalize.{
  csr_dns_names, decode_csr, match_names, require_csr, parse_csr, certificate_of, issuance_failed,
  record_issuance, issue,
}

module _ (p : Platform) where
  match_names_same :
      (names : List String) (found : Csr) {csr : Csr}
      → match_names p names found ≡ ok csr
      → (found ≡ csr) × (same_set (csr_dns_names csr) names ≡ true)
  unfolding match_names
  match_names_same names found {csr} e = elim (Bool-cases (same_set (csr_dns_names found) names)) [
    | inl same ↦ let eq : found ≡ csr = cc (rw same at e) in (eq, rw eq at same)
    | inr other ↦ cc (rw other at e)
  ]

  -- The CSR in the body of a finalize request: its `csr` is a text that decodes to bytes that parse.
  pub record Requested (body : Option Json) (csr : Csr) : Type 0 where
    pub fields : Fields
    pub text : String
    pub der : Bytes
    pub sent : payload_fields body ≡ ok fields
    pub member : get "csr" fields ≡ str text
    pub decoded : b64url_decode p text ≡ some der
    pub loaded : p.load_csr der ≡ some csr

  decode_csr_sound :
      (value : Json) {csr : Csr}
      → decode_csr p value ≡ ok csr
      → (text : String) × (der : Bytes) × (value ≡ str text)
        × (b64url_decode p text ≡ some der)
        × (p.load_csr der ≡ some csr)
  unfolding decode_csr
  decode_csr_sound (str text) {csr} e = elim (Option-cases (b64url_decode p text)) [
    | inl missing ↦ cc (rw (decode_csr, missing) at e)
    | inr (der, decoded) ↦ elim (Option-cases (p.load_csr der)) [
      | inl unread ↦ cc (rw unread at (rw (decode_csr, decoded) at e))
      | inr (found, loaded) ↦
          let same : found ≡ csr = cc (rw loaded at (rw (decode_csr, decoded) at e)) in
          (text, der, refl, decoded, loaded ∙ ap some same)
    ]
  ]
  decode_csr_sound _ e = cc

  -- The CSR that a finalize request is accepted with.
  pub parse_csr_sound :
      (body : Option Json) (names : List String) {csr : Csr}
      → parse_csr p body names ≡ ok csr
      → Requested body csr × (same_set (csr_dns_names csr) names ≡ true)
  unfolding parse_csr
  parse_csr_sound body names {csr} e =
      let (payload, sent, r1) = chain_returned (payload_fields body) _ e in
      let (u, _, r2) = chain_returned (require_csr p (get "csr" payload)) _ r1 in
      let (found, read, r3) = chain_returned (decode_csr p (get "csr" payload)) _ r2 in
      let (same, fit) = match_names_same names found r3 in
      let (text, der, member, decoded, loaded) =
        decode_csr_sound (get "csr" payload) (read ∙ ap ok same) in
      (
        record {
          fields = payload;
          text = text;
          der = der;
          sent = sent;
          member = member;
          decoded = decoded;
          loaded = loaded;
        },
        fit,
      )

  abbrev pub committed : String → World → Option Order
  committed id w = find (λ x. x.id) id w.db.orders

  -- After an upstream that failed, the order is invalid, its error is a serverInternal problem with
  -- the upstream's text, nothing else of it changed, and this is committed. The answer is an error
  -- with the same text.
  pub issue_failed :
      (order : Order) (csr : Csr) (upstream : ProfileUpstream) (w : World) (detail : String)
      → p.fulfil_order w.draws csr.pem upstream ≡ inl detail
      → ((issue p order csr upstream w).0
          ≡ err (server_internal ("Upstream issuance failed: " ++ detail)))
        × (committed order.id (issue p order csr upstream w).1
            ≡ some (record order {
              status = OrderStatus.invalid;
              error = some (
                  obj (
                    field "type"
                      (str "urn:ietf:params:acme:error:serverInternal")
                      (field "detail" (str ("Upstream issuance failed: " ++ detail)) end)));
            }))
  unfolding issue record_issuance issuance_failed draw write commit raise ◌>>=◌
  issue_failed order csr upstream w detail e = (
    rw (e, record_issuance) refl,
    rw (e, record_issuance) (rw find-put (rw (eq_refl order.id) refl)),
  )

  -- After an upstream that answered with a chain whose first certificate parses, the order is
  -- valid and names a certificate; both are committed, the certificate with the upstream's chain.
  pub issue_succeeded :
      (order : Order) (csr : Csr) (upstream : ProfileUpstream) (w : World) (chain : String)
      (leaf : Leaf)
      → p.fulfil_order w.draws csr.pem upstream ≡ inr chain
      → p.load_leaf_pem chain ≡ some leaf
      → (cert : Certificate) × (cert.pem_chain ≡ chain)
        × (cert.order_id ≡ some order.id)
        × (cert.serial ≡ some leaf.serial)
        × (find (λ x. x.id) cert.id (issue p order csr upstream w).1.db.certificates ≡ some cert)
        × (committed order.id (issue p order csr upstream w).1
            ≡ some (record order { certificate_id = some cert.id; status = OrderStatus.valid }))
        × ((issue p order csr upstream w).0
            ≡ ok (record order { certificate_id = some cert.id; status = OrderStatus.valid }))
  unfolding issue record_issuance certificate_of draw now write commit pure or_raise ◌>>=◌
  issue_succeeded order csr upstream w chain leaf e l =
      let id = p.uuid (suc w.draws) in
      (
        certificate_of p (record order { status = OrderStatus.processing }) chain leaf id w.clock,
        refl,
        refl,
        refl,
        rw (e, record_issuance, l) (rw find-put (rw (eq_refl id) refl)),
        rw (e, record_issuance, l) (rw find-put (rw (eq_refl order.id) refl)),
        rw (e, record_issuance, l) refl,
      )
