-- ===== src/Acme/Orders/Authority.antt =====
-- Who can finalize an order, and when (acme/orders.py).
use mathlib.Core.Path.{subst}
use acme_lan.Prelude.{
  String, ◌≡◌, ◌≢◌, refl, ap, sym, ◌∙◌, true, some, inl, inr, List, [], ◌==◌, eq_iff, All,
  Bool-cases, Option-cases, same_set,
}
use acme_lan.Platform.{Platform, Csr}
use acme_lan.Exec.{Result, ok, raise, require, or_raise, ◌>>=◌}
use acme_lan.Exec.Returns.{bind_returned, lift_returned, or_raise_returned}
use acme_lan.Models.Rows.{Account, Order, OrderStatus, AuthzStatus, World}
use acme_lan.Models.Session
use acme_lan.Models.Session.{commit}
use acme_lan.Acme.Jws.{VerifiedRequest}
use acme_lan.Acme.Common.{Request, Response, read_verified}
use acme_lan.Acme.Accounts.{authorize_account}
use acme_lan.Acme.Authz.{owned_by}
use acme_lan.Acme.Orders.Status.{is_settled, recompute_order_status}
use acme_lan.Acme.Orders.Derivation.{
  Derives, failed, complete, bare, waiting, withdrawn, authz_statuses, recompute_derives,
  recompute_settled,
}
use acme_lan.Acme.Orders.Create.{owned_order}
use acme_lan.Acme.Orders.Finalize.{
  is_ready, csr_dns_names, parse_csr, not_ready, require_ready, finalize_order,
}
use acme_lan.Acme.Orders.Issuance.{Requested, parse_csr_sound}

module _ (p : Platform) where
  pub owned_order_sound :
      (id : String) (account : Account) (w : World) {o : Order}
      → (owned_order p id account w).0 ≡ ok o
      → (Session.order id w ≡ some o)
        × (o.account_id ≡ account.id)
        × ((owned_order p id account w).1 ≡ w)
  unfolding owned_order owned_by ◌>>=◌
  owned_order_sound id account w {o} e = elim (Option-cases (Session.order id w)) [
    | inl missing ↦ cc (rw (missing, owned_by, require) at e)
    | inr (x, found) ↦ elim (Bool-cases (x.account_id == account.id)) [
      | inl mine ↦
          let same : x ≡ o = cc (rw (found, owned_by, mine, require, or_raise) at e) in
          (
            found ∙ ap some same,
            ap (λ (y : Order). y.account_id) (sym same) ∙ (eq_iff x.account_id account.id).0 mine,
            rw (found, owned_by, mine, require, or_raise) refl,
          )
      | inr other ↦ cc (rw (found, owned_by, other, require) at e)
    ]
  ]

  settled_not_ready : (s : OrderStatus) → is_settled s ≡ true → is_ready s ≡ true → ⊥
  settled_not_ready OrderStatus.ready h e = cc
  settled_not_ready _ h e = cc

  derives_ready :
      (ss : List AuthzStatus) {s : OrderStatus}
      → Derives ss s
      → is_ready s ≡ true
      → (ss ≢ []) × All (λ s. s ≡ AuthzStatus.valid) ss
  derives_ready ss (failed _) e = cc
  derives_ready ss (complete some_ all_) e = (some_, all_)
  derives_ready ss (bare _) e = cc
  derives_ready ss (waiting _ _) e = cc
  derives_ready ss (withdrawn _ _) e = cc

  ready_order :
      (order : Order) (w : World) {o : Order}
      → (recompute_order_status order w).0 ≡ ok o
      → is_ready o.status ≡ true
      → (authz_statuses order w ≢ [])
        × All (λ s. s ≡ AuthzStatus.valid) (authz_statuses order w)
        × (o.identifiers ≡ order.identifiers)
  ready_order order w {o} e ready = elim (Bool-cases (is_settled order.status)) [
    | inl settled ↦
        let same =
          same_order e
            (ap (λ (x : Result Order × World). x.0) (recompute_settled order w settled)) in
        absurd (settled_not_ready order.status settled (rw same at ready))
    | inr open_ ↦
        let (s, d, r, _) = recompute_derives order w open_ in
        let same = same_order e r in
        let (some_, all_) = derives_ready (authz_statuses order w) d (rw same at ready) in
        (some_, all_, ap (λ (x : Order). x.identifiers) same)
  ]
    where
      same_order : {r : Result Order} {a b : Order} → r ≡ ok a → r ≡ ok b → a ≡ b
      same_order e f = cc

  require_ready_sound :
      (o : Order) (w : World) {u : Unit {0}}
      → (require_ready p o w).0 ≡ ok u
      → is_ready o.status ≡ true
  unfolding require_ready not_ready raise commit ◌>>=◌
  require_ready_sound o w e = elim (Bool-cases (is_ready o.status)) [
    | inl ready ↦ ready
    | inr other ↦ cc (rw other at e)
  ]

  same_names :
      (csr : Csr) {a b : List String}
      → a ≡ b
      → same_set (csr_dns_names csr) a ≡ true
      → same_set (csr_dns_names csr) b ≡ true
  same_names csr e h = subst (λ (x : List String). same_set (csr_dns_names csr) x ≡ true) e h

  -- What a finalize that answers has checked, in the state after the request was verified.
  pub record IsEntitled (id : String) (v : VerifiedRequest) (w : World) : Type 0 where
    pub account : Account
    pub order : Order
    pub csr : Csr
    pub requested : Requested p v.payload csr
    pub signer : v.account ≡ some account
    pub found : Session.order id w ≡ some order
    pub owner : order.account_id ≡ account.id
    pub has_authz : authz_statuses order w ≢ []
    pub all_valid : All (λ s. s ≡ AuthzStatus.valid) (authz_statuses order w)
    pub names : same_set (csr_dns_names csr) order.identifiers ≡ true

  -- A finalize that answers with an order was signed by the account that owns the order; each of
  -- the order's authorizations, of which there is one at least, was valid; and the CSR that the body
  -- of the request decodes to was for exactly the names of the order.
  pub finalize_sound :
      (id : String) (q : Request) (w : World) (resp : Response)
      → (finalize_order p id q w).0 ≡ ok resp
      → (v : VerifiedRequest) × ((read_verified p q w).0 ≡ ok v)
        × IsEntitled id v (read_verified p q w).1
  unfolding finalize_order authorize_account
  finalize_sound id q w resp e =
      let (v, e1, r1) = bind_returned (read_verified p q) _ w e in
      let w1 = (read_verified p q w).1 in
      let (account, e2, r2) = or_raise_returned v.account _ _ w1 (rw r1 at e) in
      let (found, e3, r3) = bind_returned (owned_order p id account) _ w1 (rw r2 at (rw r1 at e)) in
      let (stored, mine, same) = owned_order_sound id account w1 e3 in
      let w2 = (owned_order p id account w1).1 in
      let (order, e4, r4) =
        bind_returned (recompute_order_status found) _ w2 (rw r3 at (rw r2 at (rw r1 at e))) in
      let w3 = (recompute_order_status found w2).1 in
      let (u, e5, r5) =
        bind_returned (require_ready p order) _ w3 (rw r4 at (rw r3 at (rw r2 at (rw r1 at e)))) in
      let w4 = (require_ready p order w3).1 in
      let (csr, e6, r6) =
        lift_returned (parse_csr p v.payload order.identifiers) _ w4
          (rw r5 at (rw r4 at (rw r3 at (rw r2 at (rw r1 at e))))) in
      let (requested, fit) = parse_csr_sound p v.payload order.identifiers e6 in
      let (some_, all_, names) = ready_order found w2 e4 (require_ready_sound order w3 e5) in
      (
        v,
        e1,
        record {
          account = account;
          order = found;
          csr = csr;
          requested = requested;
          signer = e2;
          found = stored;
          owner = mine;
          has_authz = rw same at some_;
          all_valid = rw same at all_;
          names = same_names csr names fit;
        },
      )
