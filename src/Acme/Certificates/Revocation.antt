-- ===== src/Acme/Certificates/Revocation.antt =====
-- Who can revoke a certificate (acme/certificates.py).
use acme_lan.Prelude.{
  String, ◌≡◌, refl, ap, inl, inr, Bool, true, false, ◌&&◌, Option, none, some, List, [], ◌∷◌, ◌==◌,
  eq_iff, Any, Bool-cases, Option-cases, ◌∙◌,
}
use mathlib.Core.Path.{subst}
use mathlib.Core.Bool.{and-eq-true_iff}
use acme_lan.Platform.{Platform, Bytes, Leaf}
use acme_lan.Exec.{ok, lift}
use acme_lan.Exec.Returns.{or_raise_returned, gets-bind}
use acme_lan.Models.Rows.{Account, Order, Certificate, World}
use acme_lan.Validators.{same_bytes}
use acme_lan.Acme.Jws.{VerifiedRequest}
use acme_lan.Acme.Authz.{owned_by}
use acme_lan.Acme.Certificates.{
  issued_for, allowed, is_same_leaf, has_serial, stored_record, authorize_revocation,
}

-- The right to revoke: the certificate's own key without an account, or the account that owns the
-- order for which the stored certificate was issued.
pub data MayRevoke (account : Option Account) (same_key : Bool) (order : Option Order)
    : Type 0 where
  own_key : account ≡ none → same_key ≡ true → MayRevoke account same_key order
  own_order :
      (a : Account) (o : Order)
      → account ≡ some a
      → order ≡ some o
      → o.account_id ≡ a.id
      → MayRevoke account same_key order

allowed_sound :
    (account : Option Account) (same_key : Bool) (order : Option Order) {u : Unit {0}}
    → allowed account same_key order ≡ ok u
    → MayRevoke account same_key order
unfolding allowed owned_by
allowed_sound none true order e = own_key refl refl
allowed_sound none false order e = cc
allowed_sound (some a) same_key none e = cc
allowed_sound (some a) same_key (some o) e = elim (Bool-cases (o.account_id == a.id)) [
  | inl mine ↦ own_order a o refl refl ((eq_iff o.account_id a.id).0 mine)
  | inr other ↦ cc (rw other at e)
]

module _ (p : Platform) where
  has_serial_sound :
      (serial : String) (c : Certificate) → has_serial p serial c ≡ true → c.serial ≡ some serial
  unfolding has_serial
  has_serial_sound serial c e = elim (Option-cases c.serial) [
    | inl missing ↦ cc (rw missing at e)
    | inr (s, found) ↦ found ∙ ap some ((eq_iff s serial).0 (rw found at e))
  ]

  stored_record_sound :
      (serial : String) (der : Bytes) (rows : List Certificate) {c : Certificate}
      → stored_record p serial der rows ≡ some c
      → Any (λ x. x ≡ c) rows × (c.serial ≡ some serial) × (is_same_leaf p der c ≡ true)
  unfolding stored_record
  stored_record_sound serial der [] e = cc
  stored_record_sound serial der (x ∷ rows) {c} e =
      elim (Bool-cases (has_serial p serial x && is_same_leaf p der x)) [
        | inl y ↦
            let same : x ≡ c = cc (rw y at e) in
            let (s, l) = (and-eq-true_iff _ _).0 y in
            (
              inl same,
              has_serial_sound serial c (subst (λ k. has_serial p serial k ≡ true) same s),
              subst (λ k. is_same_leaf p der k ≡ true) same l,
            )
        | inr n ↦
            let (known, k, l) = stored_record_sound serial der rows (rw n at e) in (inr known, k, l)
      ]

  -- A revocation is authorised only of a certificate that is stored, with this serial and these
  -- bytes, and only when signed by its own key or by the account that owns its order.
  pub authorize_revocation_sound :
      (cert : Leaf) (der : Bytes) (v : VerifiedRequest) (w : World) {u : Unit {0}}
      → (authorize_revocation p cert der v w).0 ≡ ok u
      → (c : Certificate) × Any (λ x. x ≡ c) w.tx.certificates
        × (c.serial ≡ some cert.serial)
        × (is_same_leaf p der c ≡ true)
        × MayRevoke v.account (same_bytes (p.jwk_spki v.jwk) cert.spki) (issued_for c w.tx.orders)
  unfolding authorize_revocation lift
  authorize_revocation_sound cert der v w e =
      let e0 = rw gets-bind at e in
      let (c, e1, r1) =
        or_raise_returned (stored_record p cert.serial der w.tx.certificates) _ _ w e0 in
      let (known, serial, same) = stored_record_sound cert.serial der w.tx.certificates e1 in
      (c, known, serial, same, allowed_sound v.account _ _ (rw gets-bind at (rw r1 at e0)))
