-- ===== src/Acme/Orders/Derivation.antt =====
-- What the status of an order says of its authorizations (acme/orders.py).
use acme_lan.Prelude.{
  ◌≡◌, ◌≢◌, refl, ◌⊎◌, inl, inr, true, false, ◌&&◌, some, List, [], ◌∷◌, ◌==◌, eq_refl, any, all,
  map, select, All, Any, Bool-cases, if◌then◌else◌,
}
use acme_lan.Exec.{ok, ◌>>=◌}
use acme_lan.Models.Rows.{Order, OrderStatus, AuthzStatus, World}
use acme_lan.Models.Session
use acme_lan.Models.Session.{write}
use acme_lan.Table.{find-put}
use acme_lan.Acme.Orders.Status.{
  is_settled, is_invalid, is_valid, is_nonempty, derived_status, recompute_order_status,
}

-- An authorization that was deactivated, has expired or was revoked.
pub data Withdrawn : AuthzStatus → Type 0 where
  deactivated : Withdrawn AuthzStatus.deactivated
  expired : Withdrawn AuthzStatus.expired
  revoked : Withdrawn AuthzStatus.revoked

-- How the code reads the authorizations of an order: one invalid authorization fails it, and all of
-- at least one make it ready. Otherwise it is pending, also with a withdrawn authorization, where
-- RFC 8555 (section 7.1.6) has the order invalid.
pub data Derives (statuses : List AuthzStatus) : OrderStatus → Type 0 where
  failed : Any (λ s. s ≡ AuthzStatus.invalid) statuses → Derives statuses OrderStatus.invalid
  complete :
      statuses ≢ [] → All (λ s. s ≡ AuthzStatus.valid) statuses → Derives statuses OrderStatus.ready
  bare : statuses ≡ [] → Derives statuses OrderStatus.pending
  waiting :
      ¬ Any (λ s. s ≡ AuthzStatus.invalid) statuses
      → Any (λ s. s ≡ AuthzStatus.pending) statuses
      → Derives statuses OrderStatus.pending
  withdrawn :
      ¬ Any (λ s. s ≡ AuthzStatus.invalid) statuses
      → Any Withdrawn statuses
      → Derives statuses OrderStatus.pending

any_invalid :
    (ss : List AuthzStatus) → any is_invalid ss ≡ true → Any (λ s. s ≡ AuthzStatus.invalid) ss
any_invalid [] e = cc
any_invalid (AuthzStatus.invalid ∷ ss) e = inl refl
any_invalid (s ∷ ss) e = inr (any_invalid ss e)

no_invalid :
    (ss : List AuthzStatus) → any is_invalid ss ≡ false → ¬ Any (λ s. s ≡ AuthzStatus.invalid) ss
no_invalid [] e h = h
no_invalid (s ∷ ss) e (inl h) = cc (rw h at e)
no_invalid (AuthzStatus.invalid ∷ ss) e (inr h) = cc
no_invalid (s ∷ ss) e (inr h) = no_invalid ss e h

all_valid : (ss : List AuthzStatus) → all is_valid ss ≡ true → All (λ s. s ≡ AuthzStatus.valid) ss
all_valid [] e = tt
all_valid (AuthzStatus.valid ∷ ss) e = (refl, all_valid ss e)
all_valid (s ∷ ss) e = cc

-- An authorization that is neither valid nor invalid is pending or withdrawn.
not_all_valid :
    (ss : List AuthzStatus)
    → any is_invalid ss ≡ false
    → all is_valid ss ≡ false
    → Any (λ s. s ≡ AuthzStatus.pending) ss ⊎ Any Withdrawn ss
not_all_valid [] good e = cc
not_all_valid (AuthzStatus.pending ∷ ss) good e = inl (inl refl)
not_all_valid (AuthzStatus.deactivated ∷ ss) good e = inr (inl deactivated)
not_all_valid (AuthzStatus.expired ∷ ss) good e = inr (inl expired)
not_all_valid (AuthzStatus.revoked ∷ ss) good e = inr (inl revoked)
not_all_valid (AuthzStatus.invalid ∷ ss) good e = cc
not_all_valid (AuthzStatus.valid ∷ ss) good e = elim (not_all_valid ss good e) [
  | inl later ↦ inl (inr later)
  | inr later ↦ inr (inr later)
]

derived_status_derives : (ss : List AuthzStatus) → Derives ss (derived_status ss)
unfolding derived_status
derived_status_derives ss = elim (Bool-cases (any is_invalid ss)) [
  | inl bad ↦ rw bad (failed (any_invalid ss bad))
  | inr good ↦ rw good (rest ss good)
]
  where
    rest :
        (ss : List AuthzStatus)
        → any is_invalid ss ≡ false
        → Derives ss
            (if is_nonempty ss && all is_valid ss then OrderStatus.ready else OrderStatus.pending)
    rest [] good = bare refl
    rest (s ∷ ss) good = elim (Bool-cases (all is_valid (s ∷ ss))) [
      | inl e ↦ rw e (complete (λ eq. cc) (all_valid (s ∷ ss) e))
      | inr e ↦ rw e (open_ (not_all_valid (s ∷ ss) good e))
    ]
      where
        open_ :
            Any (λ s. s ≡ AuthzStatus.pending) (s ∷ ss) ⊎ Any Withdrawn (s ∷ ss)
            → Derives (s ∷ ss) OrderStatus.pending
        open_ (inl some_) = waiting (no_invalid (s ∷ ss) good) some_
        open_ (inr some_) = withdrawn (no_invalid (s ∷ ss) good) some_

-- The statuses of the authorizations of an order, as the session sees them.
abbrev pub authz_statuses : Order → World → List AuthzStatus
authz_statuses order w =
    map (λ a. a.status) (select (λ a. a.order_id == order.id) w.tx.authorizations)

-- The status of an order that is not settled becomes the one that `Derives` gives for its
-- authorizations, which is pending also with a deactivated, expired or revoked one; nothing else of
-- the order changes, and it is stored under its id.
pub recompute_derives :
    (order : Order) (w : World)
    → is_settled order.status ≡ false
    → (s : OrderStatus) × Derives (authz_statuses order w) s
      × ((recompute_order_status order w).0 ≡ ok (record order { status = s }))
      × (Session.order order.id (recompute_order_status order w).1
          ≡ some (record order { status = s }))
unfolding recompute_order_status write ◌>>=◌
recompute_derives order w e = (
  derived_status (authz_statuses order w),
  derived_status_derives (authz_statuses order w),
  rw e refl,
  rw e (rw find-put (rw (eq_refl order.id) refl)),
)

-- A settled order is left as it is, and so is the state.
pub recompute_settled :
    (order : Order) (w : World)
    → is_settled order.status ≡ true
    → recompute_order_status order w ≡ (ok order, w)
unfolding recompute_order_status ◌>>=◌
recompute_settled order w e = rw e refl
