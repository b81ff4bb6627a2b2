-- ===== src/Maintenance/Purge.antt =====
-- Which orders a purge removes (maintenance.py).
use Prim.Native.Nat.{◌+◌, ◌≤◌}
use acme_lan.Prelude.{
  ℕ, ◌≡◌, refl, ◌∙◌, ap, Bool, true, false, not, ◌⊎◌, List, [], ◌∷◌, inl, inr, arith, eqb, length,
  select, All, Any, Bool-cases,
}
use acme_lan.Exec.{ok, ◌>>=◌}
use acme_lan.Models.Rows.{Order, OrderStatus, World}
use acme_lan.Models.Session.{commit, now, write}
use acme_lan.Maintenance.{is_kept, is_stale, purge_expired_orders}

module _ {A : Type 0} (test : A → Bool) where
  -- A row that is there and passes is selected.
  Any-select :
      {x : A} (xs : List A)
      → Any (λ y. y ≡ x) xs
      → test x ≡ true
      → Any (λ y. y ≡ x) (select test xs)
  Any-select [] h e = h
  Any-select {x} (y ∷ xs) (inl here) e = rw (ap test here ∙ e) (inl here)
  Any-select (y ∷ xs) (inr later) e = elim (Bool-cases (test y)) [
    | inl t ↦ rw t (inr (Any-select xs later e))
    | inr f ↦ rw f (Any-select xs later e)
  ]

  length-select :
      (xs : List A) → length (select test xs) + length (select (λ x. not (test x)) xs) ≡ length xs
  length-select [] = refl
  length-select (x ∷ xs) = ground (arith, length-select xs)

-- The orders that a purge must not remove: those that are valid or processing, and those that have
-- not expired.
pub data Wanted (time : ℕ) (o : Order) : Type 0 where
  issued : o.status ≡ OrderStatus.valid → Wanted time o
  issuing : o.status ≡ OrderStatus.processing → Wanted time o
  current : time ≤ o.expires_at → Wanted time o

is_stale-Wanted : (time : ℕ) (o : Order) → Wanted time o → not (is_stale time o) ≡ true
unfolding is_stale
is_stale-Wanted time o (issued e) = rw e refl
is_stale-Wanted time o (issuing e) = rw e refl
is_stale-Wanted time o (current e) = elim (Bool-cases (is_kept o.status)) [
  | inl k ↦ rw k refl
  | inr n ↦ rw n (ground (arith, e))
]

is_stale_kept : (time : ℕ) (o : Order) → not (is_stale time o) ≡ true → Wanted time o
unfolding is_stale
is_stale_kept time o e = by_status o.status refl
  where
    late : is_kept o.status ≡ false → Wanted time o
    late n = let early = rw n at e in current (ground (arith, early))

    by_status : (s : OrderStatus) → o.status ≡ s → Wanted time o
    by_status OrderStatus.valid s = issued s
    by_status OrderStatus.processing s = issuing s
    by_status OrderStatus.pending s = late (ap is_kept s)
    by_status OrderStatus.ready s = late (ap is_kept s)
    by_status OrderStatus.invalid s = late (ap is_kept s)

select-Wanted :
    (time : ℕ) (orders : List Order) (o : Order)
    → Wanted time o
    → Any (λ x. x ≡ o) orders
    → Any (λ x. x ≡ o) (select (λ x. not (is_stale time x)) orders)
select-Wanted time orders o wanted stored =
    Any-select (λ x. not (is_stale time x)) orders stored (is_stale-Wanted time o wanted)

All-Wanted :
    (time : ℕ) (orders : List Order)
    → All (Wanted time) (select (λ x. not (is_stale time x)) orders)
All-Wanted time [] = tt
All-Wanted time (o ∷ orders) = elim (Bool-cases (not (is_stale time o))) [
  | inl y ↦ rw y (is_stale_kept time o y, All-Wanted time orders)
  | inr n ↦ rw n (All-Wanted time orders)
]

-- A purge of orders keeps exactly the orders that are valid, processing or not expired: each of them
-- stays, and no other is left. It returns the number of rows that it removed, and commits if it
-- removed any.
pub purge_expired_orders_lem :
    (w : World)
    → (n : ℕ) × ((purge_expired_orders w).0 ≡ ok n)
      × (n + length (purge_expired_orders w).1.tx.orders ≡ length w.tx.orders)
      × ((o : Order)
          → Wanted w.clock o
          → Any (λ x. x ≡ o) w.tx.orders
          → Any (λ x. x ≡ o) (purge_expired_orders w).1.tx.orders)
      × All (Wanted w.clock) (purge_expired_orders w).1.tx.orders
      × ((n ≡ 0) ⊎ ((purge_expired_orders w).1.db ≡ (purge_expired_orders w).1.tx))
unfolding purge_expired_orders now write commit ◌>>=◌
purge_expired_orders_lem w =
    let total = length-select (is_stale w.clock) w.tx.orders in
    let stay = select-Wanted w.clock w.tx.orders in
    let left = All-Wanted w.clock w.tx.orders in
    elim (Bool-cases (eqb (length (select (is_stale w.clock) w.tx.orders)) 0)) [
      | inl z ↦ rw z (0, refl, ground (arith, total, z), stay, left, inl refl)
      | inr n ↦ rw n (_, refl, total, stay, left, inr refl)
    ]
