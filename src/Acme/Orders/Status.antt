-- ===== src/Acme/Orders/Status.antt =====
-- `recompute_order_status` of acme/orders.py.
use acme_lan.Prelude.{
  Bool, true, false, ◌&&◌, List, [], ◌∷◌, ◌==◌, any, all, map, select, if◌then◌else◌,
}
use acme_lan.Exec.{pure, gets, ◌>>=◌, ◌>>◌}
use acme_lan.Models.Rows.{Order, OrderStatus, AuthzStatus}
use acme_lan.Models.Session.{Handler, write, put_order}

-- `order.status in (VALID, INVALID, PROCESSING)`.
abbrev pub is_settled : OrderStatus → Bool
is_settled OrderStatus.valid = true
is_settled OrderStatus.invalid = true
is_settled OrderStatus.processing = true
is_settled _ = false

abbrev pub is_invalid : AuthzStatus → Bool
is_invalid AuthzStatus.invalid = true
is_invalid _ = false

abbrev pub is_valid : AuthzStatus → Bool
is_valid AuthzStatus.valid = true
is_valid _ = false

abbrev pub is_nonempty {ℓ} : {A : Type ℓ} → List A → Bool
is_nonempty [] = false
is_nonempty (_ ∷ _) = true

-- The status that the authorizations give.
unfoldable pub derived_status : List AuthzStatus → OrderStatus
derived_status statuses =
    if any is_invalid statuses
    then OrderStatus.invalid
    else if is_nonempty statuses && all is_valid statuses
    then OrderStatus.ready
    else OrderStatus.pending

unfoldable pub recompute_order_status : Order → Handler Order
recompute_order_status order = if is_settled order.status then pure order else do
  authzs ← gets (λ w. select (λ a. a.order_id == order.id) w.tx.authorizations)
  let order' : Order = record order { status = derived_status (map (λ a. a.status) authzs) }
  write (put_order order')
  pure order'
