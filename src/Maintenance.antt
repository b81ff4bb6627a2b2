-- ===== src/Maintenance.antt =====
-- maintenance.py: purging of stale nonces and of expired orders.
pub mod Purge
use acme_lan.Prelude.{
  ℕ, Bool, true, false, not, ◌&&◌, ◌-◌, ◌*◌, Option, none, some, List, [], ◌∷◌, eqb, ltb, length,
  select, if◌then◌else◌,
}
use acme_lan.Exec.{pure, gets, modify, ◌>>=◌, ◌>>◌}
use acme_lan.Models.Rows.{Nonce, Order, OrderStatus, Tables}
use acme_lan.Models.Session.{Handler, commit, now, write}

-- Deletes the nonces from before the cutoff, and commits. The number of rows that went.
unfoldable pub purge_expired_nonces : ℕ → Handler ℕ
purge_expired_nonces max_age_seconds = do
  time ← now
  before ← gets (λ w. w.nonces)
  let cutoff = time - max_age_seconds * 1000000
  let kept = select (λ n. not (ltb n.created_at cutoff)) before
  modify (λ w. record w { nonces = kept })
  commit
  pure (length before - length kept)

-- `order.status in (VALID, PROCESSING)`.
abbrev pub is_kept : OrderStatus → Bool
is_kept OrderStatus.valid = true
is_kept OrderStatus.processing = true
is_kept _ = false

unfoldable pub is_stale : ℕ → Order → Bool
is_stale time order = if is_kept order.status then false else ltb order.expires_at time

abbrev keep_orders : (Order → Bool) → Tables → Tables
keep_orders test t = record t { orders = select test t.orders }

-- Only a purge that removes an order commits.
unfoldable pub purge_expired_orders : Handler ℕ
purge_expired_orders = do
  time ← now
  orders ← gets (λ w. w.tx.orders)
  let removed = length (select (is_stale time) orders)
  write (keep_orders (λ o. not (is_stale time o)))
  if eqb removed 0 then pure 0 else (do commit; pure removed)
