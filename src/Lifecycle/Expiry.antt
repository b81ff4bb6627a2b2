-- ===== src/Lifecycle/Expiry.antt =====
-- What the days until expiry say of the time that is left (certlifecycle.py).
use Prim.Native.Nat.{suc, ◌+◌, ◌*◌}
use acme_lan.Prelude.{ℕ, ◌≡◌, refl, not, ◌&&◌, some, ltb, arith}
use acme_lan.Models.Rows.{Certificate}
use acme_lan.Lifecycle.{day, days_between, is_negative, at_most, expiry_info}

is_negative-days_between : (a b : ℕ) → is_negative (days_between a b) ≡ ltb a b
unfolding is_negative days_between
is_negative-days_between a b = ground arith

pub at_most-days_between : (a b n : ℕ) → at_most (days_between a b) n ≡ ltb a (b + suc n * day)
unfolding at_most days_between
at_most-days_between a b n = ground arith

-- A certificate with an end date is reported as expired exactly when that date is past, and as
-- expiring soon exactly when it is not retired and ends less than one day after the days of the
-- warning.
pub expiry_info_lem :
    (cert : Certificate) (warn_days time not_after : ℕ)
    → cert.not_after ≡ some not_after
    → ((expiry_info cert warn_days time).expired ≡ some (ltb not_after time))
      × ((expiry_info cert warn_days time).expiring_soon
          ≡ not cert.retired && ltb not_after (time + suc warn_days * day))
unfolding expiry_info
expiry_info_lem cert warn_days time not_after e =
    rw (e, is_negative-days_between, at_most-days_between) (refl, refl)
