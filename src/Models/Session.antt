-- ===== src/Models/Session.antt =====
-- The calls of SQLAlchemy's `AsyncSession` that the handlers make (db.py opens one per request).
use acme_lan.Prelude.{ℕ, suc, String, Option}
use acme_lan.Exec.{Exec, Result, ok, modify, gets}
use acme_lan.Table.{find, put}
use acme_lan.Models.Rows.{
  Account, Order, Authorization, Challenge, Certificate, AcmeProfile, Tables, World,
}

abbrev pub Handler : Type 0 → Type 0
Handler A = Exec World A

unfoldable pub commit : Handler (Unit {0})
unfolding modify
commit = modify (λ w. record w { db = w.tx })

-- The end of a request: closing the session drops what was not committed.
unfoldable pub closed {ℓ} : {A : Type ℓ} → A × World → A × World
closed (r, w) = (r, record w { tx = w.db })

unfoldable pub run : {A : Type 0} → Handler A → World → Result A × World
unfolding closed
run m w = closed (m (record w { tx = w.db }))

unfoldable pub now : Handler ℕ
unfolding gets
now = gets (λ w. w.clock)

-- The number of the next random value; the platform turns it into a text.
unfoldable pub draw : Handler ℕ
draw w = (ok w.draws, record w { draws = suc w.draws })

module _ (f : Tables → Tables) where
  unfoldable pub write : Handler (Unit {0})
  unfolding modify
  write = modify (λ w. record w { tx = f w.tx })

abbrev pub account : String → World → Option Account
account k w = find (λ a. a.id) k w.tx.accounts

abbrev pub order : String → World → Option Order
order k w = find (λ a. a.id) k w.tx.orders

abbrev pub authorization : String → World → Option Authorization
authorization k w = find (λ a. a.id) k w.tx.authorizations

abbrev pub challenge : String → World → Option Challenge
challenge k w = find (λ a. a.id) k w.tx.challenges

abbrev pub certificate : String → World → Option Certificate
certificate k w = find (λ a. a.id) k w.tx.certificates

abbrev pub profile : String → World → Option AcmeProfile
profile k w = find (λ a. a.name) k w.tx.profiles

abbrev pub put_account : Account → Tables → Tables
put_account a t = record t { accounts = put (λ x. x.id) a t.accounts }

abbrev pub put_order : Order → Tables → Tables
put_order o t = record t { orders = put (λ x. x.id) o t.orders }

abbrev pub put_authorization : Authorization → Tables → Tables
put_authorization a t = record t { authorizations = put (λ x. x.id) a t.authorizations }

abbrev pub put_challenge : Challenge → Tables → Tables
put_challenge c t = record t { challenges = put (λ x. x.id) c t.challenges }

abbrev pub put_certificate : Certificate → Tables → Tables
put_certificate c t = record t { certificates = put (λ x. x.id) c t.certificates }
