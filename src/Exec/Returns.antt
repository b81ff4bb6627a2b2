-- ===== src/Exec/Returns.antt =====
-- Inversion: what a handler that returned has done, step by step.
use acme_lan.Prelude.{◌≡◌, refl, Bool, true, false, Option, none, some}
use acme_lan.Acme.Errors.{Exc}
use acme_lan.Exec.Defs.{
  Result, ok, err, Exec, lift, gets, or_raise, require, continue, ◌>>=◌, ◌>>◌, ◌>>?◌,
}

module _ {S A B : Type 0} where
  continue_returned :
      (r : Result A × S) (f : A → Exec S B) {b : B}
      → (continue r f).0 ≡ ok b
      → (a : A) × (r.0 ≡ ok a) × (continue r f ≡ f a r.1)
  continue_returned (ok a, s) f e = (a, refl, refl)
  continue_returned (err x, s) f e = cc

  -- A bind that returned: its first step returned, and the rest went on from there.
  pub bind_returned :
      (m : Exec S A) (f : A → Exec S B) (s : S) {b : B}
      → ((m >>= f) s).0 ≡ ok b
      → (a : A) × ((m s).0 ≡ ok a) × ((m >>= f) s ≡ f a (m s).1)
  unfolding ◌>>=◌
  bind_returned m f s e = continue_returned (m s) f e

  continue_ok : (r : Result A × S) (f : A → Exec S B) {a : A} → r.0 ≡ ok a → continue r f ≡ f a r.1
  continue_ok (ok a, s) f e = cc
  continue_ok (err x, s) f e = cc

  -- The first step of a bind returned.
  pub bind_ok :
      (m : Exec S A) (f : A → Exec S B) (s : S) {a : A} → (m s).0 ≡ ok a → (m >>= f) s ≡ f a (m s).1
  unfolding ◌>>=◌
  bind_ok m f s e = continue_ok (m s) f e

module _ {A B : Type 0} where
  -- The same for functions that read no state.
  pub chain_returned :
      (r : Result A) (f : A → Result B) {b : B}
      → (r >>? f) ≡ ok b
      → (a : A) × (r ≡ ok a) × (f a ≡ ok b)
  chain_returned (ok a) f e = (a, refl, e)
  chain_returned (err x) f e = cc

module _ {S A B : Type 0} where
  pub lift_returned :
      (r : Result A) (f : A → Exec S B) (s : S) {b : B}
      → ((lift r >>= f) s).0 ≡ ok b
      → (a : A) × (r ≡ ok a) × ((lift r >>= f) s ≡ f a s)
  unfolding ◌>>=◌
  lift_returned (ok a) f s e = (a, refl, refl)
  lift_returned (err x) f s e = cc

  pub or_raise_returned :
      (o : Option A) (x : Exc) (f : A → Exec S B) (s : S) {b : B}
      → ((or_raise o x >>= f) s).0 ≡ ok b
      → (a : A) × (o ≡ some a) × ((or_raise o x >>= f) s ≡ f a s)
  unfolding ◌>>=◌
  or_raise_returned none x f s e = cc
  or_raise_returned (some a) x f s e = (a, refl, refl)

  pub gets-bind : (g : S → A) (f : A → Exec S B) (s : S) → (gets g >>= f) s ≡ f (g s) s
  unfolding ◌>>=◌
  gets-bind g f s = refl

pub require_returned :
    {S B : Type 0} (t : Bool) (x : Exc) (m : Exec S B) (s : S) {b : B}
    → ((require t x >> m) s).0 ≡ ok b
    → (t ≡ true) × ((require t x >> m) s ≡ m s)
unfolding ◌>>=◌
require_returned true x m s e = (refl, refl)
require_returned false x m s e = cc
