-- ===== src/Exec/Defs.antt =====
-- A handler: it reads and changes a state, and it returns or raises. What it wrote before a raise
-- is still there after it.
use acme_lan.Prelude.{Bool, true, false, Option, none, some}
use acme_lan.Acme.Errors.{Exc}

pub data Result (A : Type 0) : Type 0 where
  ok : A → Result A
  err : Exc → Result A

abbrev pub Exec : Type 0 → Type 0 → Type 0
Exec S A = S → Result A × S

module _ {S A : Type 0} where
  unfoldable pub pure : A → Exec S A
  pure a s = (ok a, s)

  unfoldable pub raise : Exc → Exec S A
  raise e s = (err e, s)

  unfoldable pub lift : Result A → Exec S A
  lift r s = (r, s)

  unfoldable pub gets : (S → A) → Exec S A
  gets f s = (ok (f s), s)

  -- `if value is None: raise`.
  unfoldable pub or_raise : Option A → Exc → Exec S A
  or_raise none e s = (err e, s)
  or_raise (some a) e s = (ok a, s)

  abbrev pub caught : (Exc → Exec S A) → Result A × S → Result A × S
  caught h (ok a, s) = (ok a, s)
  caught h (err e, s) = h e s

  -- `try: ... except`: the handler goes on from the state that the raise left.
  unfoldable pub catch : Exec S A → (Exc → Exec S A) → Exec S A
  catch m h s = caught h (m s)

  -- `try: m finally: last`: an exception of `last` takes the place of the outcome.
  abbrev pub settle : Result A → Result (Unit {0}) × S → Result A × S
  settle r (ok _, s) = (r, s)
  settle r (err e, s) = (err e, s)

  unfoldable pub ensure : Exec S A → Exec S (Unit {0}) → Exec S A
  ensure m last s = settle (m s).0 (last (m s).1)

module _ {S : Type 0} where
  unfoldable pub modify : (S → S) → Exec S (Unit {0})
  modify f s = (ok tt, f s)

  -- `if not test: raise`.
  unfoldable pub require : Bool → Exc → Exec S (Unit {0})
  require true e s = (ok tt, s)
  require false e s = (err e, s)

module _ {S A B : Type 0} where
  abbrev pub continue : Result A × S → (A → Exec S B) → Result B × S
  continue (ok a, s) f = f a s
  continue (err e, s) f = (err e, s)

  infixl 5 ◌>>=◌ ◌>>◌
  unfoldable pub ◌>>=◌ : Exec S A → (A → Exec S B) → Exec S B
  unfolding pure raise lift gets or_raise modify require
  ◌>>=◌ m f s = continue (m s) f

  abbrev pub ◌>>◌ : Exec S A → Exec S B → Exec S B
  m >> k = m >>= λ _. k

-- The same for a function that reads no state.
infixl 5 ◌>>?◌
abbrev pub ◌>>?◌ : {A B : Type 0} → Result A → (A → Result B) → Result B
ok a >>? f = f a
err e >>? f = err e
