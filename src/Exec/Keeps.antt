-- ===== src/Exec/Keeps.antt =====
-- Invariants of handlers, one rule for each way to build a handler: what held before holds after,
-- whether the handler returned or raised.
use acme_lan.Prelude.{◌≡◌, refl, Bool, true, false, Option, none, some, if◌then◌else◌}
use acme_lan.Acme.Errors.{Exc}
use acme_lan.Exec.Defs.{
  Result, ok, err, Exec, pure, raise, lift, gets, or_raise, catch, caught, modify, require, ensure,
  settle, continue, ◌>>=◌,
}

pub record Keeps {S A : Type 0} (P : S → Type 0) (m : Exec S A) : Type 0 where
  pub at : (s : S) → P s → P (m s).1

module _ {S A : Type 0} {P : S → Type 0} where
  -- A handler that leaves the state alone.
  Keeps-still : (m : Exec S A) → ((s : S) → (m s).1 ≡ s) → Keeps P m
  Keeps-still m still = record { at = λ s h. rw (still s) h }

  pub Keeps-or_raise : (o : Option A) (e : Exc) → Keeps P (or_raise o e)
  unfolding or_raise
  Keeps-or_raise none e = Keeps-still _ (λ s. refl)
  Keeps-or_raise (some a) e = Keeps-still _ (λ s. refl)

  pub Keeps-gets : (read : S → A) → Keeps P (gets read)
  unfolding gets
  Keeps-gets read = Keeps-still _ (λ s. refl)

  pub Keeps-lift : (result : Result A) → Keeps P (lift result)
  unfolding lift
  Keeps-lift result = Keeps-still _ (λ s. refl)

  pub Keeps-raise : (e : Exc) → Keeps P (raise {A = A} e)
  unfolding raise
  Keeps-raise e = Keeps-still _ (λ s. refl)

  pub Keeps-pure : (value : A) → Keeps P (pure value)
  unfolding pure
  Keeps-pure value = Keeps-still _ (λ s. refl)

  pub Keeps-if : (b : Bool) (m n : Exec S A) → Keeps P m → Keeps P n → Keeps P (if b then m else n)
  Keeps-if true m n km kn = km
  Keeps-if false m n km kn = kn

  pub Keeps-handler :
      (h : Exc → Exec S A) (r : Result A) (s : S) (kh : (e : Exc) → Keeps P (h e))
      → P s
      → P (caught h (r, s)).1
  Keeps-handler h (ok a) s kh x = x
  Keeps-handler h (err e) s kh x = (kh e).at s x

  pub Keeps-catch :
      (m : Exec S A) (h : Exc → Exec S A)
      → Keeps P m
      → ((e : Exc) → Keeps P (h e))
      → Keeps P (catch m h)
  unfolding catch
  Keeps-catch m h km kh = record {
    at = λ s x. let (r, s') = m s in Keeps-handler h r s' kh (km.at s x);
  }

module _ {S : Type 0} {P : S → Type 0} where
  pub Keeps-require : (b : Bool) (e : Exc) → Keeps P (require b e)
  unfolding require
  Keeps-require true e = record { at = λ s h. h }
  Keeps-require false e = record { at = λ s h. h }

  pub Keeps-modify : (f : S → S) → ((s : S) → P s → P (f s)) → Keeps P (modify f)
  unfolding modify
  Keeps-modify f h = record { at = h }

module _ {S A B : Type 0} {P : S → Type 0} where
  kept_on :
      (r : Result A × S) (f : A → Exec S B) → ((a : A) → Keeps P (f a)) → P r.1 → P (continue r f).1
  kept_on (ok a, s) f rest h = (rest a).at s h
  kept_on (err e, s) f rest h = h

  -- The rule for a bind, read as the handler is: the first step, then the rest.
  infixr 5 ◌⨾◌
  pub ◌⨾◌ :
      {first : Exec S A} {next : A → Exec S B}
      → Keeps P first
      → ((a : A) → Keeps P (next a))
      → Keeps P (first >>= next)
  unfolding ◌>>=◌
  ◌⨾◌ {first} {next} one rest = record { at = λ s h. kept_on (first s) next rest (one.at s h) }

module _ {S A B : Type 0} {P Q : S → Type 0} where
  led_on :
      (r : Result A × S) (f : A → Exec S B)
      → ((s : S) → P s → Q s)
      → ((a : A) (s : S) → P s → Q (f a s).1)
      → P r.1
      → Q (continue r f).1
  led_on (ok a, s) f raised returned h = returned a s h
  led_on (err e, s) f raised returned h = raised s h

  -- A bind whose first step keeps one property, and whose rest leads on to another: the first must
  -- be enough for the second, since the first step may raise.
  pub bind_leads :
      (m : Exec S A) (f : A → Exec S B)
      → Keeps P m
      → ((s : S) → P s → Q s)
      → ((a : A) (s : S) → P s → Q (f a s).1)
      → (s : S) → P s
      → Q ((m >>= f) s).1
  unfolding ◌>>=◌
  bind_leads m f first raised returned s h = led_on (m s) f raised returned (first.at s h)

module _ {S A : Type 0} where
  settle_state : (r : Result A) (x : Result (Unit {0}) × S) → (settle r x).1 ≡ x.1
  settle_state r (ok _, s) = refl
  settle_state r (err e, s) = refl

  -- The state after `try: m finally: last` is the one that `last` leaves.
  pub ensure_state :
      (m : Exec S A) (last : Exec S (Unit {0})) (s : S) → (ensure m last s).1 ≡ (last (m s).1).1
  unfolding ensure
  ensure_state m last s = settle_state (m s).0 (last (m s).1)

pub ruleset keeps_rules =
    (◌⨾◌, Keeps-require, Keeps-if, Keeps-or_raise, Keeps-gets, Keeps-lift, Keeps-raise, Keeps-pure)
