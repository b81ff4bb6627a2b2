-- ===== src/Acme/Nonce/SingleUse.antt =====
-- What issuing and consuming a nonce (acme/nonce.py) do to the stored ones.
use acme_lan.Prelude.{
  suc, String, ◌≡◌, refl, false, ◌||◌, List, [], ◌∷◌, ◌++◌, ◌==◌, arith, eq_iff, if◌then◌else◌,
}
use acme_lan.Platform.{Platform}
use acme_lan.Exec.{ok, err, ◌>>=◌}
use acme_lan.Models.Rows.{Nonce, World}
use acme_lan.Models.Session.{draw, now}
use acme_lan.Acme.Errors.{bad_nonce}
use acme_lan.Acme.Nonce.{issue_nonce, without, holds, consume_nonce}

pub holds-without :
    (v u : String) (ns : List Nonce)
    → holds v (without u ns) ≡ (if u == v then false else holds v ns)
unfolding holds without
holds-without v u [] = ground arith
holds-without v u (n ∷ ns) =
    ground (arith, holds-without v u ns, eq_iff u v, eq_iff n.value v, eq_iff n.value u)

pub holds-append :
    (v : String) (ns : List Nonce) (n : Nonce) → holds v (ns ++ n ∷ []) ≡ holds v ns || n.value == v
unfolding holds
holds-append v [] n = ground arith
holds-append v (m ∷ ns) n = ground (arith, holds-append v ns n)

-- Consuming a nonce succeeds exactly when it is stored; in either case it is not stored after,
-- every other nonce is as before, and nothing else changes.
pub consume_nonce_lem :
    (v : String) (w : World)
    → ((consume_nonce v w).0 ≡ (
        if holds v w.nonces then ok tt else err (bad_nonce "Invalid or reused anti-replay nonce")))
      × ((u : String)
          → holds u (consume_nonce v w).1.nonces ≡ (if v == u then false else holds u w.nonces))
      × ((consume_nonce v w).1 ≡ record w { nonces = without v w.nonces })
unfolding consume_nonce ◌>>=◌
consume_nonce_lem v w =
    (ground arith, λ u. ground (arith, holds-without u v w.nonces), ground arith)

module _ (p : Platform) where
  -- An issued nonce is the text of the next draw, and is stored after those that are.
  pub issue_nonce_lem :
      (w : World)
      → issue_nonce p w ≡ (
        ok (p.token_urlsafe w.draws),
        record w {
          draws = suc w.draws;
          nonces =
              w.nonces ++ record { value = p.token_urlsafe w.draws; created_at = w.clock } ∷ [];
        },
      )
  unfolding issue_nonce draw now ◌>>=◌
  issue_nonce_lem w = refl
