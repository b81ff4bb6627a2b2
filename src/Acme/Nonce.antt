-- ===== src/Acme/Nonce.antt =====
-- acme/nonce.py: each call opens a session of its own and commits at once.
pub mod SingleUse
use acme_lan.Prelude.{String, Bool, true, false, List, [], ◌∷◌, ◌++◌, ◌==◌, if◌then◌else◌}
use acme_lan.Platform.{Platform}
use acme_lan.Acme.Errors.{bad_nonce}
use acme_lan.Exec.{pure, raise, gets, modify, ◌>>=◌, ◌>>◌}
use acme_lan.Models.Rows.{Nonce}
use acme_lan.Models.Session.{Handler, draw, now}

module _ (p : Platform) where
  unfoldable pub issue_nonce : Handler String
  issue_nonce = do
    n ← draw
    time ← now
    let value = p.token_urlsafe n
    modify (λ w. record w { nonces = w.nonces ++ record { value = value; created_at = time } ∷ [] })
    pure value

-- `delete(Nonce).where(Nonce.value == value)`.
unfoldable pub without : String → List Nonce → List Nonce
without value [] = []
without value (n ∷ ns) = let rest = without value ns in if n.value == value then rest else n ∷ rest

unfoldable pub holds : String → List Nonce → Bool
holds value [] = false
holds value (n ∷ ns) = if n.value == value then true else holds value ns

-- `rowcount == 0` says that no row was deleted.
unfoldable pub consume_nonce : String → Handler (Unit {0})
consume_nonce value = do
  before ← gets (λ w. w.nonces)
  modify (λ w. record w { nonces = without value w.nonces })
  if holds value before then pure tt else raise (bad_nonce "Invalid or reused anti-replay nonce")

unfoldable pub nonce_exists : String → Handler Bool
nonce_exists value = gets (λ w. holds value w.nonces)
