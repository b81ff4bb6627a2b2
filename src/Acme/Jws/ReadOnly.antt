-- ===== src/Acme/Jws/ReadOnly.antt =====
-- The part of `verify_jws` (acme/jws.py) after the nonce, and the state.
use acme_lan.Json.{Json, Fields, str}
use acme_lan.Platform.{Platform}
use acme_lan.Exec.Keeps.{Keeps, keeps_rules}
use acme_lan.Models.Rows.{World}
use acme_lan.Acme.Jws.{Parsed, resolve_kid, resolve_key, after_nonce}

module _ (p : Platform) {P : World → Type 0} where
  Keeps-resolve_kid : (kid : Json) → Keeps P (resolve_kid p kid)
  unfolding resolve_kid
  Keeps-resolve_kid (str kid) = search keeps_rules
  Keeps-resolve_kid _ = search keeps_rules

  pub Keeps-resolve_key : (protected : Fields) → Keeps P (resolve_key p protected)
  unfolding resolve_key
  Keeps-resolve_key protected = search (keeps_rules, Keeps-resolve_kid)

  pub Keeps-after_nonce : (parsed : Parsed) → Keeps P (after_nonce p parsed)
  unfolding after_nonce
  Keeps-after_nonce parsed = search (keeps_rules, Keeps-resolve_key)
