-- ===== src/Validators.antt =====
-- validators/http01.py and validators/tlsalpn01.py: the checks by which a client proves control.
use Prim.Native.String.{◌++◌}
use acme_lan.Prelude.{
  ℕ, String, Bool, true, false, not, Option, none, some, List, inl, inr, ◌==◌, eqb, if◌then◌else◌,
}
use acme_lan.Prelude.Text.{is_empty, has_char, last_part, before_last}
use acme_lan.Platform.{
  Platform, Bytes, Fetched, Connected, PeerCertificate, missing, unparsable, without_extension,
  with_extension,
}
use acme_lan.Exec.{Result, ok, err, pure, lift, ◌>>=◌}
use acme_lan.Models.Session.{Handler, draw}
use acme_lan.Acme.Errors.{uncaught}

pub record ValidationResult : Type 0 where
  pub passed : Bool
  pub detail : String

abbrev pub failed : String → ValidationResult
failed detail = record { passed = false; detail = detail }

abbrev pub passed : ValidationResult
passed = record { passed = true; detail = "" }

-- `overrides.get(identifier) or identifier`.
unfoldable pub connect_target : List (String × String) → String → String
connect_target List.[] identifier = identifier
connect_target (List.◌∷◌ (k, v) rest) identifier =
    if k == identifier
    then (if is_empty v then identifier else v)
    else connect_target rest identifier

-- Equality of two byte strings.
unfoldable pub same_bytes : Bytes → Bytes → Bool
same_bytes List.[] List.[] = true
same_bytes (List.◌∷◌ a as') (List.◌∷◌ b bs) = if eqb a b then same_bytes as' bs else false
same_bytes _ _ = false

module _ (p : Platform) where
  unfoldable pub check_http_answer : String → Fetched → ValidationResult
  check_http_answer key_authorization (inl error) =
      failed ("Could not fetch challenge resource: " ++ error)
  check_http_answer key_authorization (inr (status, body)) =
      if not (eqb status 200)
      then failed ("Challenge resource returned HTTP " ++ p.number_text status)
      else if p.strip body == key_authorization
      then passed
      else failed "Challenge response did not match the expected key authorization"

  unfoldable pub validate_http01 : String → String → String → Handler ValidationResult
  validate_http01 identifier token key_authorization = do
    n ← draw
    let host = connect_target p.settings.http01_resolver_overrides identifier
    let url = "http://" ++ (host ++ ("/.well-known/acme-challenge/" ++ token))
    pure (check_http_answer key_authorization (p.http_get n url identifier))

  -- `_split_host_port`; `int` of a text that is no number raises.
  unfoldable pub split_host_port : String → ℕ → Result (String × ℕ)
  split_host_port target default_port =
      if has_char b':' target
      then elim (p.parse_int (last_part b':' target)) [
        | none ↦ err uncaught
        | some port ↦ ok (before_last b':' target, port)
      ]
      else ok (target, default_port)

  -- The extension's value is 04 20 and the digest.
  unfoldable pub check_extension : Bytes → Bytes → ValidationResult
  check_extension digest value =
      if same_bytes value (List.◌∷◌ 0x04 (List.◌∷◌ 0x20 digest))
      then passed
      else failed "acmeIdentifier does not match the key authorization"

  unfoldable pub check_peer : Option Bytes → PeerCertificate → Result ValidationResult
  check_peer ascii missing = ok (failed "No certificate presented on the acme-tls/1 connection")
  check_peer ascii unparsable = err uncaught
  check_peer ascii without_extension =
      ok (failed "Certificate is missing the acmeIdentifier extension")
  check_peer none (with_extension value) = err uncaught
  check_peer (some bytes) (with_extension value) = ok (check_extension (p.sha256 bytes) value)

  abbrev negotiated : Option String → Bool
  negotiated none = false
  negotiated (some protocol) = protocol == "acme-tls/1"

  unfoldable pub check_connection : String → Connected → Result ValidationResult
  check_connection key_authorization (inl error) =
      ok (failed ("Could not open acme-tls/1 connection: " ++ error))
  check_connection key_authorization (inr (protocol, peer)) =
      if negotiated protocol
      then check_peer (p.encode_ascii key_authorization) peer
      else ok (failed "Peer did not negotiate the acme-tls/1 protocol")

  unfoldable pub validate_tlsalpn01 : String → String → Handler ValidationResult
  validate_tlsalpn01 identifier key_authorization = do
    n ← draw
    let target = connect_target p.settings.tlsalpn_resolver_overrides identifier
    (host, port) ← lift (split_host_port target p.settings.tlsalpn_default_port)
    lift (check_connection key_authorization (p.tls_connect n host port identifier))
