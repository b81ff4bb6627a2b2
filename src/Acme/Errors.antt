-- ===== src/Acme/Errors.antt =====
-- acme/errors.py: the problem documents, and how a handler can fail.
use acme_lan.Prelude.{ℕ, String, starts_with, if◌then◌else◌}
use acme_lan.Json.{Json, str, num, obj, end, field}
use Prim.Native.String.{◌++◌}

pub record AcmeError : Type 0 where
  pub kind : String
  pub detail : String
  pub status : ℕ

abbrev pub acme_error_ns : String
acme_error_ns = "urn:ietf:params:acme:error:"

-- `AcmeError(error_type, detail, status)`: a bare token gets the namespace.
unfoldable pub acme_error : String → String → ℕ → AcmeError
acme_error error_type detail status = record {
  kind = if starts_with error_type "urn:" then error_type else acme_error_ns ++ error_type;
  detail = detail;
  status = status;
}

-- `to_dict`; no caller gives subproblems.
unfoldable pub to_dict : AcmeError → Json
to_dict e =
    obj (
      field "type" (str e.kind) (field "detail" (str e.detail) (field "status" (num e.status) end)))

-- How a request fails: by an `AcmeError`, by an `HTTPException` of the management API, by
-- an error of the component with its message (`OidcError`, `ShellError`, `RuntimeError`), or by
-- another Python exception that no handler catches (the client sees a plain 500).
pub data Exc : Type 0 where
  acme : AcmeError → Exc
  http : ℕ → String → Exc
  failure : String → Exc
  uncaught : Exc

unfoldable pub malformed : String → Exc
unfolding acme_error
malformed detail = acme (acme_error "malformed" detail 400)

unfoldable pub unauthorized : String → Exc
unfolding acme_error
unauthorized detail = acme (acme_error "unauthorized" detail 401)

unfoldable pub account_does_not_exist : Exc
unfolding acme_error
account_does_not_exist = acme (acme_error "accountDoesNotExist" "Account does not exist" 400)

unfoldable pub bad_nonce : String → Exc
unfolding acme_error
bad_nonce detail = acme (acme_error "badNonce" detail 400)

unfoldable pub server_internal : String → Exc
unfolding acme_error
server_internal detail = acme (acme_error "serverInternal" detail 500)

unfoldable pub order_not_ready : String → Exc
unfolding acme_error
order_not_ready detail = acme (acme_error "orderNotReady" detail 403)

unfoldable pub bad_csr : String → Exc
unfolding acme_error
bad_csr detail = acme (acme_error "badCSR" detail 400)

unfoldable pub unsupported_identifier : String → Exc
unfolding acme_error
unsupported_identifier detail = acme (acme_error "unsupportedIdentifier" detail 400)

-- The HTTP status of the answer to a failed request.
unfoldable pub status_of : Exc → ℕ
status_of (acme e) = e.status
status_of (http code _) = code
status_of (failure _) = 500
status_of uncaught = 500
