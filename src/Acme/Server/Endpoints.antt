-- ===== src/Acme/Server/Endpoints.antt =====
-- The ACME endpoints of the server, one after the other, and the states that they lead to.
use Prim.Native.Nat.{◌≤◌}
use acme_lan.Prelude.{ℕ, String, Option, [], some, none}
use acme_lan.Json.{obj, end}
use acme_lan.Platform.{Platform}
use acme_lan.Exec.{pure, ◌>>=◌}
use acme_lan.Models.Rows.{World, no_rows}
use acme_lan.Models.Session.{Handler}
use acme_lan.Acme.Directory
use acme_lan.Acme.Common.{Request, Response, json, serve}
use acme_lan.Acme.Accounts
use acme_lan.Acme.Orders.Create
use acme_lan.Acme.Orders.Finalize
use acme_lan.Acme.Authz
use acme_lan.Acme.Certificates

-- A request to one of the routes; those with an id in the path carry it.
pub data Call : Type 0 where
  new_nonce_head new_nonce_get : Call
  new_account new_order revoke_certificate : Request → Call
  account_detail order_detail finalize_order authorization_detail respond_challenge :
      String → Request → Call
  download_certificate : String → Request → Call

-- The signed request of a call; newNonce has none.
abbrev pub request_of : Call → Option Request
request_of new_nonce_head = none
request_of new_nonce_get = none
request_of (new_account r) = some r
request_of (new_order r) = some r
request_of (revoke_certificate r) = some r
request_of (account_detail _ r) = some r
request_of (order_detail _ r) = some r
request_of (finalize_order _ r) = some r
request_of (authorization_detail _ r) = some r
request_of (respond_challenge _ r) = some r
request_of (download_certificate _ r) = some r

module _ (p : Platform) where
  -- The answer of newNonce has no body.
  abbrev pub nonce_response : Handler (ℕ × String) → Handler Response
  nonce_response m = m >>= λ answer. pure (record {
    status = answer.0;
    content = json (obj end);
    replay_nonce = some answer.1;
    location = none;
    link = none;
  })

  unfoldable pub handle : Call → Handler Response
  handle new_nonce_head = nonce_response (Directory.new_nonce_head p)
  handle new_nonce_get = nonce_response (Directory.new_nonce_get p)
  handle (new_account r) = Accounts.new_account p r
  handle (new_order r) = Create.new_order p r
  handle (revoke_certificate r) = Certificates.revoke_certificate p r
  handle (account_detail id r) = Accounts.account_detail p id r
  handle (order_detail id r) = Create.order_detail p id r
  handle (finalize_order id r) = Finalize.finalize_order p id r
  handle (authorization_detail id r) = Authz.authorization_detail p id r
  handle (respond_challenge id r) = Authz.respond_challenge p id r
  handle (download_certificate id r) = Certificates.download_certificate p id r

  -- From one state to the next: a request is served, or time passes.
  pub data Step (w : World) : World → Type 0 where
    request : (c : Call) → Step w (serve p (handle c) w).1
    tick : (time : ℕ) → w.clock ≤ time → Step w (record w { clock = time })

  pub data Reach (w : World) : World → Type 0 where
    here : Reach w w
    next : {u v : World} → Reach w u → Step u v → Reach w v

-- The server before its first request.
abbrev pub initial : World
initial = record { clock = 0; draws = 0; nonces = []; db = no_rows; tx = no_rows }
