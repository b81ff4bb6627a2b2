-- ===== src/Acme/Server/Frame/Serve.antt =====
-- Invariants that do not look at the tables: acme/certificates.py, and serving a request.
use acme_lan.Prelude.{◌≡◌, refl, String, some, inl, inr, ◌⊎◌}
use mathlib.Core.Path.{subst}
use mathlib.Core.Option.{some-injective}
use acme_lan.Json.{Json}
use acme_lan.Platform.{Platform, Leaf, Bytes}
use acme_lan.Exec.{catch}
use acme_lan.Exec.Keeps.{
  Keeps, keeps_rules, Keeps-catch, Keeps-handler, Keeps-lift, Keeps-gets, Keeps-or_raise,
  Keeps-require, Keeps-raise, Keeps-pure, ◌⨾◌,
}
use acme_lan.Models.Rows.{World}
use acme_lan.Models.Session.{Handler, closed, run}
use acme_lan.Acme.Errors.{Exc, acme}
use acme_lan.Acme.Directory
use acme_lan.Acme.Jws.{VerifiedRequest}
use acme_lan.Acme.Common.{Request, Response, answer_error, serve}
use acme_lan.Acme.Certificates.{
  download_certificate, authorize_revocation, revoked, forward, revoke_certificate,
}
use acme_lan.Acme.Server.Endpoints.{Call, handle, request_of}
use acme_lan.Acme.Server.Frame.{
  Keeps-acme_json_response, Keeps-acme_raw_response, Reads, Keeps-Reads, Keeps-authorize_account,
  Stable,
}
use acme_lan.Acme.Server.Frame.Accounts.{
  Reads-new_account, Reads-account_detail, Reads-authorization_detail, Reads-respond_challenge,
}
use acme_lan.Acme.Server.Frame.Orders.{Reads-new_order, Reads-order_detail, Reads-finalize_order}

module _ (p : Platform) {P : World → Type 0} (stable : Stable p P) where
  Reads-download_certificate :
      (id : String) (request : Request)
      → (Reads p stable) (download_certificate p id request) request
  unfolding download_certificate
  Reads-download_certificate id request = record {
    rest = _;
    same = refl;
    keeps = λ verified. (Keeps-authorize_account p stable) _ ⨾ λ _. Keeps-gets _ ⨾ λ _.
        Keeps-or_raise _ _ ⨾ λ _.
        Keeps-gets _ ⨾ λ _. Keeps-require _ _ ⨾ λ _. (Keeps-acme_raw_response p stable) _ _;
  }

  Keeps-authorize_revocation :
      (cert : Leaf) (der : Bytes) (verified : VerifiedRequest)
      → Keeps P (authorize_revocation p cert der verified)
  unfolding authorize_revocation
  Keeps-authorize_revocation cert der verified = search keeps_rules

  Keeps-revoked : (answer : String ⊎ Unit {0}) → Keeps P (revoked p answer)
  unfolding revoked
  Keeps-revoked (inl detail) = Keeps-raise _
  Keeps-revoked (inr _) = Keeps-pure _

  Keeps-forward : (pem : String) (reason : Json) → Keeps P (forward p pem reason)
  unfolding forward
  Keeps-forward pem reason = stable.draws ⨾ λ _. Keeps-revoked _

  Reads-revoke_certificate :
      (request : Request) → (Reads p stable) (revoke_certificate p request) request
  unfolding revoke_certificate
  Reads-revoke_certificate request = record {
    rest = _;
    same = refl;
    keeps = λ verified. Keeps-lift _ ⨾ λ _. Keeps-lift _ ⨾ λ _.
        Keeps-authorize_revocation _ _ _ ⨾ λ _.
        Keeps-forward _ _ ⨾ λ _. (Keeps-acme_json_response p stable) _ _ _ _;
  }

  at_request :
      (m : Handler Response) (r q : Request)
      → (Reads p stable) m r
      → some r ≡ some q
      → (Reads p stable) m q
  at_request m r q reads e = subst ((Reads p stable) m) (some-injective r q e) reads

  pub Reads-handle :
      (c : Call) (q : Request) → request_of c ≡ some q → (Reads p stable) (handle p c) q
  unfolding handle
  Reads-handle Call.new_nonce_head q e = cc
  Reads-handle Call.new_nonce_get q e = cc
  Reads-handle (Call.new_account r) q e = at_request _ r q ((Reads-new_account p stable) r) e
  Reads-handle (Call.new_order r) q e = at_request _ r q ((Reads-new_order p stable) r) e
  Reads-handle (Call.revoke_certificate r) q e = at_request _ r q (Reads-revoke_certificate r) e
  Reads-handle (Call.account_detail id r) q e =
      at_request _ r q ((Reads-account_detail p stable) id r) e
  Reads-handle (Call.order_detail id r) q e =
      at_request _ r q ((Reads-order_detail p stable) id r) e
  Reads-handle (Call.finalize_order id r) q e =
      at_request _ r q ((Reads-finalize_order p stable) id r) e
  Reads-handle (Call.authorization_detail id r) q e =
      at_request _ r q ((Reads-authorization_detail p stable) id r) e
  Reads-handle (Call.respond_challenge id r) q e =
      at_request _ r q ((Reads-respond_challenge p stable) id r) e
  Reads-handle (Call.download_certificate id r) q e =
      at_request _ r q (Reads-download_certificate id r) e

  Keeps-handle : (c : Call) → Keeps P (handle p c)
  unfolding handle Directory.new_nonce_head Directory.new_nonce_get
  Keeps-handle Call.new_nonce_head = (stable.issues ⨾ λ _. Keeps-pure _) ⨾ λ _. Keeps-pure _
  Keeps-handle Call.new_nonce_get = (stable.issues ⨾ λ _. Keeps-pure _) ⨾ λ _. Keeps-pure _
  Keeps-handle (Call.new_account r) = (Keeps-Reads p stable) _ _ ((Reads-new_account p stable) r)
  Keeps-handle (Call.new_order r) = (Keeps-Reads p stable) _ _ ((Reads-new_order p stable) r)
  Keeps-handle (Call.revoke_certificate r) = (Keeps-Reads p stable) _ _ (Reads-revoke_certificate r)
  Keeps-handle (Call.account_detail id r) =
      (Keeps-Reads p stable) _ _ ((Reads-account_detail p stable) id r)
  Keeps-handle (Call.order_detail id r) =
      (Keeps-Reads p stable) _ _ ((Reads-order_detail p stable) id r)
  Keeps-handle (Call.finalize_order id r) =
      (Keeps-Reads p stable) _ _ ((Reads-finalize_order p stable) id r)
  Keeps-handle (Call.authorization_detail id r) =
      (Keeps-Reads p stable) _ _ ((Reads-authorization_detail p stable) id r)
  Keeps-handle (Call.respond_challenge id r) =
      (Keeps-Reads p stable) _ _ ((Reads-respond_challenge p stable) id r)
  Keeps-handle (Call.download_certificate id r) =
      (Keeps-Reads p stable) _ _ (Reads-download_certificate id r)

  Keeps-answer_error : (e : Exc) → Keeps P (answer_error p e)
  unfolding answer_error
  Keeps-answer_error (acme e) = stable.issues ⨾ λ _. Keeps-pure _
  Keeps-answer_error _ = Keeps-raise _

  -- A request is handled in a session of its own.
  Keeps-run : {A : Type 0} (m : Handler A) → Keeps P m → Keeps P (run m)
  unfolding run closed
  Keeps-run m km = record {
    at = λ w h.
        let (r, w') = m (record w { tx = w.db }) in
        stable.opens w' (km.at (record w { tx = w.db }) (stable.opens w h));
  }

  -- From what holds when the handler ends to what holds after the answer.
  pub serve-keeps :
      (c : Call) (w : World)
      → P (handle p c (record w { tx = w.db })).1
      → P (serve p (handle p c) w).1
  unfolding serve catch run closed
  serve-keeps c w h =
      let (r, s) = run (handle p c) w in
      Keeps-handler (answer_error p) r s Keeps-answer_error (stable.opens _ h)

  pub Keeps-serve : (c : Call) → Keeps P (serve p (handle p c))
  unfolding serve
  Keeps-serve c = Keeps-catch _ _ (Keeps-run _ (Keeps-handle c)) Keeps-answer_error
