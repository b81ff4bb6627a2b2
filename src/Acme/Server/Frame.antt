-- ===== src/Acme/Server/Frame.antt =====
-- Invariants that do not look at the tables, over the ACME handlers: what such an invariant is, and
-- reading and answering a request (acme/jws.py and acme/common.py).
pub mod Accounts
pub mod Orders
pub mod Serve
use acme_lan.Prelude.{◌≡◌, refl, ℕ, String, Option, none, some, List, [], ◌∷◌, inl, inr, ◌⊎◌}
use mathlib.Core.Path.{subst}
use mathlib.Core.Option.{some-injective}
use acme_lan.Json.{Json, Fields}
use acme_lan.Platform.{Platform, Csr, Leaf, Bytes, ProfileUpstream}
use acme_lan.Exec.{catch, ◌>>=◌}
use acme_lan.Exec.Keeps.{
  Keeps, keeps_rules, Keeps-catch, Keeps-handler, Keeps-lift, Keeps-gets, Keeps-or_raise,
  Keeps-require, Keeps-if, Keeps-raise, Keeps-pure, ◌⨾◌,
}
use acme_lan.Models.Rows.{World, Tables, Order, Account, Authorization, Challenge, AcmeProfile}
use acme_lan.Models.Session.{Handler, commit, closed, run, now, draw, write}
use acme_lan.Validators.{validate_http01, validate_tlsalpn01}
use acme_lan.Acme.Errors.{Exc, acme}
use acme_lan.Acme.Encoding.{Urls}
use acme_lan.Acme.Nonce.{issue_nonce, consume_nonce}
use acme_lan.Acme.Directory
use acme_lan.Acme.Jws.{VerifiedRequest, verify_jws}
use acme_lan.Acme.Jws.ReadOnly.{Keeps-after_nonce}
use acme_lan.Acme.Common.{
  Request, Response, acme_json_response, acme_raw_response, read_verified, answer_error, serve,
}
use acme_lan.Acme.Profiles.{row_or_raise, resolve_profile_upstream}
use acme_lan.Acme.Accounts.{
  authorize_account, account_response, create_account, new_account_for, new_account, update_account,
  account_detail,
}
use acme_lan.Acme.Authz.{
  load_owned_authz, authorization_detail, challenge_response, validate, attempt, respond_challenge,
}
use acme_lan.Acme.Orders.Status.{recompute_order_status}
use acme_lan.Acme.Orders.Create.{
  add_challenges, add_authzs, order_response, insert_order, new_order, owned_order, order_detail,
}
use acme_lan.Acme.Orders.Finalize.{record_issuance, issue, not_ready, require_ready, finalize_order}
use acme_lan.Acme.Certificates.{
  download_certificate, authorize_revocation, revoked, forward, revoke_certificate,
}
use acme_lan.Acme.Server.Endpoints.{Call, handle, request_of}

pub record Stable (p : Platform) (P : World → Type 0) : Type 0 where
  pub draws : Keeps P draw
  pub issues : Keeps P (issue_nonce p)
  pub consumes : (value : String) → Keeps P (consume_nonce value)
  pub writes : (f : Tables → Tables) → Keeps P (write f)
  pub commits : Keeps P commit
  pub opens : (w : World) → P w → P (record w { tx = w.db })

pub Keeps-now : {P : World → Type 0} → Keeps P now
unfolding now
Keeps-now = search keeps_rules

module _ (p : Platform) {P : World → Type 0} (stable : Stable p P) where
  Keeps-verify_jws : (url : String) (body : Bytes) → Keeps P (verify_jws p url body)
  unfolding verify_jws
  Keeps-verify_jws url body = Keeps-lift _ ⨾ λ _. stable.consumes _ ⨾ λ _. Keeps-after_nonce p _

  pub Keeps-acme_json_response :
      (status : ℕ) (content : Json) (location : Option String) (links : List (String × String))
      → Keeps P (acme_json_response p status content location links)
  unfolding acme_json_response
  Keeps-acme_json_response status content location links = search (keeps_rules, stable.issues)

  pub Keeps-acme_raw_response :
      (content : String) (media_type : String) → Keeps P (acme_raw_response p content media_type)
  unfolding acme_raw_response
  Keeps-acme_raw_response content media_type = search (keeps_rules, stable.issues)

  Keeps-read_verified : (request : Request) → Keeps P (read_verified p request)
  unfolding read_verified
  Keeps-read_verified request = search (keeps_rules, Keeps-verify_jws)

  -- A handler that reads and verifies its request first.
  pub record Reads (m : Handler Response) (request : Request) : Type 0 where
    pub rest : VerifiedRequest → Handler Response
    pub same : m ≡ (read_verified p request >>= rest)
    pub keeps : (verified : VerifiedRequest) → Keeps P (rest verified)

  pub Keeps-Reads : (m : Handler Response) (request : Request) → Reads m request → Keeps P m
  Keeps-Reads m request reads = rw reads.same (Keeps-read_verified request ⨾ reads.keeps)

  pub Keeps-authorize_account : (verified : VerifiedRequest) → Keeps P (authorize_account verified)
  unfolding authorize_account
  Keeps-authorize_account verified = search keeps_rules
