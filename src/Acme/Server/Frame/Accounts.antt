-- ===== src/Acme/Server/Frame/Accounts.antt =====
-- Invariants that do not look at the tables: acme/accounts.py and acme/authz.py.
use acme_lan.Prelude.{refl, ℕ, String, Option, none, some}
use acme_lan.Json.{Json}
use acme_lan.Platform.{Platform}
use acme_lan.Exec.Keeps.{
  Keeps, keeps_rules, Keeps-lift, Keeps-gets, Keeps-or_raise, Keeps-require, Keeps-if, Keeps-pure,
  ◌⨾◌,
}
use acme_lan.Models.Rows.{World, Account, Authorization, Challenge}
use acme_lan.Validators.{validate_http01, validate_tlsalpn01}
use acme_lan.Acme.Encoding.{Urls}
use acme_lan.Acme.Jws.{VerifiedRequest}
use acme_lan.Acme.Common.{Request}
use acme_lan.Acme.Accounts.{
  account_response, create_account, new_account_for, new_account, update_account, account_detail,
}
use acme_lan.Acme.Authz.{
  load_owned_authz, authorization_detail, challenge_response, validate, attempt, respond_challenge,
}
use acme_lan.Acme.Server.Frame.{
  Keeps-acme_json_response, Reads, Keeps-authorize_account, Stable, Keeps-now,
}

module _ (p : Platform) {P : World → Type 0} (stable : Stable p P) where
  Keeps-account_response :
      (status : ℕ) (account : Account) (urls : Urls)
      → Keeps P (account_response p status account urls)
  unfolding account_response
  Keeps-account_response status account urls = search (Keeps-acme_json_response p stable)

  Keeps-create_account :
      (verified : VerifiedRequest) (urls : Urls) → Keeps P (create_account p verified urls)
  unfolding create_account
  Keeps-create_account verified urls = Keeps-lift _ ⨾ λ _. Keeps-require _ _ ⨾ λ _.
      Keeps-require _ _ ⨾ λ _. stable.draws ⨾ λ _.
      Keeps-now ⨾ λ _. stable.writes _ ⨾ λ _. stable.commits ⨾ λ _. Keeps-account_response _ _ _

  Keeps-new_account_for :
      (verified : VerifiedRequest) (urls : Urls) (found : Option Account)
      → Keeps P (new_account_for p verified urls found)
  unfolding new_account_for
  Keeps-new_account_for verified urls none = Keeps-create_account verified urls
  Keeps-new_account_for verified urls (some a) = Keeps-account_response _ _ _

  pub Reads-new_account : (request : Request) → (Reads p stable) (new_account p request) request
  unfolding new_account
  Reads-new_account request = record {
    rest = _;
    same = refl;
    keeps = λ verified. Keeps-require _ _ ⨾ λ _.
        Keeps-gets _ ⨾ λ _. Keeps-lift _ ⨾ λ _. Keeps-new_account_for _ _ _;
  }

  Keeps-update_account :
      (payload : Option Json) (account : Account) → Keeps P (update_account p payload account)
  unfolding update_account
  Keeps-update_account none account = Keeps-pure _
  Keeps-update_account (some j) account = Keeps-lift _ ⨾ λ _.
      Keeps-lift _ ⨾ λ _. stable.writes _ ⨾ λ _. stable.commits ⨾ λ _. Keeps-pure _

  pub Reads-account_detail :
      (id : String) (request : Request) → (Reads p stable) (account_detail p id request) request
  unfolding account_detail
  Reads-account_detail id request = record {
    rest = _;
    same = refl;
    keeps = λ verified. (Keeps-authorize_account p stable) _ ⨾ λ _.
        Keeps-require _ _ ⨾ λ _. Keeps-update_account _ _ ⨾ λ _. Keeps-account_response _ _ _;
  }

  Keeps-load_owned_authz :
      (authz_id : String) (account_id : String) → Keeps P (load_owned_authz authz_id account_id)
  unfolding load_owned_authz
  Keeps-load_owned_authz authz_id account_id = search keeps_rules

  pub Reads-authorization_detail :
      (id : String) (request : Request)
      → (Reads p stable) (authorization_detail p id request) request
  unfolding authorization_detail
  Reads-authorization_detail id request = record {
    rest = _;
    same = refl;
    keeps = λ verified. (Keeps-authorize_account p stable) _ ⨾ λ _.
        Keeps-load_owned_authz _ _ ⨾ λ _.
        Keeps-gets _ ⨾ λ _. (Keeps-acme_json_response p stable) _ _ _ _;
  }

  Keeps-challenge_response :
      (challenge : Challenge) (authz : Authorization) (urls : Urls)
      → Keeps P (challenge_response p challenge authz urls)
  unfolding challenge_response
  Keeps-challenge_response challenge authz urls = search (Keeps-acme_json_response p stable)

  Keeps-validate_http01 :
      (identifier : String) (token : String) (key : String)
      → Keeps P (validate_http01 p identifier token key)
  unfolding validate_http01
  Keeps-validate_http01 identifier token key = search (keeps_rules, stable.draws)

  Keeps-validate_tlsalpn01 :
      (identifier : String) (key : String) → Keeps P (validate_tlsalpn01 p identifier key)
  unfolding validate_tlsalpn01
  Keeps-validate_tlsalpn01 identifier key = stable.draws ⨾ λ _. Keeps-lift _ ⨾ λ _. Keeps-lift _

  Keeps-validate :
      (verified : VerifiedRequest) (challenge : Challenge) (authz : Authorization)
      → Keeps P (validate p verified challenge authz)
  unfolding validate
  Keeps-validate verified challenge authz =
      search (keeps_rules, Keeps-validate_http01, Keeps-validate_tlsalpn01)

  Keeps-attempt :
      (verified : VerifiedRequest) (challenge : Challenge) (authz : Authorization) (urls : Urls)
      → Keeps P (attempt p verified challenge authz urls)
  unfolding attempt
  Keeps-attempt verified challenge authz urls = Keeps-validate verified challenge authz ⨾ λ _.
      Keeps-now ⨾ λ _. stable.writes _ ⨾ λ _.
      stable.writes _ ⨾ λ _. stable.commits ⨾ λ _. Keeps-challenge_response _ _ _

  pub Reads-respond_challenge :
      (id : String) (request : Request) → (Reads p stable) (respond_challenge p id request) request
  unfolding respond_challenge
  Reads-respond_challenge id request = record {
    rest = _;
    same = refl;
    keeps = λ verified. (Keeps-authorize_account p stable) _ ⨾ λ _. Keeps-gets _ ⨾ λ _.
        Keeps-or_raise _ _ ⨾ λ _. Keeps-load_owned_authz _ _ ⨾ λ _.
        Keeps-if _ _ _ (Keeps-challenge_response _ _ _) (Keeps-attempt _ _ _ _);
  }
