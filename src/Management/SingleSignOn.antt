-- ===== src/Management/SingleSignOn.antt =====
-- management/auth_api.py: the OIDC login, from the redirect to the provider to the session.
pub mod Admission
pub mod Frame
pub mod Grants
pub mod Identity
pub mod Once
use Prim.Native.String.{◌++◌}
use acme_lan.Prelude.{
  ℕ, ◌+◌, ◌/◌, String, Bool, true, false, not, ◌&&◌, Option, none, some, List, [], ◌∷◌, ◌==◌, leb,
  ltb, eqb, member, map, select, starts_with, if◌then◌else◌,
}
use acme_lan.Prelude.Text.{is_empty, rstrip, join}
use acme_lan.Json.{Json, null, str, obj, Fields, get}
use acme_lan.Platform.{Platform}
use acme_lan.Exec.{
  Exec, Result, ok, err, pure, raise, lift, gets, or_raise, require, catch, ◌>>=◌, ◌>>◌,
}
use acme_lan.Table.{find, put, remove}
use acme_lan.Models.Rows.{User, UserSession, OidcState, Tables, World}
use acme_lan.Models.Session.{Handler, commit, now, draw, write}
use acme_lan.Acme.Errors.{Exc, acme, http, failure, uncaught}
use acme_lan.Users.{
  split, put_user, get_user_by_oidc, create_user, start_session, resolve_session, count_users,
}
use acme_lan.Oidc.{
  first_chars, decode_jwt_claims, make_pkce, fetch_discovery, authorize_url, exchange_code,
  validate_claims, claim_email, claim_subject, claim_identity,
}
use acme_lan.Management.Auth.{require_admin}
use acme_lan.Management.Accounts.{Caller, UserView, user_view, SessionCookie, session_cookie}

-- A redirect of the browser, with the session's cookie after a login.
pub record Redirect : Type 0 where
  pub url : String
  pub cookie : Option SessionCookie

-- The answer of `oidc_preview`, less the settings it repeats.
pub record Preview : Type 0 where
  pub is_ok : Bool
  pub detail : String
  pub issuer : Json
  pub authorization_endpoint : Json

pub record Status : Type 0 where
  pub auth_required : Bool
  pub local_login_enabled : Bool
  pub oidc_enabled : Bool
  pub oidc_provider : String
  pub token_auth_enabled : Bool
  pub needs_setup : Bool
  pub oidc_redirect_uri : String
  pub user : Option UserView

abbrev pub state_of : String → World → Option OidcState
state_of state w = find (λ s. s.state) state w.tx.oidc_states

abbrev pub put_state : OidcState → Tables → Tables
put_state s t = record t { oidc_states = put (λ x. x.state) s t.oidc_states }

abbrev pub remove_state : String → Tables → Tables
remove_state state t = record t { oidc_states = remove (λ x. x.state) state t.oidc_states }

abbrev pub ten_minutes : ℕ
ten_minutes = 600000000

abbrev pub oidc_callback_path : String
oidc_callback_path = "/api/auth/oidc/callback"

-- `next if next.startswith("/") else "/"`.
unfoldable pub next_url_of : String → String
next_url_of next = if starts_with next "/" then next else "/"

-- `text or other`.
abbrev pub text_or : String → String → String
text_or text other = if is_empty text then other else text

abbrev pub optional_text : Option String → String
optional_text none = ""
optional_text (some s) = s

-- `filter(None, ...)`, one text at a time.
abbrev pub present : Option String → List String → List String
present none texts = texts
present (some s) texts = if is_empty s then texts else s ∷ texts

-- The claims must be an object: reading another value raises.
abbrev pub claims_of : Json → Result Fields
claims_of (obj fields) = ok fields
claims_of _ = err uncaught

-- The issuer of a discovery document; one that is no text raises.
abbrev pub issuer_of : Json → Result String
issuer_of (str s) = ok s
issuer_of _ = err uncaught

-- `not user.oidc_subject`.
abbrev pub unbound : User → Bool
unbound user = is_empty (optional_text user.oidc_subject)

-- The subject is bound at the first sign-in.
unfoldable pub bind_subject : String → String → User → User
bind_subject subject email user =
    if unbound user
    then (if is_empty user.email && not (is_empty email)
        then record user { oidc_subject = some subject; email = email }
        else record user { oidc_subject = some subject })
    else user

module _ (p : Platform) where
  unfoldable pub redirect_uri : String
  redirect_uri = rstrip b'/' p.settings.external_url ++ oidc_callback_path

  -- `Settings.oidc_discovery` and `Settings.oidc_configured`.
  unfoldable pub oidc_discovery : String
  oidc_discovery =
      if p.settings.oidc_provider == "entra" && not (is_empty p.settings.oidc_tenant_id)
      then "https://login.microsoftonline.com/"
        ++ (p.settings.oidc_tenant_id ++ "/v2.0/.well-known/openid-configuration")
      else p.settings.oidc_discovery_url

  unfoldable pub oidc_configured : Bool
  oidc_configured =
      p.settings.oidc_enabled
      && (not (is_empty p.settings.oidc_client_id) && not (is_empty oidc_discovery))

  -- An `OidcError` of discovery is answered with 502.
  unfoldable pub bad_gateway : Exc → Handler Fields
  bad_gateway (failure detail) = raise (http 502 ("OIDC discovery failed: " ++ detail))
  bad_gateway e = raise e

  unfoldable pub oidc_start : String → Handler Redirect
  oidc_start next = do
    require oidc_configured (http 400 "OIDC is not configured")
    document ← catch (fetch_discovery p oidc_discovery) bad_gateway
    (verifier, challenge) ← make_pkce p
    n ← draw
    k ← draw
    time ← now
    write (
        put_state (record {
          state = p.token_urlsafe n;
          nonce = p.token_urlsafe k;
          code_verifier = verifier;
          redirect_uri = redirect_uri;
          next_url = next_url_of next;
          expires_at = time + ten_minutes;
        }))
    commit
    pure (record {
      url =
          authorize_url p document p.settings.oidc_client_id redirect_uri p.settings.oidc_scopes
            (p.token_urlsafe n) (p.token_urlsafe k) challenge;
      cookie = none;
    })

  unfoldable pub oidc_failure : String → Redirect
  oidc_failure message = record {
    url = "/?login_error=" ++ p.quote (first_chars 300 message);
    cookie = none;
  }

  -- The claims of the provider's answer, checked.
  unfoldable pub check_token : OidcState → Fields → Fields → Handler Fields
  check_token row document tokens = do
    decoded ← lift (decode_jwt_claims p (get "id_token" tokens))
    claims ← lift (claims_of decoded)
    issuer ← lift (issuer_of (get "issuer" document))
    time ← now
    lift (validate_claims p claims issuer p.settings.oidc_client_id row.nonce (time / 1000000))
    pure claims

  unfoldable pub identify : String → OidcState → Handler Fields
  identify code row = do
    document ← fetch_discovery p oidc_discovery
    tokens ←
        exchange_code p document code p.settings.oidc_client_id p.settings.oidc_client_secret
          row.redirect_uri row.code_verifier
    check_token row document tokens

  -- `[e.strip().lower() for e in ... if e.strip()]`.
  unfoldable pub allowed_emails : List String
  allowed_emails =
      map (λ e. p.lower (p.strip e))
        (select (λ e. not (is_empty (p.strip e))) (split b',' p.settings.oidc_allowed_emails))

  unfoldable pub is_allowed : String → Bool
  is_allowed email = allows allowed_emails
    where
      allows : List String → Bool
      allows [] = true
      allows (e ∷ es) = member (p.lower email) (e ∷ es)

  -- The user of the identity; a text says why there is none.
  unfoldable pub known_user : String → String → User → Handler (Result User)
  known_user subject email user =
      if user.disabled
      then pure (err (failure "this account is disabled"))
      else if unbound user
      then (do
        write (put_user (bind_subject subject email user))
        commit
        pure (ok (bind_subject subject email user)))
      else pure (ok user)

  unfoldable pub new_user : String → String → String → Handler (Result User)
  new_user subject email name =
      if p.settings.oidc_auto_create_users
      then (do
        user ←
            create_user p (text_or email (text_or name subject)) none email "oidc" (some subject)
              true
        pure (ok user))
      else pure (
          err (
            failure (
              "no account exists for "
              ++ (text_or email subject ++ " and automatic creation is off"))))

  unfoldable pub user_for : String → String → String → Option User → Handler (Result User)
  user_for subject email name none = new_user subject email name
  user_for subject email name (some user) = known_user subject email user

  unfoldable pub admit_identity : String → String → String → Handler (Result User)
  admit_identity subject email name =
      if is_empty subject
      then pure (err (failure "the ID token carried no subject claim"))
      else if not (is_allowed email)
      then pure (err (failure (text_or email "this account" ++ " is not in the allowed list")))
      else (do found ← get_user_by_oidc p subject email; user_for subject email name found)

  unfoldable pub finish : String → Result User → Handler Redirect
  finish next_url (ok user) = do
    row ← start_session p user p.settings.session_lifetime_hours
    pure (record { url = next_url; cookie = some (session_cookie p row.token) })
  finish next_url (err (failure message)) = pure (oidc_failure message)
  finish next_url (err e) = raise e

  unfoldable pub welcome : OidcState → Fields → Handler Redirect
  welcome row claims = do
    let (subject, email, name) = claim_identity p claims
    admitted ← admit_identity subject email name
    finish (text_or row.next_url "/") admitted

  -- `except OidcError`, around the exchange alone.
  unfoldable pub explain : Exc → Handler (Result Fields)
  explain (failure message) = pure (err (failure message))
  explain e = raise e

  unfoldable pub greet : OidcState → Result Fields → Handler Redirect
  greet row (ok claims) = welcome row claims
  greet row (err (failure message)) = pure (oidc_failure message)
  greet row (err e) = raise e

  unfoldable pub answer_state : String → OidcState → Handler Redirect
  answer_state code row = do
    time ← now
    if leb row.expires_at time
        then pure (oidc_failure "this login request expired; please try again")
        else catch (identify code row >>= λ claims. pure (ok claims)) explain >>= greet row

  -- The state row is used once: it is deleted before anything is done with the code.
  unfoldable pub redeem : String → String → Option OidcState → Handler Redirect
  redeem code state none =
      pure (oidc_failure "this login request is unknown or has already been used")
  redeem code state (some row) = do write (remove_state state); commit; answer_state code row

  unfoldable pub oidc_callback :
      Option String → Option String → Option String → Option String → Handler Redirect
  oidc_callback code state error error_description =
      if not (is_empty (optional_text error))
      then pure (oidc_failure (join ": " (present error (present error_description []))))
      else if is_empty (optional_text code)
      then pure (oidc_failure "the provider did not return an authorization code")
      else if is_empty (optional_text state)
      then pure (oidc_failure "the provider did not return an authorization code")
      else (do
        row ← gets (state_of (optional_text state))
        redeem (optional_text code) (optional_text state) row)

  -- A discovery that failed is told, not raised.
  unfoldable pub previewed : Exc → Handler Preview
  previewed (failure detail) =
      pure (record { is_ok = false; detail = detail; issuer = null; authorization_endpoint = null })
  previewed e = raise e

  unfoldable pub oidc_preview : Caller → Handler Preview
  oidc_preview caller = do
    require_admin p caller.authorization caller.cookie
    if is_empty oidc_discovery
        then pure (record {
          is_ok = false;
          detail =
              "Set the Entra directory (tenant) ID, or a discovery URL for a generic provider.";
          issuer = null;
          authorization_endpoint = null;
        })
        else catch
            (fetch_discovery p oidc_discovery >>= λ document. pure (record {
              is_ok = true;
              detail = "Discovery succeeded.";
              issuer = get "issuer" document;
              authorization_endpoint = get "authorization_endpoint" document;
            }))
            previewed

  -- Who is signed in, and which logins there are.
  unfoldable pub auth_status : Option String → Handler Status
  auth_status cookie = do
    user ← resolve_session cookie
    users ← count_users
    pure (record {
      auth_required = p.settings.auth_required;
      local_login_enabled = ltb 0 users;
      oidc_enabled = oidc_configured;
      oidc_provider = p.settings.oidc_provider;
      token_auth_enabled = not (is_empty p.settings.admin_token);
      needs_setup = eqb users 0;
      oidc_redirect_uri = redirect_uri;
      user = view_of user;
    })
    where
      view_of : Option User → Option UserView
      view_of none = none
      view_of (some user) = some (user_view p user)
