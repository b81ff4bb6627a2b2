-- ===== src/Management/SingleSignOn/Frame.antt =====
-- What the callback of a login leaves alone, for any property of the world that the steps on users
-- and sessions keep (management/auth_api.py, oidc.py, users.py).
use acme_lan.Prelude.{ℕ, String, Option, none, some, Bool, not}
use acme_lan.Prelude.Text.{is_empty}
use acme_lan.Json.{Fields}
use acme_lan.Platform.{Platform}
use acme_lan.Exec.{Result, ok, err}
use acme_lan.Exec.Keeps.{
  Keeps, Keeps-catch, Keeps-lift, Keeps-gets, Keeps-or_raise, Keeps-require, Keeps-if, Keeps-raise,
  Keeps-pure, ◌⨾◌,
}
use acme_lan.Acme.Errors.{Exc, acme, http, failure, uncaught}
use acme_lan.Models.Rows.{User, UserSession, OidcState, World}
use acme_lan.Models.Session.{commit, draw, now, write}
use acme_lan.Users.{
  put_user, put_session, purge_expired_sessions, get_user_by_oidc, create_user, start_session,
  password_hash_of,
}
use acme_lan.Oidc.{fetch_discovery, exchange_code}
use acme_lan.Management.SingleSignOn.{
  check_token, identify, known_user, new_user, user_for, admit_identity, finish, welcome, explain,
  greet, answer_state, is_allowed,
}

-- A property that each step of a login keeps.
pub record Undisturbed (P : World → Type 0) : Type 0 where
  pub draws : Keeps P draw
  pub commits : Keeps P commit
  pub users : (u : User) → Keeps P (write (put_user u))
  pub sessions : (s : UserSession) → Keeps P (write (put_session s))
  pub purges : Keeps P purge_expired_sessions

Keeps-now : {P : World → Type 0} → Keeps P now
unfolding now
Keeps-now = Keeps-gets _

module _ (p : Platform) {P : World → Type 0} (undisturbed : Undisturbed P) where
  pub Keeps-fetch_discovery : (url : String) → Keeps P (fetch_discovery p url)
  unfolding fetch_discovery
  Keeps-fetch_discovery url = Keeps-require _ _ ⨾ λ _.
      undisturbed.draws ⨾ λ _. Keeps-or_raise _ _ ⨾ λ _. Keeps-require _ _ ⨾ λ _. Keeps-lift _

  pub Keeps-exchange_code :
      (document : Fields) (code client_id client_secret redirect_uri code_verifier : String)
      → Keeps P (exchange_code p document code client_id client_secret redirect_uri code_verifier)
  unfolding exchange_code
  Keeps-exchange_code document code client_id client_secret redirect_uri code_verifier =
      undisturbed.draws ⨾ λ _. Keeps-or_raise _ _ ⨾ λ _. Keeps-require _ _ ⨾ λ _. Keeps-lift _

  Keeps-check_token :
      (row : OidcState) (document tokens : Fields) → Keeps P (check_token p row document tokens)
  unfolding check_token
  Keeps-check_token row document tokens = Keeps-lift _ ⨾ λ _.
      Keeps-lift _ ⨾ λ _. Keeps-lift _ ⨾ λ _. Keeps-now ⨾ λ _. Keeps-lift _ ⨾ λ _. Keeps-pure _

  Keeps-identify : (code : String) (row : OidcState) → Keeps P (identify p code row)
  unfolding identify
  Keeps-identify code row = Keeps-fetch_discovery _ ⨾ λ _.
      Keeps-exchange_code _ _ _ _ _ _ ⨾ λ _. Keeps-check_token row _ _

  Keeps-create_user :
      (username email provider : String) (subject : Option String) (is_admin : Bool)
      → Keeps P (create_user p username none email provider subject is_admin)
  unfolding create_user password_hash_of
  Keeps-create_user username email provider subject is_admin = Keeps-pure _ ⨾ λ _.
      undisturbed.draws ⨾ λ _.
      Keeps-now ⨾ λ _. undisturbed.users _ ⨾ λ _. undisturbed.commits ⨾ λ _. Keeps-pure _

  Keeps-start_session : (user : User) (hours : ℕ) → Keeps P (start_session p user hours)
  unfolding start_session
  Keeps-start_session user hours = undisturbed.purges ⨾ λ _. undisturbed.draws ⨾ λ _.
      Keeps-now ⨾ λ _. undisturbed.sessions _ ⨾ λ _.
      undisturbed.users _ ⨾ λ _. undisturbed.commits ⨾ λ _. Keeps-pure _

  Keeps-user_for :
      (subject email name : String) (found : Option User)
      → Keeps P (user_for p subject email name found)
  unfolding user_for new_user known_user
  Keeps-user_for subject email name none =
      Keeps-if _ _ _ (Keeps-create_user _ _ _ _ _ ⨾ λ _. Keeps-pure _) (Keeps-pure _)
  Keeps-user_for subject email name (some user) = Keeps-if _ _ _ (Keeps-pure _) (
      Keeps-if _ _ _ (undisturbed.users _ ⨾ λ _. undisturbed.commits ⨾ λ _. Keeps-pure _)
        (Keeps-pure _))

  Keeps-get_user : (subject email : String) → Keeps P (get_user_by_oidc p subject email)
  unfolding get_user_by_oidc
  Keeps-get_user subject email = Keeps-gets _

  Keeps-admit_identity :
      (subject email name : String) → Keeps P (admit_identity p subject email name)
  unfolding admit_identity
  Keeps-admit_identity subject email name = Keeps-if (is_empty subject) _ _ (Keeps-pure _) (
      Keeps-if (not (is_allowed p email)) _ _ (Keeps-pure _)
        (Keeps-get_user subject email ⨾ λ found. Keeps-user_for subject email name found))

  Keeps-finish : (next_url : String) (admitted : Result User) → Keeps P (finish p next_url admitted)
  unfolding finish
  Keeps-finish next_url (ok user) = Keeps-start_session user _ ⨾ λ _. Keeps-pure _
  Keeps-finish next_url (err (failure message)) = Keeps-pure _
  Keeps-finish next_url (err (acme _)) = Keeps-raise _
  Keeps-finish next_url (err (http _ _)) = Keeps-raise _
  Keeps-finish next_url (err uncaught) = Keeps-raise _

  Keeps-welcome : (row : OidcState) (claims : Fields) → Keeps P (welcome p row claims)
  unfolding welcome
  Keeps-welcome row claims = Keeps-admit_identity _ _ _ ⨾ λ _. Keeps-finish _ _

  Keeps-explain : (e : Exc) → Keeps P (explain p e)
  unfolding explain
  Keeps-explain (failure message) = Keeps-pure _
  Keeps-explain (acme _) = Keeps-raise _
  Keeps-explain (http _ _) = Keeps-raise _
  Keeps-explain uncaught = Keeps-raise _

  Keeps-greet : (row : OidcState) (found : Result Fields) → Keeps P (greet p row found)
  unfolding greet
  Keeps-greet row (ok claims) = Keeps-welcome row claims
  Keeps-greet row (err (failure message)) = Keeps-pure _
  Keeps-greet row (err (acme _)) = Keeps-raise _
  Keeps-greet row (err (http _ _)) = Keeps-raise _
  Keeps-greet row (err uncaught) = Keeps-raise _

  pub Keeps-answer_state : (code : String) (row : OidcState) → Keeps P (answer_state p code row)
  unfolding answer_state
  Keeps-answer_state code row = Keeps-now ⨾ λ _. Keeps-if _ _ _ (Keeps-pure _) (
      Keeps-catch _ _ (Keeps-identify code row ⨾ λ _. Keeps-pure _) Keeps-explain ⨾ λ _.
      Keeps-greet row _)
