-- ===== src/Management/Accounts.antt =====
-- management/auth_api.py, without OIDC: login, first-run setup, and the administration of users.
pub mod Guards
use Prim.Native.String.{◌++◌, count}
use acme_lan.Prelude.{
  ℕ, ◌*◌, String, Bool, true, false, not, Option, none, some, List, [], ◌∷◌, ◌==◌, ltb, leb, eqb,
  map, if◌then◌else◌,
}
use acme_lan.Prelude.Text.{is_empty}
use acme_lan.Json.{str}
use acme_lan.Platform.{Platform}
use acme_lan.Exec.{pure, raise, gets, or_raise, require, ◌>>=◌, ◌>>◌}
use acme_lan.Table.{remove}
use acme_lan.Models.Rows.{User, UserSession, Tables, World}
use acme_lan.Models.Session.{Handler, commit, write}
use acme_lan.Acme.Errors.{http}
use acme_lan.Users.{
  user_of, put_user, count_users, get_user_by_username, create_user, authenticate, start_session,
  end_session, end_sessions_for_user, hash_password, verify_password, default_iterations,
  resolve_session,
}
use acme_lan.Management.Auth.{require_admin, require_user}

pub record UserView : Type 0 where
  pub id : String
  pub username : String
  pub email : String
  pub provider : String
  pub is_admin : Bool
  pub disabled : Bool
  pub has_password : Bool
  pub last_login_at : Option String

pub record SessionCookie : Type 0 where
  pub token : String
  pub max_age : ℕ
  pub secure : Bool

-- The credentials of a request to the management API.
pub record Caller : Type 0 where
  pub authorization : Option String
  pub cookie : Option String

-- The bodies of requests; a password that is shorter than eight characters is refused with 422
-- before the handler runs.
pub record UserCreate : Type 0 where
  pub username : String
  pub password : String
  pub email : String
  pub is_admin : Bool

pub record UserUpdate : Type 0 where
  pub password : Option String
  pub email : Option String
  pub is_admin : Option Bool
  pub disabled : Option Bool

unfoldable pub long_enough : String → Handler (Unit {0})
long_enough password = require (leb 8 (count password)) (http 422 "password is too short")

unfoldable pub long_enough_if : Option String → Handler (Unit {0})
long_enough_if none = pure tt
long_enough_if (some password) = long_enough password

-- Rows by creation.
unfoldable pub insert_by_creation : User → List User → List User
insert_by_creation u [] = u ∷ []
insert_by_creation u (v ∷ rows) =
    let rest = insert_by_creation u rows in
    if leb u.created_at v.created_at then u ∷ v ∷ rows else v ∷ rest

unfoldable pub by_creation : List User → List User
by_creation [] = []
by_creation (u ∷ rows) = insert_by_creation u (by_creation rows)

abbrev pub remove_user : String → Tables → Tables
remove_user id t = record t { users = remove (λ x. x.id) id t.users }

unfoldable pub set_email : String → User → User
set_email email user = record user { email = email }

unfoldable pub set_admin : Option Bool → User → User
set_admin none user = user
set_admin (some b) user = record user { is_admin = b }

-- A user who is disabled loses the sessions.
unfoldable pub set_disabled : Option Bool → User → Handler User
set_disabled none user = pure user
set_disabled (some b) user =
    if b
    then (do
      write (put_user (record user { disabled = true }))
      end_sessions_for_user user.id
      pure (record user { disabled = true }))
    else pure (record user { disabled = false })

-- The last user is kept.
unfoldable pub delete_counted : User → Handler (Unit {0})
delete_counted user = do
  n ← count_users
  require (ltb 1 n) (http 409 "Refusing to delete the last user; you would be locked out")
  end_sessions_for_user user.id
  write (remove_user user.id)
  commit

module _ (p : Platform) where
  abbrev iso_or_none : Option ℕ → Option String
  iso_or_none none = none
  iso_or_none (some time) = some (p.iso_format time)

  unfoldable pub user_view : User → UserView
  user_view user = record {
    id = user.id;
    username = user.username;
    email = user.email;
    provider = user.provider;
    is_admin = user.is_admin;
    disabled = user.disabled;
    has_password = not (is_empty user.password_hash);
    last_login_at = iso_or_none user.last_login_at;
  }

  unfoldable pub session_cookie : String → SessionCookie
  session_cookie token = record {
    token = token;
    max_age = p.settings.session_lifetime_hours * 3600;
    secure = p.is_https p.settings.external_url;
  }

  -- A session for a user, with the view of the user after it.
  unfoldable pub sign_in : User → Handler (SessionCookie × UserView)
  sign_in user = do
    row ← start_session p user p.settings.session_lifetime_hours
    pure (session_cookie row.token, user_view (record user { last_login_at = some row.created_at }))

  unfoldable pub login : String → String → Handler (SessionCookie × UserView)
  login username password = do
    found ← authenticate p username password
    user ← or_raise found (http 401 "Incorrect username or password")
    sign_in user

  unfoldable pub logout : Option String → Handler (Unit {0})
  logout cookie = end_session cookie

  unfoldable pub first_user : String → String → String → Handler (SessionCookie × UserView)
  first_user username password email = do
    long_enough password
    n ← count_users
    require (eqb n 0) (http 409 "Users already exist; sign in and add users from Settings")
    user ← create_user p username (some password) email "local" none true
    sign_in user

  unfoldable pub list_users : Caller → Handler (List UserView)
  list_users caller = do
    require_admin p caller.authorization caller.cookie
    gets (λ w. map user_view (by_creation w.tx.users))

  abbrev pub no_user : Option User → Bool
  no_user none = true
  no_user (some _) = false

  unfoldable pub add_user : UserCreate → Caller → Handler UserView
  add_user body caller = do
    require_admin p caller.authorization caller.cookie
    long_enough body.password
    found ← get_user_by_username p body.username
    require (no_user found)
        (http 409 ("User " ++ (p.repr (str body.username) ++ " already exists")))
    user ← create_user p body.username (some body.password) body.email "local" none body.is_admin
    pure (user_view user)

  -- A password change ends the sessions of the user.
  unfoldable pub set_password : Option String → User → Handler User
  set_password none user = pure user
  set_password (some password) user = do
    hash ← hash_password p password (default_iterations p)
    write (put_user (record user { password_hash = hash }))
    end_sessions_for_user user.id
    pure (record user { password_hash = hash })

  unfoldable pub set_stripped_email : Option String → User → User
  set_stripped_email none user = user
  set_stripped_email (some email) user = set_email (p.strip email) user

  unfoldable pub change_user : UserUpdate → User → Handler User
  change_user body user = do
    with_password ← set_password body.password user
    changed ←
        set_disabled body.disabled
          (set_admin body.is_admin (set_stripped_email body.email with_password))
    write (put_user changed)
    commit
    pure changed

  unfoldable pub update_user : String → UserUpdate → Caller → Handler UserView
  update_user user_id body caller = do
    require_admin p caller.authorization caller.cookie
    long_enough_if body.password
    found ← gets (user_of user_id)
    user ← or_raise found (http 404 "User not found")
    changed ← change_user body user
    pure (user_view changed)

  unfoldable pub delete_user : String → Caller → Handler (Unit {0})
  delete_user user_id caller = do
    require_admin p caller.authorization caller.cookie
    found ← gets (user_of user_id)
    user ← or_raise found (http 404 "User not found")
    delete_counted user

  unfoldable pub change_own_password : String → String → Caller → Handler (Unit {0})
  change_own_password current_password new_password caller = do
    user ← require_user p caller.authorization caller.cookie
    long_enough new_password
    require (verify_password p current_password user.password_hash)
        (http 403 "Current password is incorrect")
    hash ← hash_password p new_password (default_iterations p)
    write (put_user (record user { password_hash = hash }))
    commit
