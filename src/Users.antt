-- ===== src/Users.antt =====
-- users.py: passwords, local users and the sessions of the dashboard.
pub mod Access
pub mod Hashes
use Prim.Native.Char.{code}
use Prim.Native.String
use Prim.Native.String.{◌++◌}
use acme_lan.Prelude.{
  ℕ, String, Bool, true, false, not, ◌&&◌, ◌+◌, ◌*◌, Option, none, some, List, ◌==◌, eqb, ltb, leb,
  select, length, if◌then◌else◌,
}
use acme_lan.Prelude.Text.{is_empty}
use acme_lan.Platform.{Platform, Bytes}
use acme_lan.Exec.{pure, raise, gets, ◌>>=◌, ◌>>◌}
use acme_lan.Table.{find, put, remove}
use acme_lan.Models.Rows.{User, UserSession, Tables, World}
use acme_lan.Models.Session.{Handler, commit, now, draw, write}
use acme_lan.Validators.{same_bytes}
use acme_lan.Acme.Errors.{uncaught}

abbrev pub algorithm : String
algorithm = "pbkdf2_sha256"

-- `text.split(c)`.
unfoldable pub split : ℕ → String → List String
split c String.[] = List.◌∷◌ "" List.[]
split c (String.◌∷◌ x s) =
    let rest = split c s in
    if eqb (code x) c
    then List.◌∷◌ "" rest
    else elim rest [ List.[] ↦ List.[] | List.◌∷◌ part parts ↦ List.◌∷◌ (String.◌∷◌ x part) parts ]

abbrev pub user_of : String → World → Option User
user_of id w = find (λ u. u.id) id w.tx.users

abbrev pub session_of : String → World → Option UserSession
session_of token w = find (λ s. s.token) token w.tx.sessions

abbrev pub put_user : User → Tables → Tables
put_user u t = record t { users = put (λ x. x.id) u t.users }

abbrev pub put_session : UserSession → Tables → Tables
put_session s t = record t { sessions = put (λ x. x.token) s t.sessions }

abbrev pub remove_session : String → Tables → Tables
remove_session token t = record t { sessions = remove (λ x. x.token) token t.sessions }

abbrev pub keep_sessions : (UserSession → Bool) → Tables → Tables
keep_sessions test t = record t { sessions = select test t.sessions }

-- The first row that a query selects.
unfoldable pub first_row : (User → Bool) → List User → Option User
first_row test List.[] = none
first_row test (List.◌∷◌ u rows) = if test u then some u else first_row test rows

abbrev pub hour : ℕ
hour = 3600000000

-- `max(1, hours)`.
unfoldable pub at_least_one : ℕ → ℕ
at_least_one hours = if eqb hours 0 then 1 else hours

unfoldable pub purge_expired_sessions : Handler (Unit {0})
purge_expired_sessions = do time ← now; write (keep_sessions (λ s. not (leb s.expires_at time)))

unfoldable pub end_session : Option String → Handler (Unit {0})
end_session none = pure tt
end_session (some token) =
    if is_empty token then pure tt else do found ← gets (session_of token); end_found token found
  where
    end_found : String → Option UserSession → Handler (Unit {0})
    end_found token none = pure tt
    end_found token (some row) = do write (remove_session token); commit

unfoldable pub end_sessions_for_user : String → Handler (Unit {0})
end_sessions_for_user user_id = do write (keep_sessions (λ s. not (s.user_id == user_id))); commit

-- `user is None or user.disabled`.
unfoldable pub live : Option User → Option User
live none = none
live (some user) = if user.disabled then none else some user

unfoldable pub resolve_found : String → Option UserSession → Handler (Option User)
resolve_found token none = pure none
resolve_found token (some row) = do
  time ← now
  if leb row.expires_at time
      then (do write (remove_session token); commit; pure none)
      else gets (λ w. live (user_of row.user_id w))

unfoldable pub resolve_session : Option String → Handler (Option User)
resolve_session none = pure none
resolve_session (some token) =
    if is_empty token
    then pure none
    else do found ← gets (session_of token); resolve_found token found

unfoldable pub count_users : Handler ℕ
count_users = gets (λ w. length w.tx.users)

module _ (p : Platform) where
  unfoldable pub hash_password : String → ℕ → Handler String
  hash_password password iterations =
      if is_empty password
      then raise uncaught
      else do n ← draw; hashed (p.token_bytes n) (p.pbkdf2 32 (p.token_bytes n) iterations password)
    where
      hashed : Bytes → Option Bytes → Handler String
      hashed salt none = raise uncaught
      hashed salt (some derived) = pure (
          algorithm
          ++ ("$"
              ++ (p.number_text iterations
                  ++ ("$" ++ (p.b64encode salt ++ ("$" ++ p.b64encode derived))))))

  -- The parts of a stored hash, which must be four.
  unfoldable pub check_parts : String → List String → Bool
  check_parts password
        (List.◌∷◌ alg (List.◌∷◌ iterations (List.◌∷◌ salt_b64 (List.◌∷◌ hash_b64 List.[])))) =
      if not (alg == algorithm) then false else elim (p.b64decode salt_b64) [
        | none ↦ false
        | some salt ↦ elim (p.b64decode hash_b64) [
          | none ↦ false
          | some expected ↦ elim (p.parse_int iterations) [
            | none ↦ false
            | some count ↦ elim (p.pbkdf2 (length expected) salt count password) [
              | none ↦ false
              | some derived ↦ same_bytes derived expected
            ]
          ]
        ]
      ]
  check_parts password _ = false

  unfoldable pub verify_password : String → String → Bool
  verify_password password stored =
      if is_empty password
      then false
      else if is_empty stored
      then false
      else check_parts password (split b'$' stored)

  unfoldable pub get_user_by_username : String → Handler (Option User)
  get_user_by_username username =
      gets (λ w. first_row (λ u. p.sql_lower u.username == p.lower (p.strip username)) w.tx.users)

  -- The user of an OIDC subject, or the one who has the email address already.
  unfoldable pub by_oidc : String → String → List User → Option User
  by_oidc subject email users = elim (first_row (λ u. has_subject u.oidc_subject) users) [
    | some user ↦ some user
    | none ↦
        if is_empty email
        then none
        else first_row (λ u. p.sql_lower u.email == p.lower (p.strip email)) users
  ]
    where
      has_subject : Option String → Bool
      has_subject none = false
      has_subject (some s) = s == subject

  unfoldable pub get_user_by_oidc : String → String → Handler (Option User)
  get_user_by_oidc subject email = gets (λ w. by_oidc subject email w.tx.users)

  unfoldable pub password_hash_of : Option String → ℕ → Handler String
  password_hash_of none iterations = pure ""
  password_hash_of (some password) iterations =
      if is_empty password then pure "" else hash_password password iterations

  abbrev pub default_iterations : ℕ
  default_iterations = 480000

  unfoldable pub create_user :
      String → Option String → String → String → Option String → Bool → Handler User
  create_user username password email provider oidc_subject is_admin = do
    hash ← password_hash_of password default_iterations
    n ← draw
    time ← now
    let user : User = record {
      id = p.uuid n;
      username = p.strip username;
      email = p.strip email;
      password_hash = hash;
      provider = provider;
      oidc_subject = oidc_subject;
      is_admin = is_admin;
      disabled = false;
      last_login_at = none;
      created_at = time;
    }
    write (put_user user)
    commit
    pure user

  -- `user is None or user.disabled or not user.password_hash`, and the password.
  unfoldable pub admit : String → Option User → Option User
  admit password none = none
  admit password (some user) =
      if user.disabled
      then none
      else if is_empty user.password_hash
      then none
      else if verify_password password user.password_hash
      then some user
      else none

  unfoldable pub authenticate : String → String → Handler (Option User)
  authenticate username password = do
    found ← get_user_by_username username
    pure (admit password found)

  unfoldable pub start_session : User → ℕ → Handler UserSession
  start_session user lifetime_hours = do
    purge_expired_sessions
    n ← draw
    time ← now
    let row : UserSession = record {
      token = p.token_urlsafe n;
      user_id = user.id;
      expires_at = time + at_least_one lifetime_hours * hour;
      created_at = time;
    }
    write (put_session row)
    write (put_user (record user { last_login_at = some time }))
    commit
    pure row
