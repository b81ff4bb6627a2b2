-- ===== src/Management/Accounts/Guards.antt =====
-- What the login, the first-run setup and the administration of users require and leave behind
-- (management/auth_api.py).
use Prim.Native.String.{count}
use acme_lan.Prelude.{
  String, ◌≡◌, refl, ap, sym, select, List, Bool, true, false, not, Option, none, some, inl, inr,
  ◌==◌, ◌⊎◌, eqb, ltb, leb, length, Bool-cases, arith, ◌<◌,
}
use acme_lan.Prelude.Text.{is_empty}
use acme_lan.Platform.{Platform}
use acme_lan.Exec.{ok, or_raise, ◌>>=◌}
use acme_lan.Exec.Returns.{bind_returned, or_raise_returned, require_returned, gets-bind}
use acme_lan.Table.{find, find-select, find-remove, key-find}
use acme_lan.Models.Rows.{User, UserSession, World}
use acme_lan.Models.Session.{Handler, write, commit}
use acme_lan.Acme.Errors.{http}
use acme_lan.Users.{
  first_row, user_of, admit, authenticate, get_user_by_username, verify_password, count_users,
  end_sessions_for_user, resolve_session, hash_password, default_iterations,
}
use acme_lan.Users.Access.{InForce, resolve_session_sound}
use acme_lan.Management.Auth.Gate.{require_user-InForce}
use acme_lan.Management.Auth.{require_admin, require_user}
use acme_lan.Management.Accounts.{
  SessionCookie, UserView, Caller, UserUpdate, login, sign_in, first_user, change_user,
  set_password, set_disabled, update_user, delete_user, delete_counted, change_own_password,
  set_admin, set_stripped_email, set_email, long_enough, long_enough_if,
}

-- No session of the table is one of a user.
pub NoSessionOf : String → List UserSession → Type 0
NoSessionOf id sessions =
    (token : String) (row : UserSession)
    → find (λ s. s.token) token sessions ≡ some row
    → row.user_id == id ≡ false

select-NoSessionOf :
    (id : String) (sessions : List UserSession)
    → NoSessionOf id (select (λ s. not (s.user_id == id)) sessions)
unfolding NoSessionOf
select-NoSessionOf id sessions token row e =
    let other = find-select (λ x. x.token) (λ x. not (x.user_id == id)) token sessions e in
    ground (arith, other)

set_disabled-NoSessionOf :
    (b : Option Bool) (user : User) (w : World)
    → (b ≡ some true) ⊎ NoSessionOf user.id w.tx.sessions
    → NoSessionOf user.id (set_disabled b user w).1.tx.sessions
unfolding set_disabled end_sessions_for_user commit write ◌>>=◌
set_disabled-NoSessionOf none user w (inl e) = cc
set_disabled-NoSessionOf none user w (inr h) = h
set_disabled-NoSessionOf (some true) user w why = select-NoSessionOf user.id w.tx.sessions
set_disabled-NoSessionOf (some false) user w (inl e) = cc
set_disabled-NoSessionOf (some false) user w (inr h) = h

module _ (p : Platform) where
  admit_sound :
      (password : String) (found : Option User) {u : User}
      → admit p password found ≡ some u
      → (found ≡ some u)
        × (u.disabled ≡ false)
        × (verify_password p password u.password_hash ≡ true)
  unfolding admit
  admit_sound password none e = cc
  admit_sound password (some x) {u} e = elim (Bool-cases x.disabled) [
    | inl off ↦ cc (rw off at e)
    | inr on ↦ elim (Bool-cases (is_empty x.password_hash)) [
      | inl bare ↦ cc (rw bare at (rw on at e))
      | inr full ↦ elim (Bool-cases (verify_password p password x.password_hash)) [
        | inr wrong ↦ cc (rw wrong at (rw full at (rw on at e)))
        | inl right ↦
            let same : x ≡ u = cc (rw right at (rw full at (rw on at e))) in
            (ap some same, rw⁻¹ same on, rw⁻¹ same right)
      ]
    ]
  ]

  -- A login that succeeds is one of the first user stored under the name, who is not disabled and
  -- whose stored hash the password matches, and it does nothing but open a session of that user.
  pub login_sound :
      (username password : String) (w : World) {answer : SessionCookie × UserView}
      → (login p username password w).0 ≡ ok answer
      → (u : User) × (first_row
            (λ x. p.sql_lower x.username == p.lower (p.strip username))
            w.tx.users
          ≡ some u)
        × (u.disabled ≡ false)
        × (verify_password p password u.password_hash ≡ true)
        × (login p username password w ≡ sign_in p u w)
  unfolding login authenticate get_user_by_username ◌>>=◌
  login_sound username password w e =
      let (u, found, rest) = or_raise_returned (admit p password _) _ (sign_in p) w e in
      let (stored, on, right) = admit_sound password _ found in (u, stored, on, right, rest)

  set_password-NoSessionOf :
      (password : Option String) (user : User) (w : World) {changed : User} {new : String}
      → password ≡ some new
      → (set_password p password user w).0 ≡ ok changed
      → NoSessionOf user.id (set_password p password user w).1.tx.sessions
  unfolding set_password end_sessions_for_user commit write ◌>>=◌
  set_password-NoSessionOf none user w new e = cc
  set_password-NoSessionOf (some password) user w new e =
      let (hash, got, rest) =
        bind_returned (hash_password p password (default_iterations p)) _ w e in
      rw rest (select-NoSessionOf user.id _)

  set_password-same :
      (password : Option String) (user : User) (w : World) {changed : User}
      → (set_password p password user w).0 ≡ ok changed
      → changed.id ≡ user.id
  unfolding set_password write end_sessions_for_user commit ◌>>=◌
  set_password-same none user w e = cc
  set_password-same (some password) user w e =
      let (hash, got, rest) =
        bind_returned (hash_password p password (default_iterations p)) _ w e in
      cc (rw rest at e)

  unchanged :
      (b : Option Bool) (email : Option String) (user : User)
      → (set_admin b (set_stripped_email p email user)).id ≡ user.id
  unfolding set_admin set_stripped_email set_email
  unchanged none none user = refl
  unchanged none (some email) user = refl
  unchanged (some b) none user = refl
  unchanged (some b) (some email) user = refl

  ended :
      (body : UserUpdate) (user u : User) (w : World)
      → (body.disabled ≡ some true) ⊎ ((password : String) × (body.password ≡ some password))
      → (set_password p body.password user w).0 ≡ ok u
      → (body.disabled ≡ some true)
        ⊎ NoSessionOf user.id (set_password p body.password user w).1.tx.sessions
  ended body user u w (inl off) e = inl off
  ended body user u w (inr (password, new)) e =
      inr (set_password-NoSessionOf body.password user w new e)

  change_user-NoSessionOf :
      (body : UserUpdate) (user : User) (w : World) {changed : User}
      → (body.disabled ≡ some true) ⊎ ((password : String) × (body.password ≡ some password))
      → (change_user p body user w).0 ≡ ok changed
      → NoSessionOf user.id (change_user p body user w).1.tx.sessions
  unfolding change_user write commit ◌>>=◌
  change_user-NoSessionOf body user w why e =
      let (u, got, rest) = bind_returned (set_password p body.password user) _ w e in
      let (v, changed, end) =
        bind_returned
          (set_disabled body.disabled (set_admin body.is_admin (set_stripped_email p body.email u)))
          _ _ (rw rest at e) in
      let same : (set_admin body.is_admin (set_stripped_email p body.email u)).id ≡ user.id =
        cc (unchanged body.is_admin body.email u, set_password-same body.password user w got) in
      rw (rest, end, sym same)
        (set_disabled-NoSessionOf body.disabled _ _ (rw same (ended body user u w why got)))

  change_found-NoSessionOf :
      (user_id : String) (body : UserUpdate) (v : World) (rest : User → Handler UserView)
      {view : UserView}
      → ((user : User) (s : World) → (rest user s).1 ≡ s)
      → (body.disabled ≡ some true) ⊎ ((password : String) × (body.password ≡ some password))
      → ((or_raise (user_of user_id v) (http 404 "User not found") >>= λ user.
            change_user p body user >>= rest)
          v).0
        ≡ ok view
      → NoSessionOf user_id
          ((or_raise (user_of user_id v) (http 404 "User not found") >>= λ user.
              change_user p body user >>= rest)
            v).1.tx.sessions
  change_found-NoSessionOf user_id body v rest still why e =
      let (user, stored, one) =
        or_raise_returned (user_of user_id v) _ (λ user. change_user p body user >>= rest) v e in
      let (changed, got, two) = bind_returned (change_user p body user) rest v (rw one at e) in
      let same : user.id ≡ user_id = key-find (λ (x : User). x.id) user_id v.tx.users stored in
      rw (one, two, still, sym same) (change_user-NoSessionOf body user v why got)

  -- After an update that sets a password or disables a user, no token resolves to that user.
  pub update_user-resolve_session :
      (user_id : String) (body : UserUpdate) (caller : Caller) (w : World) {view : UserView}
      → (body.disabled ≡ some true) ⊎ ((password : String) × (body.password ≡ some password))
      → (update_user p user_id body caller w).0 ≡ ok view
      → (token : String) (u : User)
      → (resolve_session (some token) (update_user p user_id body caller w).1).0 ≡ ok (some u)
      → u.id == user_id ≡ false
  unfolding update_user NoSessionOf ◌>>=◌
  update_user-resolve_session user_id body caller w why e token u found =
      let (_, _, one) = bind_returned (require_admin p caller.authorization caller.cookie) _ w e in
      let (_, _, two) = bind_returned (long_enough_if body.password) _ _ (rw one at e) in
      let gone : NoSessionOf user_id (update_user p user_id body caller w).1.tx.sessions =
        rw (one, two)
          (change_found-NoSessionOf user_id body _ _ (λ _ _. refl) why (rw two at (rw one at e))) in
      let h = resolve_session_sound token _ u found in
      let same = key-find (λ (x : User). x.id) h.row.user_id _ h.user in
      rw same (gone token h.row h.found)

  delete_found_lem :
      (user_id : String) (v : World) {done : Unit {0}}
      → ((or_raise (user_of user_id v) (http 404 "User not found") >>= delete_counted) v).0
        ≡ ok done
      → (1 < length v.tx.users)
        × (user_of user_id
              ((or_raise (user_of user_id v) (http 404 "User not found") >>= delete_counted) v).1
            ≡ none)
        × NoSessionOf user_id
            ((or_raise (user_of user_id v) (http 404 "User not found") >>= delete_counted)
              v).1.tx.sessions
  unfolding delete_counted count_users end_sessions_for_user write commit ◌>>=◌
  delete_found_lem user_id v e =
      let (user, stored, one) = or_raise_returned (user_of user_id v) _ delete_counted v e in
      let (many, two) = require_returned (ltb 1 (length v.tx.users)) _ _ v (rw one at e) in
      let same : user.id ≡ user_id = key-find (λ (x : User). x.id) user_id v.tx.users stored in
      (
        ground (arith, many),
        rw (one, two, same) (find-remove (λ (x : User). x.id) user_id v.tx.users),
        rw (one, two, same) (select-NoSessionOf user_id v.tx.sessions),
      )

  -- A deletion was one of a stored user among several, and it leaves neither the user nor a
  -- session of the user.
  pub delete_user_lem :
      (user_id : String) (caller : Caller) (w : World) {done : Unit {0}}
      → (delete_user p user_id caller w).0 ≡ ok done
      → (1 < length (require_admin p caller.authorization caller.cookie w).1.tx.users)
        × (user_of user_id (delete_user p user_id caller w).1 ≡ none)
        × NoSessionOf user_id (delete_user p user_id caller w).1.tx.sessions
  unfolding delete_user ◌>>=◌
  delete_user_lem user_id caller w e =
      let (_, _, one) = bind_returned (require_admin p caller.authorization caller.cookie) _ w e in
      rw one (delete_found_lem user_id _ (rw one at e))

  -- A user who changes the password is the one of a session in force and knew the stored one.
  pub change_own_password_guard :
      (current_password new_password : String) (caller : Caller) (w : World) {done : Unit {0}}
      → (change_own_password p current_password new_password caller w).0 ≡ ok done
      → (token : String) × (u : User) × (caller.cookie ≡ some token)
        × InForce token w u
        × (verify_password p current_password u.password_hash ≡ true)
        × (leb 8 (count new_password) ≡ true)
  unfolding change_own_password long_enough
  change_own_password_guard current_password new_password caller w e =
      let (u, admitted, one) =
        bind_returned (require_user p caller.authorization caller.cookie) _ w e in
      let (long, two) = require_returned (leb 8 (count new_password)) _ _ _ (rw one at e) in
      let (right, _) =
        require_returned (verify_password p current_password u.password_hash) _ _ _
          (rw two at (rw one at e)) in
      let (token, same, h) = require_user-InForce p caller.authorization caller.cookie w admitted in
      (token, u, same, h, right, long)

  -- The first administrator can be created only while there are no users.
  pub first_user_guard :
      (username password email : String) (w : World) {answer : SessionCookie × UserView}
      → (first_user p username password email w).0 ≡ ok answer
      → (length w.tx.users ≡ 0) × (leb 8 (count password) ≡ true)
  unfolding first_user long_enough count_users
  first_user_guard username password email w e =
      let (long, rest) = require_returned (leb 8 (count password)) _ _ w e in
      let (none_yet, _) =
        require_returned (eqb (length w.tx.users) 0) _ _ w
          (rw (gets-bind (λ (v : World). length v.tx.users) _ w) at (rw rest at e)) in
      (ground (arith, none_yet), long)
