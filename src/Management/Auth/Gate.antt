-- ===== src/Management/Auth/Gate.antt =====
-- Whom `require_admin` lets through (management/auth.py).
use Prim.Native.String.{◌++◌}
use acme_lan.Prelude.{
  String, ◌≡◌, refl, ap, true, false, Option, none, some, inl, inr, ◌==◌, Bool-cases, eq_iff,
}
use acme_lan.Prelude.Text.{is_empty}
use acme_lan.Platform.{Platform}
use acme_lan.Exec.{ok, or_raise, ◌>>=◌}
use acme_lan.Exec.Returns.{bind_returned, bind_ok}
use acme_lan.Models.Rows.{User, World}
use acme_lan.Acme.Errors.{Exc}
use acme_lan.Users.{resolve_session}
use acme_lan.Users.Access.{InForce, resolve_session_sound, InForce-resolves}
use acme_lan.Management.Auth.{
  anonymous, signed_in, by_session, by_token, require_admin, require_user,
}

given :
    (found : Option User) (x : Exc) (w : World) {u : User}
    → (or_raise found x w).0 ≡ ok u
    → found ≡ some u
unfolding or_raise
given none x w e = cc
given (some v) x w e = cc

module _ (p : Platform) where
  -- Why a request may pass: by the configured token, by a session in force, or because the server
  -- asks for neither.
  pub data Admitted (authorization cookie : Option String) (w : World) : Option User → Type 0 where
    by_bearer :
        is_empty p.settings.admin_token ≡ false
        → authorization ≡ some ("Bearer " ++ p.settings.admin_token)
        → Admitted authorization cookie w none
    by_login :
        {u : User} (token : String)
        → cookie ≡ some token
        → InForce token w u
        → Admitted authorization cookie w (some u)
    unguarded :
        p.settings.auth_required ≡ false
        → is_empty p.settings.admin_token ≡ true
        → Admitted authorization cookie w none

  anonymous-Admitted :
      (authorization cookie : Option String) (v w : World) {r : Option User}
      → (anonymous p v).0 ≡ ok r
      → Admitted authorization cookie w r
  unfolding anonymous ◌>>=◌
  anonymous-Admitted authorization cookie v w {r} e = elim (Bool-cases p.settings.auth_required) [
    | inl asked ↦ cc (rw asked at e)
    | inr free ↦ elim (Bool-cases (is_empty p.settings.admin_token)) [
      | inl absent ↦
          let same : none ≡ r = cc (rw absent at (rw free at e)) in
          rw⁻¹ same (unguarded free absent)
      | inr present ↦ cc (rw present at (rw free at e))
    ]
  ]

  cookie-Admitted :
      (authorization cookie : Option String) (w : World) {u : User}
      → (resolve_session cookie w).0 ≡ ok (some u)
      → Admitted authorization cookie w (some u)
  unfolding resolve_session ◌>>=◌
  cookie-Admitted authorization none w e = cc
  cookie-Admitted authorization (some token) w {u} e =
      by_login token refl (resolve_session_sound token w u e)

  signed_in-Admitted :
      (authorization cookie : Option String) (w v : World) (found : Option User) {r : Option User}
      → (resolve_session cookie w).0 ≡ ok found
      → (signed_in p found v).0 ≡ ok r
      → Admitted authorization cookie w r
  unfolding signed_in ◌>>=◌
  signed_in-Admitted authorization cookie w v none e s =
      anonymous-Admitted authorization cookie v w s
  signed_in-Admitted authorization cookie w v (some u) {r} e s =
      let same : some u ≡ r = cc s in rw⁻¹ same (cookie-Admitted authorization cookie w e)

  by_session-Admitted :
      (authorization cookie : Option String) (w : World) {r : Option User}
      → (by_session p cookie w).0 ≡ ok r
      → Admitted authorization cookie w r
  unfolding by_session
  by_session-Admitted authorization cookie w e =
      let (found, got, rest) = bind_returned (resolve_session cookie) (signed_in p) w e in
      signed_in-Admitted authorization cookie w _ found got (rw rest at e)

  -- A request to the management API passes only with the configured bearer token, with the
  -- session in force of the user that is returned, or when no login is required and no token
  -- configured.
  pub require_admin-Admitted :
      (authorization cookie : Option String) (w : World) {r : Option User}
      → (require_admin p authorization cookie w).0 ≡ ok r
      → Admitted authorization cookie w r
  unfolding require_admin by_token ◌>>=◌
  require_admin-Admitted none cookie w e = by_session-Admitted none cookie w e
  require_admin-Admitted (some authorization) cookie w {r} e =
      elim (Bool-cases (is_empty p.settings.admin_token)) [
        | inl absent ↦ by_session-Admitted (some authorization) cookie w (rw absent at e)
        | inr present ↦ elim (Bool-cases (is_empty authorization)) [
          | inl blank ↦
              by_session-Admitted (some authorization) cookie w (rw blank at (rw present at e))
          | inr full ↦ elim (Bool-cases (authorization == ("Bearer " ++ p.settings.admin_token))) [
            | inl same ↦
                let passed : none ≡ r = cc (rw same at (rw full at (rw present at e))) in
                rw⁻¹ passed (
                  by_bearer present
                    (ap some ((eq_iff authorization ("Bearer " ++ p.settings.admin_token)).0 same)))
            | inr other ↦ cc (rw other at (rw full at (rw present at e)))
          ]
        ]
      ]

  -- Without an `Authorization` header, a session in force admits its user.
  pub require_admin-InForce :
      (token : String) (w : World) (u : User)
      → is_empty token ≡ false
      → InForce token w u
      → (require_admin p none (some token) w).0 ≡ ok (some u)
  unfolding require_admin by_session signed_in ◌>>=◌
  require_admin-InForce token w u full h =
      rw
        (bind_ok (resolve_session (some token)) (signed_in p) w (InForce-resolves token w u full h))
        refl

  login_of :
      (authorization cookie : Option String) (w : World) {u : User}
      → Admitted authorization cookie w (some u)
      → (token : String) × (cookie ≡ some token) × InForce token w u
  login_of authorization cookie w (by_login token same h) = (token, same, h)

  -- An action that needs a user is done for the user of a session in force.
  pub require_user-InForce :
      (authorization cookie : Option String) (w : World) {u : User}
      → (require_user p authorization cookie w).0 ≡ ok u
      → (token : String) × (cookie ≡ some token) × InForce token w u
  unfolding require_user
  require_user-InForce authorization cookie w e =
      let (found, admitted, rest) = bind_returned (require_admin p authorization cookie) _ w e in
      let same = given found _ _ (rw rest at e) in
      login_of authorization cookie w
        (require_admin-Admitted authorization cookie w (rw same at admitted))
