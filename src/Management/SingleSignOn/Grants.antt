-- ===== src/Management/SingleSignOn/Grants.antt =====
-- Whom the claims of an OIDC login admit (management/auth_api.py, users.py).

use acme_lan.Prelude.{
  ℕ, String, ◌≡◌, ◌∙◌, refl, ap, sym, if◌then◌else◌, ◌&&◌, Bool, true, false, not, Option, none,
  some, inl, inr, Bool-cases,
}
use acme_lan.Prelude.Text.{is_empty}
use acme_lan.Platform.{Platform}
use acme_lan.Exec.{Result, ok, err, ◌>>=◌}
use acme_lan.Exec.Returns.{bind_returned}
use acme_lan.Models.Rows.{User, World}
use acme_lan.Models.Session.{now, commit}
use acme_lan.Acme.Errors.{Exc}
use acme_lan.Exec.{pure}
use acme_lan.Models.Session.{draw, write}
use acme_lan.Users.{create_user, password_hash_of, by_oidc, get_user_by_oidc}
use acme_lan.Management.SingleSignOn.{
  unbound, bind_subject, is_allowed, known_user, new_user, user_for, admit_identity,
}

abbrev disabled_of : Result User → Bool
disabled_of (ok u) = u.disabled
disabled_of (err e) = true

abbrev subject_of : Result User → Option String
subject_of (ok u) = u.oidc_subject
subject_of (err e) = none

module _ (p : Platform) where
  create_user-enabled :
      (username email : String) (subject : Option String) (w : World) {u : User}
      → (create_user p username none email "oidc" subject true w).0 ≡ ok u
      → u.disabled ≡ false
  unfolding create_user password_hash_of draw now write commit ◌>>=◌
  create_user-enabled username email subject w e = sym (ap disabled_of e)

  create_user-subject :
      (username email : String) (subject : Option String) (w : World) {u : User}
      → (create_user p username none email "oidc" subject true w).0 ≡ ok u
      → u.oidc_subject ≡ subject
  unfolding create_user password_hash_of draw now write commit pure ◌>>=◌
  create_user-subject username email subject w e = sym (ap subject_of e)

  bind_subject-enabled :
      (subject email : String) (u : User) → (bind_subject subject email u).disabled ≡ u.disabled
  unfolding bind_subject
  bind_subject-enabled subject email u = elim (Bool-cases (unbound u)) [
    | inr old ↦ rw old refl
    | inl new ↦ elim (Bool-cases (is_empty u.email && not (is_empty email))) [
      | inl bare ↦ rw (new, bare) refl
      | inr given ↦ rw (new, given) refl
    ]
  ]

  created :
      (may : Bool) (username email : String) (subject : Option String) (x : Exc) (w : World)
      {u : User}
      → ((if may
            then (create_user p username none email "oidc" subject true >>= λ user. pure (ok user))
            else pure (err x))
          w).0
        ≡ ok (ok u)
      → (may ≡ true) × (u.disabled ≡ false) × (u.oidc_subject ≡ subject)
  unfolding ◌>>=◌
  created false username email subject x w e = cc
  created true username email subject x w {u} e =
      let (v, got, rest) =
        bind_returned (create_user p username none email "oidc" subject true)
          (λ user. pure (ok user)) w e in
      let same : v ≡ u = cc (rw rest at e) in
      (
        refl,
        rw⁻¹ same (create_user-enabled username email subject w got),
        rw⁻¹ same (create_user-subject username email subject w got),
      )

  -- Whom an identity admits: the user who was found for it, who is not disabled, or a new user with
  -- its subject, where none was found and users may be created.
  pub data Granted (subject : String) (found : Option User) (u : User) : Type 0 where
    existing :
        (old : User)
        → found ≡ some old
        → old.disabled ≡ false
        → u.id ≡ old.id
        → Granted subject found u
    fresh :
        found ≡ none
        → p.settings.oidc_auto_create_users ≡ true
        → u.oidc_subject ≡ some subject
        → Granted subject found u

  bind_subject-id : (subject email : String) (u : User) → (bind_subject subject email u).id ≡ u.id
  unfolding bind_subject
  bind_subject-id subject email u = elim (Bool-cases (unbound u)) [
    | inr old ↦ rw old refl
    | inl new ↦ elim (Bool-cases (is_empty u.email && not (is_empty email))) [
      | inl bare ↦ rw (new, bare) refl
      | inr given ↦ rw (new, given) refl
    ]
  ]

  user_for-Granted :
      (subject email name : String) (found : Option User) (w : World) {u : User}
      → (user_for p subject email name found w).0 ≡ ok (ok u)
      → Granted subject found u × (u.disabled ≡ false)
  unfolding user_for new_user known_user write commit ◌>>=◌
  user_for-Granted subject email name none w e =
      let (may, on, bound) = created p.settings.oidc_auto_create_users _ _ _ _ w e in
      (fresh refl may bound, on)
  user_for-Granted subject email name (some user) w {u} e = elim (Bool-cases user.disabled) [
    | inl off ↦ cc (rw off at e)
    | inr on ↦ elim (Bool-cases (unbound user)) [
      | inl new ↦
          let same : bind_subject subject email user ≡ u = cc (rw new at (rw on at e)) in
          rw⁻¹ same (
            existing user refl on (bind_subject-id subject email user),
            bind_subject-enabled subject email user ∙ on,
          )
      | inr old ↦
          let same : user ≡ u = cc (rw old at (rw on at e)) in
          rw⁻¹ same (existing user refl on refl, on)
    ]
  ]

  pub admit_identity-ok :
      (subject email name : String) (w : World) {u : User}
      → (admit_identity p subject email name w).0 ≡ ok (ok u)
      → (is_empty subject ≡ false)
        × (is_allowed p email ≡ true)
        × Granted subject (by_oidc p subject email w.tx.users) u
        × (u.disabled ≡ false)
  unfolding admit_identity get_user_by_oidc ◌>>=◌
  admit_identity-ok subject email name w e = elim (Bool-cases (is_empty subject)) [
    | inl empty ↦ cc (rw empty at e)
    | inr full ↦ elim (Bool-cases (is_allowed p email)) [
      | inr other ↦ cc (rw other at (rw full at e))
      | inl allowed ↦
          let (granted, on) =
            user_for-Granted subject email name (by_oidc p subject email w.tx.users) w
              (rw allowed at (rw full at e)) in
          (full, allowed, granted, on)
    ]
  ]

  pub granted-id :
      (subject : String) (found : Option User) (u : User) (time : Option ℕ)
      → Granted subject found u
      → Granted subject found (record u { last_login_at = time })
  granted-id subject found u time (existing old e on same) = existing old e on same
  granted-id subject found u time (fresh e may bound) = fresh e may bound
