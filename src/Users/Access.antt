-- ===== src/Users/Access.antt =====
-- Who a session token stands for, and until when (users.py).
use Prim.Native.Nat.{◌<◌}
use acme_lan.Prelude.{
  ℕ, String, ◌≡◌, refl, ap, true, false, not, Option, none, some, inl, inr, ◌+◌, ◌*◌, ◌==◌, arith,
  leb, Bool-cases, Option-cases,
}
use acme_lan.Prelude.Text.{is_empty}
use acme_lan.Exec.{Result, ok, err, pure, ◌>>=◌}
use acme_lan.Table.{find-remove, find-select, find-put_same, key-find}
use acme_lan.Platform.{Platform}
use acme_lan.Models.Rows.{User, UserSession, World}
use acme_lan.Models.Session.{commit, now, draw, write}
use acme_lan.Users.{
  user_of, session_of, at_least_one, hour, purge_expired_sessions, end_session,
  end_sessions_for_user, live, resolve_found, resolve_session, start_session,
}

live_sound :
    (found : Option User) {u : User} → live found ≡ some u → (found ≡ some u) × (u.disabled ≡ false)
unfolding live
live_sound none e = cc
live_sound (some x) {u} e = elim (Bool-cases x.disabled) [
  | inl off ↦ cc (rw off at e)
  | inr on ↦ let same : x ≡ u = cc (rw on at e) in (ap some same, rw⁻¹ same on)
]

-- A session in force: stored under its token, not expired, of a stored user who is not disabled.
pub record InForce (token : String) (w : World) (u : User) : Type 0 where
  pub row : UserSession
  pub found : session_of token w ≡ some row
  pub time : w.clock < row.expires_at
  pub user : user_of row.user_id w ≡ some u
  pub enabled : u.disabled ≡ false

resolve_found-live :
    (token : String) (row : UserSession) (w : World)
    → leb row.expires_at w.clock ≡ false
    → (resolve_found token (some row) w).0 ≡ ok (live (user_of row.user_id w))
unfolding resolve_found now ◌>>=◌
resolve_found-live token row w early = rw early refl

resolve_found_late :
    (token : String) (row : UserSession) (w : World)
    → leb row.expires_at w.clock ≡ true
    → (resolve_found token (some row) w).0 ≡ ok none
unfolding resolve_found now write commit ◌>>=◌
resolve_found_late token row w late = rw late refl

resolve_session_full :
    (token : String) (w : World)
    → is_empty token ≡ false
    → resolve_session (some token) w ≡ resolve_found token (session_of token w) w
unfolding resolve_session ◌>>=◌
resolve_session_full token w full = rw full refl

found_sound :
    (token : String) (found : Option UserSession) (w : World) {u : User}
    → (resolve_found token found w).0 ≡ ok (some u)
    → (row : UserSession) × (found ≡ some row)
      × (w.clock < row.expires_at)
      × (user_of row.user_id w ≡ some u)
      × (u.disabled ≡ false)
unfolding resolve_found ◌>>=◌
found_sound token none w e = cc
found_sound token (some row) w {u} e = elim (Bool-cases (leb row.expires_at w.clock)) [
  | inl late ↦ cc (e, resolve_found_late token row w late)
  | inr early ↦
      let l : live (user_of row.user_id w) ≡ some u =
        cc (e, resolve_found-live token row w early) in
      let (known, on) = live_sound _ l in (row, refl, ground (arith, early), known, on)
]

-- A session token resolves to a user only while its session is in force.
pub resolve_session_sound :
    (token : String) (w : World) (u : User)
    → (resolve_session (some token) w).0 ≡ ok (some u)
    → InForce token w u
unfolding resolve_session ◌>>=◌
resolve_session_sound token w u e = elim (Bool-cases (is_empty token)) [
  | inl empty ↦ cc (rw empty at e)
  | inr full ↦
      let (row, found, time, user, on) =
        found_sound token (session_of token w) w (rw (resolve_session_full token w full) at e) in
      record { row = row; found = found; time = time; user = user; enabled = on }
]

live_enabled : (u : User) → u.disabled ≡ false → live (some u) ≡ some u
unfolding live
live_enabled u on = rw on refl

-- A session in force resolves to its user.
pub InForce-resolves :
    (token : String) (w : World) (u : User)
    → is_empty token ≡ false
    → InForce token w u
    → (resolve_session (some token) w).0 ≡ ok (some u)
InForce-resolves token w u full h =
    let time = h.time in
    let early : leb h.row.expires_at w.clock ≡ false = ground (arith, time) in
    rw
      (
        resolve_session_full token w full,
        h.found,
        resolve_found-live token h.row w early,
        h.user,
        live_enabled u h.enabled,
      )
      refl

end_after_start : (time hours : ℕ) → time < time + at_least_one hours * hour
unfolding at_least_one
end_after_start time hours = ground arith

-- A token that was signed out resolves to no user.
pub resolve_session-end_session :
    (token : String) (w : World)
    → (resolve_session (some token) (end_session (some token) w).1).0 ≡ ok none
unfolding resolve_session resolve_found end_session write commit ◌>>=◌
resolve_session-end_session token w = elim (Bool-cases (is_empty token)) [
  | inl empty ↦ rw empty refl
  | inr full ↦ elim (Option-cases (session_of token w)) [
    | inl missing ↦ rw full (rw missing (rw missing refl))
    | inr (row, found) ↦
        rw full
          (rw found (rw (find-remove (λ (x : UserSession). x.token) token w.tx.sessions) refl))
  ]
]

-- After the sessions of a user were ended, no token resolves to that user.
pub resolve_session-end_sessions_for_user :
    (user_id : String) (w : World) (token : String) (u : User)
    → (resolve_session (some token) (end_sessions_for_user user_id w).1).0 ≡ ok (some u)
    → u.id == user_id ≡ false
unfolding end_sessions_for_user write commit ◌>>=◌
resolve_session-end_sessions_for_user user_id w token u e =
    let h = resolve_session_sound token _ u e in
    let other =
      find-select (λ x. x.token) (λ x. not (x.user_id == user_id)) token w.tx.sessions h.found in
    let same = key-find (λ (x : User). x.id) h.row.user_id w.tx.users h.user in
    rw same (ground (arith, other))

module _ (p : Platform) where
  -- A session that is started is in force.
  pub start_session-InForce :
      (user : User) (hours : ℕ) (w : World)
      → user.disabled ≡ false
      → InForce
          (p.token_urlsafe w.draws)
          (start_session p user hours w).1
          (record user { last_login_at = some w.clock })
  unfolding start_session purge_expired_sessions draw now write commit ◌>>=◌
  start_session-InForce user hours w on = record {
    row = _;
    found = find-put_same (λ (x : UserSession). x.token) _ _;
    time = end_after_start w.clock hours;
    user = find-put_same (λ (x : User). x.id) (record user { last_login_at = some w.clock }) _;
    enabled = on;
  }

  -- The token of a session that is started is the next random text.
  pub start_session-token :
      (user : User) (hours : ℕ) (w : World) {row : UserSession}
      → (start_session p user hours w).0 ≡ ok row
      → p.token_urlsafe w.draws ≡ row.token
  unfolding start_session purge_expired_sessions draw now write commit pure ◌>>=◌
  start_session-token user hours w e = ap token_of e
    where
      token_of : Result UserSession → String
      token_of (ok row) = row.token
      token_of (err x) = ""

  -- The token of a session that was started resolves to its user, if the token is not empty and
  -- the user is not disabled.
  pub resolve_session-start_session :
      (user : User) (hours : ℕ) (w : World)
      → user.disabled ≡ false
      → is_empty (p.token_urlsafe w.draws) ≡ false
      → (resolve_session (some (p.token_urlsafe w.draws)) (start_session p user hours w).1).0
        ≡ ok (some (record user { last_login_at = some w.clock }))
  resolve_session-start_session user hours w on full =
      InForce-resolves (p.token_urlsafe w.draws) (start_session p user hours w).1
        (record user { last_login_at = some w.clock }) full (start_session-InForce user hours w on)
