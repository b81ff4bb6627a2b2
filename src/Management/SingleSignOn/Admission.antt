-- ===== src/Management/SingleSignOn/Admission.antt =====
-- Who gets a session from the OIDC callback, and how often a login request serves (oidc.py,
-- management/auth_api.py).
use mathlib.Core.Path.{subst}
use acme_lan.Prelude.{
  String, ◌≡◌, ◌∙◌, List, refl, ap, true, false, Option, none, some, inl, inr, ◌<◌, leb, Bool-cases,
  arith,
}
use acme_lan.Prelude.Text.{is_empty}
use acme_lan.Json.{Fields}
use acme_lan.Platform.{Platform}
use acme_lan.Exec.{Result, ok, err, ◌>>=◌}
use acme_lan.Exec.Returns.{bind_returned}
use acme_lan.Models.Rows.{User, OidcState, World}
use acme_lan.Models.Session.{now, commit}
use acme_lan.Acme.Errors.{acme, http, failure, uncaught}
use acme_lan.Management.SingleSignOn.Grants.{Granted, admit_identity-ok, granted-id}
use acme_lan.Management.SingleSignOn.Identity.{Identified, identify-Identified}
use acme_lan.Users.Access.{InForce, start_session-token, start_session-InForce}
use acme_lan.Users.{start_session}
use acme_lan.Management.Accounts.{session_cookie}
use acme_lan.Exec.{catch, caught, continue, pure, raise}
use acme_lan.Models.Session.{write}
use acme_lan.Users.{by_oidc}
use acme_lan.Oidc.{claim_identity, claim_subject, claim_email}
use acme_lan.Management.Accounts.{SessionCookie}
use acme_lan.Management.SingleSignOn.{
  Redirect, text_or, remove_state, state_of, optional_text, identify, is_allowed, admit_identity,
  finish, welcome, explain, greet, answer_state, redeem, oidc_callback, oidc_failure,
}

-- The world without a login request.
abbrev pub unstored : String → World → World
unstored state w = record w { tx = remove_state state w.tx; db = remove_state state w.tx }

module _ (p : Platform) where
  finish-ok :
      (next_url : String) (admitted : Result User) (w : World) {r : Redirect} {c : SessionCookie}
      → (finish p next_url admitted w).0 ≡ ok r
      → r.cookie ≡ some c
      → (u : User) × (admitted ≡ ok u)
  unfolding finish oidc_failure ◌>>=◌
  finish-ok next_url (ok u) w e given = (u, refl)
  finish-ok next_url (err (failure message)) w {r} e given =
      let same : oidc_failure p message ≡ r = cc e in
      let kept : none ≡ r.cookie = ap (λ (x : Redirect). x.cookie) same in cc (kept, given)
  finish-ok next_url (err (acme _)) w e given = cc
  finish-ok next_url (err (http _ _)) w e given = cc
  finish-ok next_url (err uncaught) w e given = cc

  -- The cookie of the answer is that of a session which is in force afterwards.
  finish-InForce :
      (next_url : String) (u : User) (w : World) {r : Redirect} {c : SessionCookie}
      → u.disabled ≡ false
      → (finish p next_url (ok u) w).0 ≡ ok r
      → r.cookie ≡ some c
      → InForce c.token (finish p next_url (ok u) w).1 (record u { last_login_at = some w.clock })
  unfolding finish pure session_cookie
  finish-InForce next_url u w {r} {c} on e given =
      let (row, got, rest) =
        bind_returned (start_session p u p.settings.session_lifetime_hours) _ w e in
      let said = ap cookie_of (rw rest at e) ∙ given in
      let token : row.token ≡ c.token = ap token_of said in
      let same = start_session-token p u p.settings.session_lifetime_hours w got ∙ token in
      let started = start_session-InForce p u p.settings.session_lifetime_hours w on in
      rw rest (
        subst
          (λ token.
            InForce token (start_session p u p.settings.session_lifetime_hours w).1
              (record u { last_login_at = some w.clock }))
          same started)
    where
      cookie_of : Result Redirect → Option SessionCookie
      cookie_of (ok r) = r.cookie
      cookie_of (err x) = none

      token_of : Option SessionCookie → String
      token_of (some c) = c.token
      token_of none = ""

  -- A session was opened for claims: they have a subject and an allowed email, and the cookie is
  -- that of a session which is in force afterwards, of a user whom the identity admits.
  pub record SignedIn (claims : Fields) (users : List User) (c : SessionCookie) (after : World)
      : Type 0 where
    pub subject : is_empty (claim_subject p claims) ≡ false
    pub allowed : is_allowed p (claim_email p claims) ≡ true
    pub user : User
    pub granted :
        Granted p
          (claim_subject p claims)
          (by_oidc p (claim_subject p claims) (claim_email p claims) users)
          user
    pub session : InForce c.token after user

  -- What was checked before the answer of a callback opens a session: the request is in time, its
  -- claims are those that the provider gave for it, and are valid.
  pub record Checked (code : String) (row : OidcState) (w : World) (c : SessionCookie)
      (after : World) : Type 0 where
    pub time : w.clock < row.expires_at
    pub claims : Fields
    pub identified : Identified p code row w claims
    pub signed_in : SignedIn claims (identify p code row w).1.tx.users c after

  attempted :
      (r : Result Fields × World) {claims : Fields}
      → (caught (explain p) (continue r (λ found. pure (ok found)))).0 ≡ ok (ok claims)
      → (r.0 ≡ ok claims) × ((caught (explain p) (continue r (λ found. pure (ok found)))).1 ≡ r.1)
  unfolding explain pure ◌>>=◌
  attempted (ok found, w) e = (cc e, refl)
  attempted (err (acme _), w) e = cc
  attempted (err (http _ _), w) e = cc
  attempted (err (failure _), w) e = cc
  attempted (err uncaught, w) e = cc

  welcome-SignedIn :
      (row : OidcState) (claims : Fields) (w : World) {r : Redirect} {c : SessionCookie}
      → (welcome p row claims w).0 ≡ ok r
      → r.cookie ≡ some c
      → SignedIn claims w.tx.users c (welcome p row claims w).1
  unfolding welcome claim_identity
  welcome-SignedIn row claims w {r} {c} e given =
      let admit =
        admit_identity p (claim_subject p claims) (claim_email p claims)
          (claim_identity p claims).2 in
      let (admitted, got, rest) = bind_returned admit (finish p (text_or row.next_url "/")) w e in
      let (u, same) = finish-ok _ admitted _ (rw rest at e) given in
      let (full, allowed, granted, on) =
        admit_identity-ok p (claim_subject p claims) (claim_email p claims) _ w (rw same at got) in
      let onward = rest ∙ ap (λ a. finish p (text_or row.next_url "/") a (admit w).1) same in
      record {
        subject = full;
        allowed = allowed;
        user = record u { last_login_at = some (admit w).1.clock };
        granted = granted-id p _ _ u _ granted;
        session =
            rw onward
              (finish-InForce (text_or row.next_url "/") u (admit w).1 on (rw onward at e) given);
      }

  greet-ok :
      (row : OidcState) (found : Result Fields) (w : World) {r : Redirect} {c : SessionCookie}
      → (greet p row found w).0 ≡ ok r
      → r.cookie ≡ some c
      → (claims : Fields) × (found ≡ ok claims)
        × SignedIn claims w.tx.users c (greet p row found w).1
  unfolding greet oidc_failure pure raise ◌>>=◌
  greet-ok row (ok claims) w e given = (claims, refl, welcome-SignedIn row claims w e given)
  greet-ok row (err (failure message)) w {r} e given =
      let same : oidc_failure p message ≡ r = cc e in
      let kept : none ≡ r.cookie = ap (λ (x : Redirect). x.cookie) same in cc (kept, given)
  greet-ok row (err (acme _)) w e given = cc
  greet-ok row (err (http _ _)) w e given = cc
  greet-ok row (err uncaught) w e given = cc

  no_cookie :
      (message : String) {r : Redirect} {c : SessionCookie}
      → ok (oidc_failure p message) ≡ ok r
      → r.cookie ≡ some c
      → none ≡ some c
  unfolding oidc_failure
  no_cookie message {r} e given =
      let same : oidc_failure p message ≡ r = cc e in
      let kept : none ≡ r.cookie = ap (λ (x : Redirect). x.cookie) same in cc (kept, given)

  answer_state-Checked :
      (code : String) (row : OidcState) (w : World) {r : Redirect} {c : SessionCookie}
      → (answer_state p code row w).0 ≡ ok r
      → r.cookie ≡ some c
      → Checked code row w c (answer_state p code row w).1
  unfolding answer_state now catch ◌>>=◌
  answer_state-Checked code row w {c = c} e given = elim (Bool-cases (leb row.expires_at w.clock)) [
    | inl late ↦ cc (no_cookie _ (rw late at e) given)
    | inr early ↦
        let (found, got, rest) =
          bind_returned (catch (identify p code row >>= λ claims. pure (ok claims)) (explain p))
            (greet p row) w (rw early at e) in
        let (claims, same, signed_in) = greet-ok row found _ (rw rest at (rw early at e)) given in
        let (identified, kept) = attempted (identify p code row w) (rw same at got) in
        record {
          time = ground (arith, early);
          claims = claims;
          identified = identify-Identified p code row w identified;
          signed_in =
              subst (λ us. SignedIn claims us c (answer_state p code row w).1)
                (ap (λ (x : World). x.tx.users) kept) (rw (early, rest) signed_in);
        }
  ]

  redeem-Checked :
      (code state : String) (found : Option OidcState) (w : World) {r : Redirect}
      {c : SessionCookie}
      → (redeem p code state found w).0 ≡ ok r
      → r.cookie ≡ some c
      → (row : OidcState) × (found ≡ some row)
        × Checked code row (unstored state w) c (redeem p code state found w).1
  unfolding redeem write commit ◌>>=◌
  redeem-Checked code state none w e given = cc (no_cookie _ e given)
  redeem-Checked code state (some row) w e given =
      (row, refl, answer_state-Checked code row (unstored state w) e given)

  -- A callback that opens a session was called with the state of a stored login request that was in
  -- time, and deleted the request first. The claims came from the provider, by the request's
  -- verifier, and were valid for the issuer of the discovery document, the client, the time and the
  -- request's nonce. They have a subject and an allowed email; and the cookie is that of a session
  -- in force, of the user found for them, who is not disabled, or of a new one.
  pub oidc_callback-Checked :
      (code state error error_description : Option String) (w : World) {r : Redirect}
      {c : SessionCookie}
      → (oidc_callback p code state error error_description w).0 ≡ ok r
      → r.cookie ≡ some c
      → (row : OidcState) × (state_of (optional_text state) w ≡ some row)
        × Checked
            (optional_text code)
            row
            (unstored (optional_text state) w)
            c
            (oidc_callback p code state error error_description w).1
  unfolding oidc_callback ◌>>=◌
  oidc_callback-Checked code state error error_description w e given =
      elim (Bool-cases (is_empty (optional_text error))) [
        | inr told ↦ cc (no_cookie _ (rw told at e) given)
        | inl quiet ↦ elim (Bool-cases (is_empty (optional_text code))) [
          | inl bare ↦ cc (no_cookie _ (rw bare at (rw quiet at e)) given)
          | inr sent ↦ elim (Bool-cases (is_empty (optional_text state))) [
            | inl lost ↦ cc (no_cookie _ (rw lost at (rw sent at (rw quiet at e))) given)
            | inr known ↦
                rw (quiet, sent, known)
                  (redeem-Checked (optional_text code) (optional_text state)
                    (state_of (optional_text state) w) w (rw known at (rw sent at (rw quiet at e)))
                    given)
          ]
        ]
      ]
