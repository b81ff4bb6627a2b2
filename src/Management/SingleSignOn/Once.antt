-- ===== src/Management/SingleSignOn/Once.antt =====
-- How often the state of a login request serves (management/auth_api.py).
use acme_lan.Prelude.{String, ◌≡◌, refl, false, none, some, Option}
use acme_lan.Prelude.Text.{is_empty}
use acme_lan.Platform.{Platform}
use acme_lan.Exec.{ok, pure, ◌>>=◌}
use acme_lan.Table.{find, find-remove}
use acme_lan.Models.Rows.{OidcState, World}
use acme_lan.Models.Session.{run, closed, draw, now, commit, write}
use acme_lan.Users.{purge_expired_sessions}
use acme_lan.Management.SingleSignOn.{state_of, redeem, oidc_callback, oidc_failure}
use acme_lan.Management.SingleSignOn.Frame.{Undisturbed, Keeps-answer_state}
use acme_lan.Management.SingleSignOn.Admission.{unstored}

-- No login request is stored under a state.
pub record Unknown (state : String) (w : World) : Type 0 where
  pub tx : find (λ (s : OidcState). s.state) state w.tx.oidc_states ≡ none
  pub db : find (λ (s : OidcState). s.state) state w.db.oidc_states ≡ none

Undisturbed-Unknown : (state : String) → Undisturbed (Unknown state)
unfolding draw commit write purge_expired_sessions now ◌>>=◌
Undisturbed-Unknown state = record {
  draws = record { at = λ w h. record { tx = h.tx; db = h.db } };
  commits = record { at = λ w h. record { tx = h.tx; db = h.tx } };
  users = λ u. record { at = λ w h. record { tx = h.tx; db = h.db } };
  sessions = λ s. record { at = λ w h. record { tx = h.tx; db = h.db } };
  purges = record { at = λ w h. record { tx = h.tx; db = h.db } };
}

-- A request's world: its session starts from what is committed.
abbrev opened : World → World
opened w = record w { tx = w.db }

module _ (p : Platform) where
  redeem-Unknown :
      (code state : String) (found : Option OidcState) (w : World)
      → state_of state (opened w) ≡ found
      → Unknown state (redeem p code state found (opened w)).1
  unfolding redeem write commit ◌>>=◌
  redeem-Unknown code state none w e = record { tx = e; db = e }
  redeem-Unknown code state (some row) w e =
      let gone = find-remove (λ (s : OidcState). s.state) state w.db.oidc_states in
      (Keeps-answer_state p (Undisturbed-Unknown state) code row).at (unstored state (opened w))
        (record { tx = gone; db = gone })

  callback-redeem :
      (code state : String) (w : World)
      → is_empty code ≡ false
      → is_empty state ≡ false
      → oidc_callback p (some code) (some state) none none w
        ≡ redeem p code state (state_of state w) w
  unfolding oidc_callback ◌>>=◌
  callback-redeem code state w sent known = rw (sent, known) refl

  -- A login request serves once: after a callback with its state, a code and no error, whether that
  -- one opened a session, was refused or raised, any further callback with the same state, a code and
  -- no error is told that the request is unknown.
  pub oidc_callback_once :
      (code later_code state : String) (w : World)
      → is_empty code ≡ false
      → is_empty later_code ≡ false
      → is_empty state ≡ false
      → (run
          (oidc_callback p (some later_code) (some state) none none)
          (run (oidc_callback p (some code) (some state) none none) w).1).0
        ≡ ok (oidc_failure p "this login request is unknown or has already been used")
  unfolding run closed redeem pure
  oidc_callback_once code later_code state w sent again known =
      let used = redeem-Unknown code state _ w refl in
      let after = used.db in
      rw
        (
          callback-redeem code state (opened w) sent known,
          callback-redeem later_code state _ again known,
          after,
        )
        refl
