-- ===== src/Tests/Login.antt =====
-- The theorems on the gate, the users' administration and single sign-on at concrete inputs.
use acme_lan.Prelude.{
  String, ◌≡◌, refl, true, false, some, none, inl, [], ◌∷◌, ◌==◌, ◌<◌, leb, length,
}
use Prim.Native.String.{count}
use acme_lan.Json.{Json, str, num, obj, end, field}
use acme_lan.Exec.{ok, ◌>>=◌}
use acme_lan.Platform.{Platform}
use acme_lan.Models.Rows.{User, OidcState, World, no_rows}
use acme_lan.Models.Session.{run}
use acme_lan.Tests.Sample.{sample, serving}
use acme_lan.Users.{first_row, resolve_session, verify_password, user_of}
use acme_lan.Users.Access.{InForce}
use acme_lan.Management.Auth.{require_admin, require_user}
use acme_lan.Management.Auth.Gate.{Admitted, require_admin-Admitted}
use acme_lan.Management.Accounts.{
  Caller, SessionCookie, UserView, UserUpdate, login, sign_in, first_user, update_user, delete_user,
  change_own_password,
}
use acme_lan.Management.Accounts.Guards.{
  login_sound, first_user_guard, update_user-resolve_session, delete_user_lem,
  change_own_password_guard, NoSessionOf,
}
use acme_lan.Management.SingleSignOn.{Redirect, state_of, oidc_callback, oidc_failure}
use acme_lan.Management.SingleSignOn.Admission.{Checked, unstored, oidc_callback-Checked}
use acme_lan.Management.SingleSignOn.Once.{oidc_callback_once}

abbrev alice : User
alice = record {
  id = "u";
  username = "alice";
  email = "";
  password_hash = "pbkdf2_sha256$1$a$b";
  provider = "local";
  oidc_subject = none;
  is_admin = true;
  disabled = false;
  last_login_at = none;
  created_at = 0;
}

abbrev bob : User
bob = record alice { id = "v"; username = "bob" }

abbrev request : OidcState
request = record {
  state = "q";
  nonce = "n";
  code_verifier = "v";
  redirect_uri = "r";
  next_url = "/";
  expires_at = 5;
}

abbrev pub office : World
office = record serving {
  tx = record no_rows {
    users = alice ∷ bob ∷ [];
    sessions = record { token = "s"; user_id = "u"; expires_at = 5; created_at = 0 } ∷ [];
    oidc_states = request ∷ [];
  };
  db = record no_rows {
    users = alice ∷ bob ∷ [];
    sessions = record { token = "s"; user_id = "u"; expires_at = 5; created_at = 0 } ∷ [];
    oidc_states = request ∷ [];
  };
  clock = 3;
}

abbrev document : Json
document = obj (
    field "authorization_endpoint" (str "A")
      (field "token_endpoint" (str "T") (field "issuer" (str "I") end)))

abbrev claims : Json
claims = obj (
    field "iss" (str "I") (
      field "aud" (str "me")
        (field "exp" (num 9) (field "nonce" (str "n") (field "sub" (str "x") end)))))

-- A platform with an OIDC provider and with numbers that can be read.
abbrev provider : Platform
provider = record sample {
  parse_int = λ _. some 1;
  json_loads = λ _. some claims;
  get_json = λ _ _. some (200, some document);
  post_form = λ _ _ _. some (200, "", some (obj (field "id_token" (str "a.b.c") end)));
}

admitted : (require_admin provider none (some "s") office).0 ≡ ok (some alice)
unfolding require_admin acme_lan.Management.Auth.by_session ◌>>=◌ resolve_session
    acme_lan.Users.resolve_found acme_lan.Table.find acme_lan.Models.Session.now
    acme_lan.Management.Auth.signed_in acme_lan.Users.live
admitted = refl

require_admin-Admitted_example : Admitted provider none (some "s") office (some alice)
require_admin-Admitted_example = require_admin-Admitted provider none (some "s") office admitted

abbrev pub caller : Caller
caller = record { authorization = none; cookie = some "s" }

logged_in : (r : SessionCookie × UserView) × ((login provider "alice" "pw" office).0 ≡ ok r)
unfolding login ◌>>=◌ acme_lan.Users.authenticate acme_lan.Users.get_user_by_username
    acme_lan.Users.admit first_row verify_password acme_lan.Users.check_parts acme_lan.Users.split
    acme_lan.Validators.same_bytes sign_in acme_lan.Users.start_session
    acme_lan.Users.purge_expired_sessions acme_lan.Models.Session.now acme_lan.Models.Session.write
    acme_lan.Models.Session.draw acme_lan.Models.Session.commit
logged_in = (_, refl)

login_sound_example :
    (u : User) × (first_row (λ x. x.username == "alice") office.tx.users ≡ some u)
    × (u.disabled ≡ false)
    × (verify_password provider "pw" u.password_hash ≡ true)
    × (login provider "alice" "pw" office ≡ sign_in provider u office)
login_sound_example = login_sound provider "alice" "pw" office logged_in.1

abbrev dismissal : UserUpdate
dismissal = record { password = none; email = none; is_admin = none; disabled = some true }

update_done : (r : UserView) × ((update_user provider "v" dismissal caller office).0 ≡ ok r)
unfolding update_user ◌>>=◌ require_admin acme_lan.Management.Auth.by_session resolve_session
    acme_lan.Users.resolve_found acme_lan.Table.find acme_lan.Models.Session.now
    acme_lan.Management.Auth.signed_in acme_lan.Users.live
    acme_lan.Management.Accounts.long_enough_if acme_lan.Management.Accounts.change_user
    acme_lan.Management.Accounts.set_password acme_lan.Management.Accounts.set_disabled
    acme_lan.Models.Session.write acme_lan.Users.end_sessions_for_user
    acme_lan.Models.Session.commit
update_done = (_, refl)

still :
    (resolve_session (some "s") (update_user provider "v" dismissal caller office).1).0
    ≡ ok (some alice)
unfolding update_user resolve_session ◌>>=◌ acme_lan.Users.resolve_found acme_lan.Table.find
    require_admin acme_lan.Management.Auth.by_session acme_lan.Models.Session.now
    acme_lan.Management.Auth.signed_in acme_lan.Users.live
    acme_lan.Management.Accounts.long_enough_if acme_lan.Management.Accounts.change_user
    acme_lan.Management.Accounts.set_password acme_lan.Management.Accounts.set_disabled
    acme_lan.Models.Session.write acme_lan.Users.end_sessions_for_user
    acme_lan.Models.Session.commit acme_lan.Management.Accounts.set_admin acme_lan.Exec.gets
    acme_lan.Exec.modify acme_lan.Exec.or_raise acme_lan.Exec.pure acme_lan.Exec.raise
    acme_lan.Exec.require acme_lan.Management.Accounts.long_enough
    acme_lan.Management.Accounts.set_email acme_lan.Management.Accounts.set_stripped_email
    acme_lan.Management.Accounts.user_view acme_lan.Management.Auth.anonymous
    acme_lan.Management.Auth.by_token acme_lan.Models.Session.draw acme_lan.Table.put
    acme_lan.Table.remove acme_lan.Users.hash_password
still = refl

update_user-resolve_session_example : "u" == "v" ≡ false
update_user-resolve_session_example =
    update_user-resolve_session provider "v" dismissal caller office (inl refl) update_done.1 "s"
      alice still

deleted : (delete_user provider "v" caller office).0 ≡ ok tt
unfolding delete_user ◌>>=◌ require_admin acme_lan.Management.Auth.by_session resolve_session
    acme_lan.Users.resolve_found acme_lan.Table.find acme_lan.Models.Session.now
    acme_lan.Management.Auth.signed_in acme_lan.Users.live
    acme_lan.Management.Accounts.delete_counted acme_lan.Users.count_users
    acme_lan.Users.end_sessions_for_user acme_lan.Models.Session.write
    acme_lan.Models.Session.commit
deleted = refl

delete_user_lem_example :
    (1 < length (require_admin provider none (some "s") office).1.tx.users)
    × (user_of "v" (delete_user provider "v" caller office).1 ≡ none)
    × NoSessionOf "v" (delete_user provider "v" caller office).1.tx.sessions
delete_user_lem_example = delete_user_lem provider "v" caller office deleted

own_changed : (change_own_password provider "pw" "password" caller office).0 ≡ ok tt
unfolding change_own_password ◌>>=◌ require_user require_admin acme_lan.Management.Auth.by_session
    resolve_session acme_lan.Users.resolve_found acme_lan.Table.find acme_lan.Models.Session.now
    acme_lan.Management.Auth.signed_in acme_lan.Users.live acme_lan.Management.Accounts.long_enough
    verify_password acme_lan.Users.check_parts acme_lan.Users.split acme_lan.Validators.same_bytes
    acme_lan.Users.hash_password acme_lan.Models.Session.draw acme_lan.Models.Session.write
    acme_lan.Models.Session.commit
own_changed = refl

change_own_password_guard_example :
    (token : String) × (u : User) × (some "s" ≡ some token)
    × InForce token office u
    × (verify_password provider "pw" u.password_hash ≡ true)
    × (leb 8 (count "password") ≡ true)
change_own_password_guard_example =
    change_own_password_guard provider "pw" "password" caller office own_changed

set_up :
    (r : SessionCookie × UserView) × ((first_user provider "root" "password" "" serving).0 ≡ ok r)
unfolding first_user ◌>>=◌ acme_lan.Management.Accounts.long_enough acme_lan.Users.count_users
    acme_lan.Users.create_user acme_lan.Users.password_hash_of acme_lan.Users.hash_password
    acme_lan.Models.Session.draw acme_lan.Models.Session.now acme_lan.Models.Session.write
    acme_lan.Models.Session.commit sign_in acme_lan.Users.start_session
    acme_lan.Users.purge_expired_sessions
set_up = (_, refl)

first_user_guard_example : (length serving.tx.users ≡ 0) × (leb 8 (count "password") ≡ true)
first_user_guard_example = first_user_guard provider "root" "password" "" serving set_up.1

called_back :
    (r : Redirect) × (c : SessionCookie) × ((oidc_callback provider
        (some "c")
        (some "q")
        none
        none
        office).0
      ≡ ok r)
    × (r.cookie ≡ some c)
unfolding oidc_callback ◌>>=◌ acme_lan.Management.SingleSignOn.redeem acme_lan.Table.find
    acme_lan.Models.Session.write acme_lan.Models.Session.commit
    acme_lan.Management.SingleSignOn.answer_state acme_lan.Models.Session.now acme_lan.Exec.catch
    acme_lan.Management.SingleSignOn.identify acme_lan.Oidc.fetch_discovery
    acme_lan.Management.SingleSignOn.oidc_discovery acme_lan.Models.Session.draw
    acme_lan.Oidc.as_document acme_lan.Oidc.exchange_code acme_lan.Oidc.as_tokens
    acme_lan.Management.SingleSignOn.check_token acme_lan.Oidc.decode_jwt_claims
    acme_lan.Acme.Encoding.b64url_decode acme_lan.Acme.Encoding.equals_signs acme_lan.Exec.gets
    acme_lan.Exec.lift acme_lan.Exec.modify acme_lan.Exec.or_raise acme_lan.Exec.pure
    acme_lan.Exec.raise acme_lan.Exec.require acme_lan.Management.Accounts.session_cookie
    acme_lan.Management.SingleSignOn.admit_identity acme_lan.Management.SingleSignOn.allowed_emails
    acme_lan.Management.SingleSignOn.bind_subject acme_lan.Management.SingleSignOn.explain
    acme_lan.Management.SingleSignOn.finish acme_lan.Management.SingleSignOn.greet
    acme_lan.Management.SingleSignOn.is_allowed acme_lan.Management.SingleSignOn.known_user
    acme_lan.Management.SingleSignOn.new_user oidc_failure acme_lan.Management.SingleSignOn.user_for
    acme_lan.Management.SingleSignOn.welcome acme_lan.Oidc.claim_email acme_lan.Oidc.claim_identity
    acme_lan.Oidc.claim_subject acme_lan.Oidc.decode_claims_segment acme_lan.Oidc.decode_parts
    acme_lan.Oidc.is_audience acme_lan.Oidc.is_current acme_lan.Oidc.is_issuer
    acme_lan.Oidc.is_nonce acme_lan.Oidc.replace_from acme_lan.Oidc.token_form
    acme_lan.Oidc.validate_claims acme_lan.Table.put acme_lan.Table.remove
    acme_lan.Users.at_least_one acme_lan.Users.by_oidc acme_lan.Users.create_user first_row
    acme_lan.Users.get_user_by_oidc acme_lan.Users.hash_password acme_lan.Users.password_hash_of
    acme_lan.Users.purge_expired_sessions acme_lan.Users.split acme_lan.Users.start_session
called_back = (_, _, refl, refl)

oidc_callback-Checked_example :
    (row : OidcState) × (state_of "q" office ≡ some row)
    × Checked provider "c" row
        (unstored "q" office)
        called_back.1
        (oidc_callback provider (some "c") (some "q") none none office).1
oidc_callback-Checked_example =
    oidc_callback-Checked provider (some "c") (some "q") none none office called_back.2
      called_back.3

oidc_callback_once_example :
    (run
      (oidc_callback provider (some "d") (some "q") none none)
      (run (oidc_callback provider (some "c") (some "q") none none) office).1).0
    ≡ ok (oidc_failure provider "this login request is unknown or has already been used")
oidc_callback_once_example = oidc_callback_once provider "c" "d" "q" office refl refl refl
