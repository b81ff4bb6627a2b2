-- ===== src/Tests/Services.antt =====
-- The theorems on users, certificates and hosts at concrete inputs.
use Prim.Native.Nat.{suc, ◌+◌, ◌*◌}
use acme_lan.Prelude.{
  Any, ◌⊎◌, ℕ, ◌≡◌, refl, true, false, not, ◌&&◌, some, none, List, [], ◌∷◌, ◌==◌, All, all, map,
  length, ltb,
}
use acme_lan.Json.{end}
use acme_lan.Exec.{ok, err, ◌>>=◌}
use acme_lan.Table.{find}
use acme_lan.Models.Rows.{Order, User, World, Certificate, ManagedHost, no_rows}
use acme_lan.Models.Session.{now, write, commit}
use acme_lan.Acme.Errors.{uncaught}
use acme_lan.Users.{
  resolve_session, resolve_found, live, end_session, end_sessions_for_user, start_session,
}
use acme_lan.Users.Access.{
  InForce, resolve_session_sound, resolve_session-end_session,
  resolve_session-end_sessions_for_user, resolve_session-start_session,
}
use acme_lan.Lifecycle.{day, expiry_info, latest_of}
use acme_lan.Lifecycle.Expiry.{expiry_info_lem}
use acme_lan.Lifecycle.Newest.{NewestOf, look, latest_of-NewestOf}
use acme_lan.Maintenance.{purge_expired_orders}
use acme_lan.Maintenance.Purge.{Wanted, purge_expired_orders_lem}
use acme_lan.Hosts.{Outside, Plugin, Summary, latest, is_due, renew_and_deploy, renew_each}
use acme_lan.Hosts.Due.{ends_before, is_due-latest}
use acme_lan.Hosts.Renewal.{renew_and_deploy_on_device, renew_each_complete}
use acme_lan.Tests.Sample.{sample, serving, stored_certificate, pending_order}

abbrev admin : User
admin = record {
  id = "u";
  username = "admin";
  email = "";
  password_hash = "";
  provider = "local";
  oidc_subject = none;
  is_admin = true;
  disabled = false;
  last_login_at = none;
  created_at = 0;
}

abbrev signed_in : World
signed_in = record serving {
  tx = record no_rows {
    users = admin ∷ [];
    sessions = record { token = "s"; user_id = "u"; expires_at = 5; created_at = 0 } ∷ [];
    orders = record pending_order { expires_at = 0 } ∷ pending_order ∷ [];
  };
  clock = 3;
}

resolved : (resolve_session (some "s") signed_in).0 ≡ ok (some admin)
unfolding resolve_session resolve_found live now find ◌>>=◌
resolved = refl

resolve_session_sound_example : InForce "s" signed_in admin
resolve_session_sound_example = resolve_session_sound "s" signed_in admin resolved

resolve_session-end_session_example :
    (resolve_session (some "s") (end_session (some "s") signed_in).1).0 ≡ ok none
resolve_session-end_session_example = resolve_session-end_session "s" signed_in

other_resolved :
    (resolve_session (some "s") (end_sessions_for_user "v" signed_in).1).0 ≡ ok (some admin)
unfolding resolve_session resolve_found live now find end_sessions_for_user write commit ◌>>=◌
other_resolved = refl

resolve_session-end_sessions_for_user_example : admin.id == "v" ≡ false
resolve_session-end_sessions_for_user_example =
    resolve_session-end_sessions_for_user "v" signed_in "s" admin other_resolved

resolve_session-start_session_example :
    (resolve_session
      (some (sample.token_urlsafe signed_in.draws))
      (start_session sample admin 12 signed_in).1).0
    ≡ ok (some (record admin { last_login_at = some 3 }))
resolve_session-start_session_example =
    resolve_session-start_session sample admin 12 signed_in refl refl

expiry_info_lem_example :
    ((expiry_info stored_certificate 30 10).expired ≡ some (ltb 9 10))
    × ((expiry_info stored_certificate 30 10).expiring_soon
        ≡ not stored_certificate.retired && ltb 9 (10 + suc 30 * day))
expiry_info_lem_example = expiry_info_lem stored_certificate 30 10 9 refl

abbrev renewed : List Certificate
renewed = stored_certificate ∷ record stored_certificate { id = "l"; issued_at = 4 } ∷ []

latest_of-NewestOf_example : NewestOf "k" renewed (look "k" (latest_of renewed []))
latest_of-NewestOf_example = latest_of-NewestOf "k" renewed

purge_expired_orders_lem_example :
    (n : ℕ) × ((purge_expired_orders signed_in).0 ≡ ok n)
    × (n + length (purge_expired_orders signed_in).1.tx.orders ≡ 2)
    × ((o : Order)
        → Wanted 3 o
        → Any (λ x. x ≡ o) signed_in.tx.orders
        → Any (λ x. x ≡ o) (purge_expired_orders signed_in).1.tx.orders)
    × All (Wanted 3) (purge_expired_orders signed_in).1.tx.orders
    × ((n ≡ 0) ⊎ ((purge_expired_orders signed_in).1.db ≡ (purge_expired_orders signed_in).1.tx))
purge_expired_orders_lem_example = purge_expired_orders_lem signed_in

is_due-latest_example :
    is_due 30 10 (latest renewed) ≡ all (λ c. ends_before (10 + suc 30 * day) c.not_after) renewed
is_due-latest_example = is_due-latest 30 10 renewed

abbrev router : ManagedHost
router = record {
  id = "h";
  name = "router";
  domains = "x" ∷ [];
  address = "";
  port = 443;
  deploy_plugin = "ssh";
  csr_source = "device";
  credential_id = none;
  config = end;
  enabled = true;
  last_deployed_at = none;
  last_status = none;
  created_at = 0;
}

abbrev plugin : Plugin
plugin = record {
  fetch_csr = λ _ _. ok "csr";
  install_cert = λ _ _. ok (record { done = true; detail = "" });
  deploy = λ _ _. err uncaught;
}

abbrev outside : Outside
outside = record {
  plugin = λ name. some plugin;
  decrypt_secret = λ s. ok s;
  get_secret = λ _ _ s. ok s;
  generate = λ _ _. ok ("csr", "key");
  store_name = "local";
  store = λ _ _ _ _. ok none;
  describe = λ _. "failed";
}

renew_and_deploy_on_device_example :
    renew_and_deploy sample (record outside { generate = λ _ _. err uncaught }) router serving
    ≡ renew_and_deploy sample outside router serving
renew_and_deploy_on_device_example =
    renew_and_deploy_on_device sample outside (λ _ _. err uncaught) router serving refl

renew_each_complete_example :
    (ss : List Summary) × ((renew_each sample outside (router ∷ []) serving).0 ≡ ok ss)
    × (map (λ s. s.host) ss ≡ "router" ∷ [])
renew_each_complete_example = renew_each_complete sample outside (router ∷ []) serving
