-- ===== src/Tests/Witnesses.antt =====
-- Each theorem at a concrete input.
use Prim.Native.String.{◌++◌}
use acme_lan.Prelude.{
  String, ◌≡◌, refl, arith, none, true, false, some, inl, List, ◌==◌, starts_with, Any,
  if◌then◌else◌,
}
use acme_lan.Prelude.Text.{has_char}
use acme_lan.Json.{str, obj, end, field}
use acme_lan.Platform.{Csr}
use acme_lan.Exec.{ok, err}
use acme_lan.Table.{find}
use acme_lan.Models.Rows.{Challenge, Certificate, OrderStatus, World}
use acme_lan.Models.Session
use acme_lan.Validators.{same_bytes}
use acme_lan.Acme.Errors.{malformed, bad_nonce, server_internal}
use acme_lan.Acme.Encoding.{Urls, account_url, b64url_encode, b64url_decode, equals_signs}
use acme_lan.Acme.Encoding.RoundTrips.{IsPadded, b64url-round_trip}
use acme_lan.Acme.Nonce.{consume_nonce, without, holds}
use acme_lan.Acme.Nonce.SingleUse.{consume_nonce_lem}
use acme_lan.Acme.Jws.{VerifiedRequest, resolve_kid}
use acme_lan.Acme.Jws.KeyIds.{resolve_kid-account_url}
use acme_lan.Acme.Jws.Soundness.{IsVerified, verify_jws_sound}
use acme_lan.Acme.Common.{read_verified, serve}
use acme_lan.Acme.Authz.{attempt}
use acme_lan.Acme.Authz.Outcome.{authz_after, challenge_after, attempt_decides, wildcard_stuck}
use acme_lan.Acme.Certificates.{issued_for, is_same_leaf}
use acme_lan.Acme.Certificates.Revocation.{MayRevoke, authorize_revocation_sound}
use acme_lan.Acme.Orders.Create.{challenge_types}
use acme_lan.Acme.Orders.Status.{recompute_order_status}
use acme_lan.Acme.Orders.Derivation.{Derives, authz_statuses, recompute_derives}
use acme_lan.Acme.Orders.Finalize.{issue}
use acme_lan.Acme.Orders.Issuance.{committed, issue_failed, issue_succeeded}
use acme_lan.Acme.Orders.Authority.{IsEntitled, finalize_sound}
use acme_lan.Acme.Server.Endpoints.{handle, new_account, here}
use acme_lan.Acme.Server.Replay.{IsAccepted, opened, replay_rejected}
use acme_lan.Acme.Profiles.{default_upstream}
use acme_lan.Tests.Sample.{
  sample, unary-IsInjective, serving, leaf, csr, pending_order, http_challenge, valid_authz, owner,
}
use acme_lan.Tests.Requests.{
  by_key, by_account, signed_by_key, started, started-Reach, by_key-IsAccepted, signed_by_account,
  finalized, revocable, checked,
}

abbrev replayed : World
replayed = (serve sample (handle sample (new_account by_key)) started).1

replay_rejected_example : ¬ IsAccepted sample by_key (opened sample replayed)
replay_rejected_example =
    replay_rejected sample unary-IsInjective (new_account by_key) by_key started replayed
      started-Reach refl by_key-IsAccepted here

verify_jws_sound_example : IsVerified sample "/p" (List.◌∷◌ 2 List.[]) serving signed_by_account.0
verify_jws_sound_example =
    verify_jws_sound sample "/p" (List.◌∷◌ 2 List.[]) serving signed_by_account.0
      signed_by_account.1

finalize_sound_example :
    (v : VerifiedRequest) × ((read_verified sample by_account serving).0 ≡ ok v)
    × IsEntitled sample "o" v (read_verified sample by_account serving).1
finalize_sound_example = finalize_sound sample "o" by_account serving finalized.0 finalized.1

issue_succeeded_example :
    (cert : Certificate) × (cert.pem_chain ≡ "pem")
    × (cert.order_id ≡ some "o")
    × (cert.serial ≡ some "5")
    × (find
          (λ x. x.id)
          cert.id
          (issue sample pending_order csr (default_upstream sample) serving).1.db.certificates
        ≡ some cert)
    × (committed sample "o" (issue sample pending_order csr (default_upstream sample) serving).1
        ≡ some (record pending_order { certificate_id = some cert.id; status = OrderStatus.valid }))
    × ((issue sample pending_order csr (default_upstream sample) serving).0
        ≡ ok (record pending_order { certificate_id = some cert.id; status = OrderStatus.valid }))
issue_succeeded_example =
    issue_succeeded sample pending_order csr (default_upstream sample) serving "pem" leaf refl refl

abbrev bad_csr_text : Csr
bad_csr_text = record csr { pem = "bad" }

issue_failed_example :
    ((issue sample pending_order bad_csr_text (default_upstream sample) serving).0
      ≡ err (server_internal ("Upstream issuance failed: " ++ "no")))
    × (committed sample "o"
          (issue sample pending_order bad_csr_text (default_upstream sample) serving).1
        ≡ some (record pending_order {
          status = OrderStatus.invalid;
          error = some (
              obj (
                field "type"
                  (str "urn:ietf:params:acme:error:serverInternal")
                  (field "detail" (str ("Upstream issuance failed: " ++ "no")) end)));
        }))
issue_failed_example =
    issue_failed sample pending_order bad_csr_text (default_upstream sample) serving "no" refl

authorize_revocation_sound_example :
    (c : Certificate) × Any (λ x. x ≡ c) serving.tx.certificates
    × (c.serial ≡ some "5")
    × (is_same_leaf sample (List.◌∷◌ 40 List.[]) c ≡ true)
    × MayRevoke none
        (same_bytes (sample.jwk_spki signed_by_key.jwk) leaf.spki)
        (issued_for c serving.tx.orders)
authorize_revocation_sound_example =
    authorize_revocation_sound sample leaf (List.◌∷◌ 40 List.[]) signed_by_key serving revocable.1

recompute_derives_example :
    (s : OrderStatus) × Derives (authz_statuses pending_order serving) s
    × ((recompute_order_status pending_order serving).0 ≡ ok (record pending_order { status = s }))
    × (Session.order "o" (recompute_order_status pending_order serving).1
        ≡ some (record pending_order { status = s }))
recompute_derives_example = recompute_derives pending_order serving refl

abbrev urls : Urls
urls = record { base = ""; prefix = "/acme" }

attempt_decides_example :
    (c : Challenge) × (find
        (λ x. x.id)
        "c"
        (attempt sample signed_by_key http_challenge valid_authz urls serving).1.db.challenges
      ≡ some c)
    × (c.status ≡ challenge_after checked.0.passed)
    × (find
          (λ x. x.id)
          "z"
          (attempt sample signed_by_key http_challenge valid_authz urls serving).1.db.authorizations
        ≡ some (record valid_authz { status = authz_after checked.0.passed }))
attempt_decides_example =
    attempt_decides sample signed_by_key http_challenge valid_authz urls serving checked.0 checked.1

abbrev dns_challenge : Challenge
dns_challenge = record http_challenge { kind = "dns-01" }

offered : Any (λ kind. kind ≡ "dns-01") (challenge_types (starts_with "*.x" "*."))
unfolding challenge_types
offered = inl refl

wildcard_stuck_example : attempt sample signed_by_key dns_challenge valid_authz urls serving ≡ (
  err (
      malformed (
        "Challenge type "
        ++ (sample.repr (str "dns-01") ++ " is not supported for validation yet"))),
  serving,
)
wildcard_stuck_example =
    wildcard_stuck sample signed_by_key dns_challenge valid_authz urls "*.x" refl offered serving

consume_nonce_lem_example :
    ((consume_nonce "t" serving).0 ≡ (
      if holds "t" serving.nonces
      then ok tt
      else err (bad_nonce "Invalid or reused anti-replay nonce")))
    × ((u : String)
        → holds u (consume_nonce "t" serving).1.nonces
          ≡ (if "t" == u then false else holds u serving.nonces))
    × ((consume_nonce "t" serving).1 ≡ record serving { nonces = without "t" serving.nonces })
consume_nonce_lem_example = consume_nonce_lem "t" serving

no_slash : has_char b'/' owner.id ≡ false
unfolding has_char
no_slash = refl

resolve_kid-account_url_example :
    resolve_kid sample (str (account_url urls owner.id)) serving
    ≡ (ok (owner.jwk, some owner), serving)
unfolding find
resolve_kid-account_url_example =
    resolve_kid-account_url sample urls owner serving refl no_slash refl refl

padded : IsPadded sample (List.◌∷◌ 0 List.[])
unfolding has_char equals_signs
padded = record {
  body = "AA";
  signs = 2;
  encodes = refl;
  no_sign = refl;
  few = omega arith;
  whole = refl;
  decodes = refl;
}

b64url-round_trip_example :
    b64url_decode sample (b64url_encode sample (List.◌∷◌ 0 List.[])) ≡ some (List.◌∷◌ 0 List.[])
b64url-round_trip_example = b64url-round_trip sample (List.◌∷◌ 0 List.[]) padded
