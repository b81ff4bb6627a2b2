-- ===== src/Tests/Requests.antt =====
-- Requests that the sample server verifies, and the state after each step of a run.
use acme_lan.Prelude.{refl, none, List, ◌≡◌}
use acme_lan.Prelude.Text.{rstrip, has_char, last_part, first_part}
use acme_lan.Json.{end}
use acme_lan.Exec.{ok, catch, ◌>>=◌}
use acme_lan.Table.{find, put}
use acme_lan.Models.Rows.{World}
use acme_lan.Models.Session.{commit, now, draw, write, run}
use acme_lan.Acme.Nonce.{issue_nonce, consume_nonce, holds, without}
use acme_lan.Acme.Encoding.{
  b64url_encode, b64url_decode, equals_signs, urls_for, profile_prefix, profile_from_request,
}
use acme_lan.Acme.Jws.{
  VerifiedRequest, thumbprint_b64, parse_jws, parse_members, parse_header, parse_object, parse_alg,
  parse_nonce, decode_member, resolve_kid, resolve_key, key_type, signing_input, decode_payload,
  verify_signature, verify_rsa, rsa_hash, check_key, after_nonce, verify_jws,
}
use acme_lan.Acme.Common.{Request, Response, read_verified, actual_url, acme_json_response, serve}
use acme_lan.Acme.Directory
use acme_lan.Acme.Server.Endpoints.{handle, new_nonce_get, Reach, here, next, request, initial}
use acme_lan.Acme.Server.Replay.{IsAccepted, opened}
use acme_lan.Acme.Accounts.{authorize_account, payload_fields, urls_of}
use acme_lan.Acme.Authz.{owned_by, validate}
use acme_lan.Acme.Profiles.{resolve_profile_upstream}
use acme_lan.Acme.Certificates.{
  authorize_revocation, stored_record, has_serial, is_same_leaf, issued_for, allowed,
}
use acme_lan.Acme.Orders.Status.{recompute_order_status, derived_status}
use acme_lan.Acme.Orders.Create.{owned_order, order_response}
use acme_lan.Acme.Orders.Finalize.{
  finalize_order, require_ready, parse_csr, decode_csr, match_names, require_csr, issue,
  record_issuance,
}
use acme_lan.Validators.{ValidationResult, same_bytes, validate_http01, check_http_answer}
use acme_lan.Tests.Sample.{sample, serving, rsa_key, leaf, http_challenge, valid_authz}

-- Signed by an embedded key, and by the key of the account `a`.
abbrev pub by_key : Request
by_key = record {
  content_type = "application/jose+json";
  path = "/p";
  body = List.◌∷◌ 1 List.[];
  profile = none;
}

abbrev pub by_account : Request
by_account = record {
  content_type = "application/jose+json";
  path = "/p";
  body = List.◌∷◌ 2 List.[];
  profile = none;
}

abbrev pub signed_by_key : VerifiedRequest
signed_by_key = record {
  payload = none;
  protected = end;
  account_id = none;
  account = none;
  jwk = rsa_key;
  jwk_dict = rsa_key;
}

-- The server after it has answered one newNonce request.
abbrev pub started : World
started = (serve sample (handle sample new_nonce_get) initial).1

pub started-Reach : Reach sample initial started
started-Reach = next here (request new_nonce_get)

pub by_key-IsAccepted : IsAccepted sample by_key (opened sample started)
unfolding rstrip has_char last_part first_part ◌>>=◌ find put commit now draw write run issue_nonce
    consume_nonce holds without b64url_encode b64url_decode equals_signs parse_jws parse_members
    parse_header parse_object parse_alg parse_nonce decode_member resolve_kid resolve_key key_type
    signing_input decode_payload verify_signature verify_rsa rsa_hash check_key after_nonce
    verify_jws read_verified actual_url acme_json_response serve handle Directory.new_nonce_get
    catch
by_key-IsAccepted = (_, refl)

pub by_account-IsAccepted : IsAccepted sample by_account serving
unfolding rstrip has_char last_part first_part ◌>>=◌ find put commit now draw write run issue_nonce
    consume_nonce holds without b64url_encode b64url_decode equals_signs parse_jws parse_members
    parse_header parse_object parse_alg parse_nonce decode_member resolve_kid resolve_key key_type
    signing_input decode_payload verify_signature verify_rsa rsa_hash check_key after_nonce
    verify_jws read_verified actual_url acme_json_response serve handle Directory.new_nonce_get
    catch
by_account-IsAccepted = (_, refl)

-- The JWS itself, and an answer to finalize.
pub signed_by_account :
    (v : VerifiedRequest) × ((verify_jws sample "/p" by_account.body serving).0 ≡ ok v)
unfolding rstrip has_char last_part first_part ◌>>=◌ find put commit now draw write run issue_nonce
    consume_nonce holds without b64url_encode b64url_decode equals_signs parse_jws parse_members
    parse_header parse_object parse_alg parse_nonce decode_member resolve_kid resolve_key key_type
    signing_input decode_payload verify_signature verify_rsa rsa_hash check_key after_nonce
    verify_jws read_verified actual_url acme_json_response serve handle Directory.new_nonce_get
    catch
signed_by_account = (_, refl)

pub finalized : (r : Response) × ((finalize_order sample "o" by_account serving).0 ≡ ok r)
unfolding rstrip has_char last_part first_part ◌>>=◌ find put commit now draw write run issue_nonce
    consume_nonce holds without b64url_encode b64url_decode equals_signs parse_jws parse_members
    parse_header parse_object parse_alg parse_nonce decode_member resolve_kid resolve_key key_type
    signing_input decode_payload verify_signature verify_rsa rsa_hash check_key after_nonce
    verify_jws read_verified actual_url acme_json_response serve handle Directory.new_nonce_get
    catch finalize_order authorize_account owned_order owned_by recompute_order_status
    derived_status require_ready parse_csr payload_fields decode_csr match_names require_csr
    resolve_profile_upstream issue record_issuance order_response urls_of urls_for profile_prefix
    profile_from_request
finalized = (_, refl)

-- The certificate's own key may revoke it.
pub revocable :
    (u : Unit {0}) × ((authorize_revocation sample leaf
        (List.◌∷◌ 40 List.[])
        signed_by_key
        serving).0
      ≡ ok u)
unfolding authorize_revocation stored_record has_serial is_same_leaf issued_for allowed owned_by
    same_bytes ◌>>=◌ find
revocable = (_, refl)

-- The check of the challenge runs, and finds another key authorization.
pub checked :
    (r : ValidationResult) × ((validate sample signed_by_key http_challenge valid_authz serving).0
      ≡ ok r)
unfolding validate validate_http01 check_http_answer thumbprint_b64 b64url_encode rstrip draw ◌>>=◌
checked = (_, refl)
