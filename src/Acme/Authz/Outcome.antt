-- ===== src/Acme/Authz/Outcome.antt =====
-- What the answer to a challenge decides (acme/authz.py).
use Prim.Native.String.{◌++◌}
use acme_lan.Prelude.{
  String, ◌≡◌, refl, Bool, true, false, some, inl, inr, starts_with, Any, Bool-cases,
}
use acme_lan.Json.{str}
use acme_lan.Platform.{Platform}
use acme_lan.Exec.{ok, err, ◌>>=◌}
use acme_lan.Exec.Returns.{bind_ok}
use acme_lan.Models.Rows.{Authorization, Challenge, AuthzStatus, ChallengeStatus, World}
use acme_lan.Models.Session.{commit, now, write, draw}
use acme_lan.Table.{find, find-put_same}
use acme_lan.Validators.{ValidationResult}
use acme_lan.Acme.Errors.{malformed}
use acme_lan.Acme.Encoding.{Urls}
use acme_lan.Acme.Nonce.{issue_nonce}
use acme_lan.Acme.Jws.{VerifiedRequest}
use acme_lan.Acme.Common.{acme_json_response, acme_raw_response}
use acme_lan.Acme.Authz.{resolve_challenge, resolve_authz, challenge_response, validate, attempt}
use acme_lan.Acme.Orders.Create.{challenge_types}

abbrev pub authz_after : Bool → AuthzStatus
authz_after true = AuthzStatus.valid
authz_after false = AuthzStatus.invalid

abbrev pub challenge_after : Bool → ChallengeStatus
challenge_after true = ChallengeStatus.valid
challenge_after false = ChallengeStatus.invalid

-- The response issues a nonce and leaves what is committed alone.
challenge_response_db :
    (p : Platform) (c : Challenge) (a : Authorization) (urls : Urls) (w : World)
    → (challenge_response p c a urls w).1.db ≡ w.db
unfolding challenge_response acme_json_response acme_raw_response issue_nonce draw now ◌>>=◌
challenge_response_db p c a urls w = refl

module _ (p : Platform) (v : VerifiedRequest) (ch : Challenge) (authz : Authorization)
    (urls : Urls) where
  -- An answered challenge whose check ran is committed as valid or invalid, by the result of the
  -- check. So is its authorization, whatever its status was before and whatever its other
  -- challenges say: a failed check makes a valid authorization invalid.
  pub attempt_decides :
      (w : World) (result : ValidationResult)
      → (validate p v ch authz w).0 ≡ ok result
      → (c : Challenge) × (find (λ x. x.id) ch.id (attempt p v ch authz urls w).1.db.challenges
          ≡ some c)
        × (c.status ≡ challenge_after result.passed)
        × (find (λ x. x.id) authz.id (attempt p v ch authz urls w).1.db.authorizations
            ≡ some (record authz { status = authz_after result.passed }))
  unfolding attempt now write commit resolve_challenge resolve_authz ◌>>=◌
  attempt_decides w result e =
      rw (bind_ok (validate p v ch authz) _ w e, challenge_response_db)
        elim (Bool-cases result.passed) [
          | inl y ↦ rw y (
            _,
            find-put_same (λ (x : Challenge). x.id) _ _,
            refl,
            find-put_same (λ (x : Authorization). x.id) _ _,
          )
          | inr n ↦ rw n (
            _,
            find-put_same (λ (x : Challenge). x.id) _ _,
            refl,
            find-put_same (λ (x : Authorization). x.id) _ _,
          )
        ]

-- Attempting a challenge of a kind that is offered for a wildcard name is refused, and leaves
-- the state as it was.
pub wildcard_stuck :
    (p : Platform) (v : VerifiedRequest) (ch : Challenge) (authz : Authorization) (urls : Urls)
    (value : String)
    → starts_with value "*." ≡ true
    → Any (λ kind. kind ≡ ch.kind) (challenge_types (starts_with value "*."))
    → (w : World)
    → attempt p v ch authz urls w ≡ (
      err (
          malformed (
            "Challenge type " ++ (p.repr (str ch.kind) ++ " is not supported for validation yet"))),
      w,
    )
unfolding attempt validate challenge_types ◌>>=◌
wildcard_stuck p v ch authz urls value h k w = elim (rw h at k) [
  | inl is_dns ↦ rw⁻¹ is_dns refl
  | inr nothing ↦ elim nothing [ ]
]
