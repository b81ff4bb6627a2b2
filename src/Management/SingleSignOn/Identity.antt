-- ===== src/Management/SingleSignOn/Identity.antt =====
-- Where the claims of an OIDC login come from, and what is checked of them (oidc.py,
-- management/auth_api.py).
use acme_lan.Prelude.{ℕ, String, ◌≡◌, refl, ◌∙◌, ap, true, inl, inr, ◌/◌, Bool-cases}
use acme_lan.Json.{Json, Fields, str, obj, get}
use acme_lan.Platform.{Platform}
use acme_lan.Exec.{ok, ◌>>=◌}
use acme_lan.Exec.Returns.{bind_returned, lift_returned}
use acme_lan.Models.Rows.{OidcState, World}
use acme_lan.Models.Session.{now, commit, draw, write}
use acme_lan.Management.SingleSignOn.Frame.{Undisturbed, Keeps-fetch_discovery, Keeps-exchange_code}
use acme_lan.Users.{purge_expired_sessions}
use acme_lan.Oidc.{
  is_issuer, is_audience, is_current, is_nonce, validate_claims, fetch_discovery, exchange_code,
  decode_jwt_claims,
}
use acme_lan.Management.SingleSignOn.{issuer_of, claims_of, oidc_discovery, check_token, identify}

Undisturbed-clock : (time : ℕ) → Undisturbed (λ w. w.clock ≡ time)
unfolding draw commit write purge_expired_sessions now ◌>>=◌
Undisturbed-clock time = record {
  draws = record { at = λ w h. h };
  commits = record { at = λ w h. h };
  users = λ u. record { at = λ w h. h };
  sessions = λ s. record { at = λ w h. h };
  purges = record { at = λ w h. h };
}

module _ (p : Platform) where
  -- Claims that `validate_claims` lets pass.
  pub record Valid (claims : Fields) (issuer client_id nonce : String) (time : ℕ) : Type 0 where
    pub of_issuer : is_issuer p claims issuer ≡ true
    pub of_client : is_audience p claims client_id ≡ true
    pub unexpired : is_current p claims time ≡ true
    pub of_request : is_nonce p claims nonce ≡ true

  validate_claims-Valid :
      (claims : Fields) (issuer client_id nonce : String) (time : ℕ) {done : Unit {0}}
      → validate_claims p claims issuer client_id nonce time ≡ ok done
      → Valid claims issuer client_id nonce time
  unfolding validate_claims
  validate_claims-Valid claims issuer client_id nonce time e =
      elim (Bool-cases (is_issuer p claims issuer)) [
        | inr a ↦ cc (rw a at e)
        | inl a ↦ elim (Bool-cases (is_audience p claims client_id)) [
          | inr b ↦ cc (rw b at (rw a at e))
          | inl b ↦ elim (Bool-cases (is_current p claims time)) [
            | inr c ↦ cc (rw c at (rw b at (rw a at e)))
            | inl c ↦ elim (Bool-cases (is_nonce p claims nonce)) [
              | inr d ↦ cc (rw d at (rw c at (rw b at (rw a at e))))
              | inl d ↦ record { of_issuer = a; of_client = b; unexpired = c; of_request = d }
            ]
          ]
        ]
      ]

  -- Where the claims of a login come from: the provider's discovery document, its answer to the
  -- code, and the ID token in it, whose claims are valid for the document's issuer.
  pub record Identified (code : String) (row : OidcState) (w : World) (claims : Fields)
      : Type 0 where
    pub document : Fields
    pub tokens : Fields
    pub issuer : String
    pub fetched : (fetch_discovery p (oidc_discovery p) w).0 ≡ ok document
    pub exchanged :
        (exchange_code p document code p.settings.oidc_client_id p.settings.oidc_client_secret
          row.redirect_uri row.code_verifier
          (fetch_discovery p (oidc_discovery p) w).1).0
        ≡ ok tokens
    pub decoded : decode_jwt_claims p (get "id_token" tokens) ≡ ok (obj claims)
    pub named : get "issuer" document ≡ str issuer
    pub valid : Valid claims issuer p.settings.oidc_client_id row.nonce (w.clock / 1000000)

  claims_read : (value : Json) {claims : Fields} → claims_of value ≡ ok claims → value ≡ obj claims
  claims_read (obj fields) e = let same : fields ≡ _ = cc e in ap obj same
  claims_read _ e = cc

  issuer_read : (value : Json) {issuer : String} → issuer_of value ≡ ok issuer → value ≡ str issuer
  issuer_read (str s) e = let same : s ≡ _ = cc e in ap str same
  issuer_read _ e = cc

  check_token-Valid :
      (row : OidcState) (document tokens : Fields) (w : World) {claims : Fields}
      → (check_token p row document tokens w).0 ≡ ok claims
      → (issuer : String) × (decode_jwt_claims p (get "id_token" tokens) ≡ ok (obj claims))
        × (get "issuer" document ≡ str issuer)
        × Valid claims issuer p.settings.oidc_client_id row.nonce (w.clock / 1000000)
  unfolding check_token now ◌>>=◌
  check_token-Valid row document tokens w {claims} e =
      let (decoded, read, one) =
        lift_returned (decode_jwt_claims p (get "id_token" tokens)) _ w e in
      let (found, is_object, two) = lift_returned (claims_of decoded) _ w (rw one at e) in
      let (issuer, is_text, three) =
        lift_returned (issuer_of (get "issuer" document)) _ w (rw two at (rw one at e)) in
      let (_, checked, four) =
        lift_returned
          (validate_claims p found issuer p.settings.oidc_client_id row.nonce (w.clock / 1000000)) _
          w (rw three at (rw two at (rw one at e))) in
      let same : found ≡ claims = cc (rw four at (rw three at (rw two at (rw one at e)))) in
      (
        issuer,
        read ∙ ap ok (claims_read decoded is_object ∙ ap obj same),
        issuer_read (get "issuer" document) is_text,
        rw⁻¹ same (validate_claims-Valid found issuer _ _ _ checked),
      )

  pub identify-Identified :
      (code : String) (row : OidcState) (w : World) {claims : Fields}
      → (identify p code row w).0 ≡ ok claims
      → Identified code row w claims
  unfolding identify
  identify-Identified code row w e =
      let clock = Undisturbed-clock w.clock in
      let (document, got, one) = bind_returned (fetch_discovery p (oidc_discovery p)) _ w e in
      let (tokens, given, two) =
        bind_returned
          (exchange_code p document code p.settings.oidc_client_id p.settings.oidc_client_secret
            row.redirect_uri row.code_verifier)
          _ _ (rw one at e) in
      let (issuer, decoded, named, valid) =
        check_token-Valid row document tokens _ (rw two at (rw one at e)) in
      let fetched = (Keeps-fetch_discovery p clock (oidc_discovery p)).at w refl in
      let same =
        (Keeps-exchange_code p clock document code p.settings.oidc_client_id
            p.settings.oidc_client_secret row.redirect_uri row.code_verifier).at
          _ fetched in
      record {
        document = document;
        tokens = tokens;
        issuer = issuer;
        fetched = got;
        exchanged = given;
        decoded = decoded;
        named = named;
        valid = rw⁻¹ same valid;
      }
