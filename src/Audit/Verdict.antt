-- ===== src/Audit/Verdict.antt =====
-- What the verdict of an audit says of the certificates that were issued (certaudit.py).
use Prim.Native.Nat.{◌≤◌}
use acme_lan.Prelude.{
  ℕ, String, ◌≡◌, refl, ap, sym, ◌∙◌, Bool, true, false, Option, none, some, List, [], ◌∷◌, inl,
  inr, ◌⊎◌, ◌==◌, All, Any, ltb, arith, eq_iff, eq_refl, Bool-cases, Option-cases, if◌then◌else◌,
}
use acme_lan.Platform.{Platform}
use acme_lan.Audit.{
  IssuedCert, Messages, sort_key, max_by, live_of, same_text, compare_served, is_true, norm_serial,
  known_serial, matches_latest, matches_issued, audit_live, audit_of, audit_deployment,
  foreign_issuer,
}

max_by-above :
    (best : IssuedCert) (certs : List IssuedCert) → sort_key best ≤ sort_key (max_by best certs)
unfolding max_by
max_by-above best [] = ground arith
max_by-above best (cert ∷ certs) = elim (Bool-cases (ltb (sort_key best) (sort_key cert))) [
  | inl less ↦ let above = max_by-above cert certs in rw less (ground (arith, less, above))
  | inr more ↦ rw more (max_by-above best certs)
]

max_by-less :
    (best cert : IssuedCert) (certs : List IssuedCert)
    → ltb (sort_key best) (sort_key cert) ≡ true
    → max_by best (cert ∷ certs) ≡ max_by cert certs
unfolding max_by
max_by-less best cert certs less = rw less refl

max_by-more :
    (best cert : IssuedCert) (certs : List IssuedCert)
    → ltb (sort_key best) (sort_key cert) ≡ false
    → max_by best (cert ∷ certs) ≡ max_by best certs
unfolding max_by
max_by-more best cert certs more = rw more refl

-- The certificate that counts as the newest is one of the greatest.
max_by-greatest :
    (m best : IssuedCert) (certs : List IssuedCert)
    → max_by best certs ≡ m
    → All (λ cert. sort_key cert ≤ sort_key m) certs
max_by-greatest m best [] e = tt
max_by-greatest m best (cert ∷ certs) e = elim (Bool-cases (ltb (sort_key best) (sort_key cert))) [
  | inl less ↦
      let e' : max_by cert certs ≡ m = sym (max_by-less best cert certs less) ∙ e in
      let above : sort_key cert ≤ sort_key m = rw⁻¹ e' (max_by-above cert certs) in
      (above, max_by-greatest m cert certs e')
  | inr more ↦
      let e' : max_by best certs ≡ m = sym (max_by-more best cert certs more) ∙ e in
      let above : sort_key best ≤ sort_key m = rw⁻¹ e' (max_by-above best certs) in
      (ground (arith, more, above), max_by-greatest m best certs e')
]

-- It is one of the certificates.
max_by-Any :
    (m best : IssuedCert) (certs : List IssuedCert)
    → max_by best certs ≡ m
    → Any (λ cert. cert ≡ m) (best ∷ certs)
unfolding max_by
max_by-Any m best [] e = inl e
max_by-Any m best (cert ∷ certs) e = elim (Bool-cases (ltb (sort_key best) (sort_key cert))) [
  | inl less ↦ inr (max_by-Any m cert certs (sym (max_by-less best cert certs less) ∙ e))
  | inr more ↦ skip (max_by-Any m best certs (sym (max_by-more best cert certs more) ∙ e))
]
  where
    skip : Any (λ c. c ≡ m) (best ∷ certs) → Any (λ c. c ≡ m) (best ∷ cert ∷ certs)
    skip (inl here) = inl here
    skip (inr later) = inr (inr later)

-- The live certificates are those that were issued and are not retired.
chosen : {A : Type 0} (b : Bool) (x y : A) → b ≡ false → (if b then x else y) ≡ y
chosen true x y e = cc
chosen false x y e = refl

live_cons :
    (cert : IssuedCert) (issued : List IssuedCert)
    → cert.retired ≡ false
    → live_of (cert ∷ issued) ≡ cert ∷ live_of issued
unfolding live_of
live_cons cert issued on = chosen cert.retired (live_of issued) (cert ∷ live_of issued) on

live_skip :
    (cert : IssuedCert) (issued : List IssuedCert)
    → cert.retired ≡ true
    → live_of (cert ∷ issued) ≡ live_of issued
unfolding live_of
live_skip cert issued gone = rw gone refl

live_of-Any :
    (m : IssuedCert) (issued : List IssuedCert)
    → Any (λ cert. cert ≡ m) (live_of issued)
    → Any (λ cert. cert ≡ m) issued × (m.retired ≡ false)
unfolding live_of
live_of-Any m [] h = absurd h
live_of-Any m (cert ∷ issued) h = elim (Bool-cases cert.retired) [
  | inl gone ↦
      let (stored, on) = live_of-Any m issued (rw (live_skip cert issued gone) at h) in
      (inr stored, on)
  | inr on ↦ by_place on (live_of-Any m issued) (rw (live_cons cert issued on) at h)
]
  where
    by_place :
        cert.retired ≡ false
        → (Any (λ c. c ≡ m) (live_of issued) → Any (λ c. c ≡ m) issued × (m.retired ≡ false))
        → (cert ≡ m) ⊎ Any (λ c. c ≡ m) (live_of issued)
        → Any (λ c. c ≡ m) (cert ∷ issued) × (m.retired ≡ false)
    by_place on rest (inl here) = (inl here, ap (λ (c : IssuedCert). c.retired) (sym here) ∙ on)
    by_place on rest (inr later) = let (stored, off) = rest later in (inr stored, off)

live_of-All :
    (k : ℕ) (issued : List IssuedCert)
    → All (λ cert. sort_key cert ≤ k) (live_of issued)
    → All (λ cert. cert.retired ≡ false → sort_key cert ≤ k) issued
live_of-All k [] h = tt
live_of-All k (cert ∷ issued) h = elim (Bool-cases cert.retired) [
  | inl gone ↦ (λ on. cc (gone, on), live_of-All k issued (rw (live_skip cert issued gone) at h))
  | inr on ↦
      let (now, later) = rw (live_cons cert issued on) at h in
      (λ _. now, live_of-All k issued later)
]

module _ (p : Platform) where
  known_head :
      (cert : IssuedCert) (certs : List IssuedCert) (s : String)
      → norm_serial p cert.serial ≡ some s
      → known_serial p s (cert ∷ certs) ≡ true
  unfolding known_serial
  known_head cert certs s e = rw (e, eq_refl s) refl

  known_tail :
      (cert : IssuedCert) (certs : List IssuedCert) (s : String)
      → known_serial p s certs ≡ true
      → known_serial p s (cert ∷ certs) ≡ true
  unfolding known_serial
  known_tail cert certs s e = elim (Bool-cases (same_text (norm_serial p cert.serial) (some s))) [
    | inl same ↦ rw same refl
    | inr other ↦ rw other e
  ]

  known_skip :
      (best cert : IssuedCert) (certs : List IssuedCert) (s : String)
      → known_serial p s (best ∷ certs) ≡ true
      → known_serial p s (best ∷ cert ∷ certs) ≡ true
  unfolding known_serial
  known_skip best cert certs s e =
      elim (Bool-cases (same_text (norm_serial p best.serial) (some s))) [
        | inl same ↦ rw same refl
        | inr other ↦ rw other (known_tail cert certs s (rw other at e))
      ]

  max_by-known :
      (best : IssuedCert) (certs : List IssuedCert) (s : String)
      → norm_serial p (max_by best certs).serial ≡ some s
      → known_serial p s (best ∷ certs) ≡ true
  unfolding max_by
  max_by-known best [] s e = known_head best [] s e
  max_by-known best (cert ∷ certs) s e = elim (Bool-cases (ltb (sort_key best) (sort_key cert))) [
    | inl less ↦
        known_tail best (cert ∷ certs) s
          (max_by-known cert certs s (rw (max_by-less best cert certs less) at e))
    | inr more ↦
        known_skip best cert certs s
          (max_by-known best certs s (rw (max_by-more best cert certs more) at e))
  ]

  matched :
      (served latest : Option String)
      → is_true (matches_latest p served latest) ≡ true
      → (s : String) × (served ≡ some s) × (latest ≡ some s)
  unfolding is_true matches_latest
  matched none latest e = cc
  matched (some s) none e = cc
  matched (some s) (some t) e = (s, refl, ap some (sym ((eq_iff s t).0 e)))

  found_known :
      (served : Option String) (live : List IssuedCert) {s : String}
      → served ≡ some s
      → known_serial p s live ≡ true
      → matches_issued p served live ≡ some true
  unfolding matches_issued
  found_known none live e known = cc
  found_known (some t) live {s} e known = let same : t ≡ s = cc e in rw same (ap some known)

  other_text : {b : Bool} (text : String) → text == "ok" ≡ false → text ≡ "ok" → b ≡ true
  other_text text apart e =
      let absurd : false ≡ true = sym apart ∙ (ap (λ t. t == "ok") e ∙ eq_refl "ok") in cc absurd

  not_ok :
      (messages : Messages) {b : Bool} (of_issued : Option Bool) (served issuer : Option String)
      (live : List IssuedCert)
      → (compare_served messages (some false) of_issued served issuer live).status ≡ "ok"
      → b ≡ true
  unfolding compare_served is_true
  not_ok messages of_issued served issuer live e = elim (Bool-cases (is_true of_issued)) [
    | inl ours ↦ other_text "stale" refl (rw ours at e)
    | inr other ↦ elim (Option-cases served) [
      | inl absent ↦ other_text "unknown_records" refl (rw absent at (rw other at e))
      | inr (serial, sent) ↦ elim (Bool-cases (foreign_issuer issuer live)) [
        | inl strange ↦ other_text "foreign" refl (rw strange at (rw sent at (rw other at e)))
        | inr usual ↦ other_text "unknown" refl (rw usual at (rw sent at (rw other at e)))
      ]
    ]
  ]

  ok_matched :
      (messages : Messages) (of_latest of_issued : Option Bool) (served issuer : Option String)
      (live : List IssuedCert)
      → (compare_served messages of_latest of_issued served issuer live).status ≡ "ok"
      → is_true of_latest ≡ true
  unfolding compare_served is_true
  ok_matched messages none of_issued served issuer live e =
      not_ok messages of_issued served issuer live e
  ok_matched messages (some true) of_issued served issuer live e = refl
  ok_matched messages (some false) of_issued served issuer live e =
      not_ok messages of_issued served issuer live e

  -- The newest certificate of a list, and that it is the one that is served.
  record IsLatest (served : Option String) (live : List IssuedCert) : Type 0 where
    pub newest : IssuedCert
    pub stored : Any (λ cert. cert ≡ newest) live
    pub serial : String
    pub sent : norm_serial p served ≡ some serial
    pub of_latest : norm_serial p newest.serial ≡ some serial
    pub known : known_serial p serial live ≡ true
    pub greatest : All (λ cert. sort_key cert ≤ sort_key newest) live

  audit_of-IsLatest :
      (served issuer this : Option String) (renew_before_days now : ℕ) (live : List IssuedCert)
      → (audit_of p served issuer this renew_before_days now live).status ≡ "ok"
      → IsLatest served live
        × ((audit_of p served issuer this renew_before_days now live).matches_issued ≡ some true)
  unfolding audit_of audit_live
  audit_of-IsLatest served issuer this renew_before_days now [] e =
      let absurd : false ≡ true = other_text "unknown_records" refl e in cc absurd
  audit_of-IsLatest served issuer this renew_before_days now (cert ∷ certs) e =
      let (serial, sent, of_latest) =
        matched (norm_serial p served) (norm_serial p (max_by cert certs).serial)
          (ok_matched _ _ _ _ _ _ e) in
      let known = max_by-known cert certs serial of_latest in
      (
        record {
          newest = max_by cert certs;
          stored = max_by-Any (max_by cert certs) cert certs refl;
          serial = serial;
          sent = sent;
          of_latest = of_latest;
          known = known;
          greatest = (max_by-above cert certs, max_by-greatest (max_by cert certs) cert certs refl);
        },
        found_known (norm_serial p served) (cert ∷ certs) sent known,
      )

  -- What is served is the newest of the issued certificates that are not retired.
  pub record ServesLatest (served : Option String) (issued : List IssuedCert) : Type 0 where
    pub newest : IssuedCert
    pub serial : String
    pub sent : norm_serial p served ≡ some serial
    pub of_newest : norm_serial p newest.serial ≡ some serial
    pub stored : Any (λ cert. cert ≡ newest) issued
    pub unretired : newest.retired ≡ false
    pub greatest : All (λ cert. cert.retired ≡ false → sort_key cert ≤ sort_key newest) issued

  -- An endpoint is reported as "ok" only if it serves the serial number of a certificate that was
  -- issued for the name and is not retired, and whose date (the end, or else the issue) no other such
  -- certificate is later than; it is then also reported as serving one that was issued.
  pub audit_deployment-ServesLatest :
      (served issuer this : Option String) (issued : List IssuedCert) (renew_before_days now : ℕ)
      → (audit_deployment p served issuer issued renew_before_days this now).status ≡ "ok"
      → ServesLatest served issued
        × ((audit_deployment p served issuer issued renew_before_days this now).matches_issued
            ≡ some true)
  unfolding audit_deployment
  audit_deployment-ServesLatest served issuer this issued renew_before_days now e =
      let (latest, matches) =
        audit_of-IsLatest served issuer this renew_before_days now (live_of issued) e in
      let (stored, unretired) = live_of-Any latest.newest issued latest.stored in
      (
        record {
          newest = latest.newest;
          serial = latest.serial;
          sent = latest.sent;
          of_newest = latest.of_latest;
          stored = stored;
          unretired = unretired;
          greatest = live_of-All (sort_key latest.newest) issued latest.greatest;
        },
        matches,
      )
