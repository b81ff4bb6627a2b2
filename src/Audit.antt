-- ===== src/Audit.antt =====
-- certaudit.py: whether an endpoint serves the certificate that was issued for it.
pub mod Verdict
use Prim.Native.Char.{code}
use Prim.Native.String
use Prim.Native.String.{◌++◌}
use acme_lan.Prelude.{
  ℕ, suc, ◌-◌, ◌+◌, ◌*◌, String, Bool, true, false, not, ◌&&◌, Option, none, some, List, ◌==◌, ltb,
  eqb, starts_with, if◌then◌else◌,
}
use acme_lan.Prelude.Text.{is_empty, drop_chars}
use acme_lan.Oidc.{replace_from, first_chars}
use acme_lan.Platform.{Platform}
use acme_lan.Lifecycle.{day, days_between, ℤ, pos, negsuc}

pub record IssuedCert : Type 0 where
  pub serial : Option String
  pub not_after : Option ℕ
  pub issued_at : Option ℕ
  pub issuer : Option String
  pub retired : Bool

pub record Finding : Type 0 where
  pub code : String
  pub severity : String
  pub message : String

pub record DeploymentAudit : Type 0 where
  pub status : String
  pub matches_issued : Option Bool
  pub matches_latest : Option Bool
  pub serving_this : Option Bool
  pub latest_issued_serial : Option String
  pub latest_issued_at : Option String
  pub latest_issued_not_after : Option String
  pub renewal_overdue : Option Bool
  pub renewal_due_at : Option String
  pub findings : List Finding

-- `text.lstrip("0")`.
unfoldable pub strip_zeros : String → String
strip_zeros String.[] = ""
strip_zeros (String.◌∷◌ c s) = if eqb (code c) b'0' then strip_zeros s else String.◌∷◌ c s

-- `text.removeprefix(prefix)`, for two characters.
unfoldable pub without_0x : String → String
without_0x s = if starts_with s "0x" then drop_chars 2 s else s

unfoldable pub nonempty_or_zero : String → String
nonempty_or_zero s = if is_empty s then "0" else s

-- A text that may be missing or empty: `if not text`.
abbrev pub nonempty : Option String → Option String
nonempty none = none
nonempty (some s) = if is_empty s then none else some s

-- `_aware(cert.not_after) or _aware(cert.issued_at) or datetime.min`.
unfoldable pub sort_key : IssuedCert → ℕ
sort_key cert = elim cert.not_after [
  | some time ↦ time
  | none ↦ elim cert.issued_at [ some time ↦ time | none ↦ 0 ]
]

-- `max(live, key=_sort_key)`: the first of the greatest.
unfoldable pub max_by : IssuedCert → List IssuedCert → IssuedCert
max_by best List.[] = best
max_by best (List.◌∷◌ cert certs) =
    max_by (if ltb (sort_key best) (sort_key cert) then cert else best) certs

unfoldable pub live_of : List IssuedCert → List IssuedCert
live_of List.[] = List.[]
live_of (List.◌∷◌ cert certs) =
    let rest = live_of certs in if cert.retired then rest else List.◌∷◌ cert rest

abbrev pub same_text : Option String → Option String → Bool
same_text none none = true
same_text (some a) (some b) = a == b
same_text _ _ = false

-- `served_issuer in {c.issuer for c in live if c.issuer}`, for an issuer that is not empty.
unfoldable pub known_issuer : String → List IssuedCert → Bool
known_issuer issuer List.[] = false
known_issuer issuer (List.◌∷◌ cert certs) =
    if same_text cert.issuer (some issuer) then true else known_issuer issuer certs

-- The comparison of the served certificate, with its finding.
pub record Comparison : Type 0 where
  pub status : String
  pub finding : Option Finding

-- The texts of the three warnings, for `compare_served`.
pub record Messages : Type 0 where
  pub stale : String
  pub foreign : String
  pub unknown : String

unfoldable pub warning : String → String → Option Finding
warning code message = some (record { code = code; severity = "warning"; message = message })

unfoldable pub is_true : Option Bool → Bool
is_true none = false
is_true (some b) = b

unfoldable pub foreign_issuer : Option String → List IssuedCert → Bool
foreign_issuer none live = false
foreign_issuer (some issuer) live = not (known_issuer issuer live)

unfoldable pub compare_served :
    Messages
    → Option Bool
    → Option Bool
    → Option String
    → Option String
    → List IssuedCert
    → Comparison
compare_served messages matches_latest matches_issued served served_issuer live =
    if is_true matches_latest
    then record { status = "ok"; finding = none }
    else if is_true matches_issued
    then record { status = "stale"; finding = warning "not_latest_certificate" messages.stale }
    else elim served [
      | none ↦ record { status = "unknown_records"; finding = none }
      | some _ ↦
          if foreign_issuer served_issuer live
          then record {
            status = "foreign";
            finding = warning "third_party_issuer" messages.foreign;
          }
          else record {
            status = "unknown";
            finding = warning "unknown_certificate" messages.unknown;
          }
    ]

-- `abs(days)`; days that are shown bare are not negative.
unfoldable pub days_ago : ℤ → ℕ
days_ago (pos n) = n
days_ago (negsuc n) = suc n

-- `now > reference - timedelta(days=renew_before_days)`.
unfoldable pub is_overdue : ℕ → ℕ → ℕ → Bool
is_overdue reference renew_before_days now = ltb reference (now + renew_before_days * day)

unfoldable pub overdue_finding : String → Option ℕ → ℕ → ℕ → Option Finding
overdue_finding message none renew_before_days now = none
overdue_finding message (some reference) renew_before_days now =
    if is_overdue reference renew_before_days now
    then some (record {
      code = "renewal_overdue";
      severity = if ltb reference now then "error" else "warning";
      message = message;
    })
    else none

abbrev pub overdue_of : Option ℕ → ℕ → ℕ → Option Bool
overdue_of none renew_before_days now = none
overdue_of (some reference) renew_before_days now =
    some (is_overdue reference renew_before_days now)

abbrev pub findings_of : Option Finding → Option Finding → List Finding
findings_of none none = List.[]
findings_of (some f) none = List.◌∷◌ f List.[]
findings_of none (some g) = List.◌∷◌ g List.[]
findings_of (some f) (some g) = List.◌∷◌ f (List.◌∷◌ g List.[])

module _ (p : Platform) where
  unfoldable pub norm : String → String
  norm serial =
      nonempty_or_zero (strip_zeros (without_0x (replace_from 0 ":" "" (p.lower (p.strip serial)))))

  unfoldable pub norm_serial : Option String → Option String
  norm_serial none = none
  norm_serial (some serial) = if is_empty serial then none else some (norm serial)

  -- `served in known`, for a serial that is there.
  unfoldable pub known_serial : String → List IssuedCert → Bool
  known_serial serial List.[] = false
  known_serial serial (List.◌∷◌ cert certs) =
      if same_text (norm_serial cert.serial) (some serial) then true else known_serial serial certs

  unfoldable pub serving_this : Option String → Option String → Option Bool
  serving_this none served = none
  serving_this (some this) none = none
  serving_this (some this) (some served) =
      if not (is_empty this) && not (is_empty served) then some (norm this == norm served) else none

  unfoldable pub matches_issued : Option String → List IssuedCert → Option Bool
  matches_issued none live = none
  matches_issued (some served) live = some (known_serial served live)

  -- `served == _norm_serial(latest.serial) if served and latest.serial else None`.
  unfoldable pub matches_latest : Option String → Option String → Option Bool
  matches_latest none serial = none
  matches_latest (some served) none = none
  matches_latest (some served) (some serial) = some (served == serial)

  abbrev iso_text : Option ℕ → Option String
  iso_text none = none
  iso_text (some time) = some (p.iso_format time)

  -- A text that may be missing, in an f-string.
  abbrev shown : Option String → String
  shown none = "None"
  shown (some s) = s

  abbrev issued_on : Option ℕ → String
  issued_on none = "unknown date"
  issued_on (some time) = first_chars 10 (p.iso_format time)

  unfoldable pub messages_of : IssuedCert → Option String → Option String → Messages
  messages_of latest served_serial served_issuer = record {
    stale =
        "Serving an older certificate: a newer one (serial "
        ++ (shown latest.serial
            ++ (", issued "
                ++ (issued_on latest.issued_at
                    ++ ") has been issued but is not installed on the endpoint.")));
    foreign =
        "The served certificate was issued by "
        ++ (shown served_issuer
            ++ ", which is not a CA acme-lan has issued this name from — it was obtained outside acme-lan.");
    unknown =
        "The served certificate (serial "
        ++ (shown served_serial
            ++ ") was not issued through acme-lan, though it comes from a CA acme-lan also uses.");
  }

  unfoldable pub overdue_message : ℕ → ℕ → ℕ → String
  overdue_message reference renew_before_days now =
      if ltb reference now
      then "The newest certificate acme-lan issued for this name expired "
        ++ (p.number_text (days_ago (days_between reference now))
            ++ " day(s) ago and no renewal has been requested.")
      else "No renewal has been requested and the newest certificate acme-lan issued expires in "
        ++ (p.number_text (days_ago (days_between reference now))
            ++ (" day(s); a compliant ACME client renews with at least "
                ++ (p.number_text renew_before_days ++ " days remaining.")))

  unfoldable pub overdue_text : Option ℕ → ℕ → ℕ → String
  overdue_text none renew_before_days now = ""
  overdue_text (some reference) renew_before_days now =
      overdue_message reference renew_before_days now

  -- The time of renewal, for one that is not before the epoch.
  unfoldable pub due_at : Option ℕ → ℕ → Option String
  due_at none renew_before_days = none
  due_at (some reference) renew_before_days =
      some (p.iso_format (reference - renew_before_days * day))

  unfoldable pub audit_live :
      Option String
      → Option String
      → Option String
      → ℕ
      → ℕ
      → IssuedCert
      → List IssuedCert
      → DeploymentAudit
  audit_live served_serial served_issuer this_serial renew_before_days now latest live =
      let served = norm_serial served_serial in
      let of_latest = matches_latest served (norm_serial latest.serial) in
      let of_issued = matches_issued served live in
      let comparison =
        compare_served (messages_of latest served_serial served_issuer) of_latest of_issued served
          (nonempty served_issuer) live in
      record {
        status = comparison.status;
        matches_issued = of_issued;
        matches_latest = of_latest;
        serving_this = serving_this this_serial served_serial;
        latest_issued_serial = latest.serial;
        latest_issued_at = iso_text latest.issued_at;
        latest_issued_not_after = iso_text latest.not_after;
        renewal_overdue = overdue_of latest.not_after renew_before_days now;
        renewal_due_at = due_at latest.not_after renew_before_days;
        findings = findings_of comparison.finding (
            overdue_finding (overdue_text latest.not_after renew_before_days now) latest.not_after
              renew_before_days now);
      }

  unfoldable pub audit_of :
      Option String → Option String → Option String → ℕ → ℕ → List IssuedCert → DeploymentAudit
  audit_of served_serial served_issuer this_serial renew_before_days now List.[] = record {
    status = "unknown_records";
    matches_issued = none;
    matches_latest = none;
    serving_this = serving_this this_serial served_serial;
    latest_issued_serial = none;
    latest_issued_at = none;
    latest_issued_not_after = none;
    renewal_overdue = none;
    renewal_due_at = none;
    findings =
        List.◌∷◌
          (record {
            code = "no_issued_certificates";
            severity = "info";
            message =
                "acme-lan has not issued a certificate for this name, so the served certificate cannot be compared against its own records.";
          })
          List.[];
  }
  audit_of served_serial served_issuer this_serial renew_before_days now (List.◌∷◌ cert certs) =
      audit_live served_serial served_issuer this_serial renew_before_days now (max_by cert certs)
        (List.◌∷◌ cert certs)

  unfoldable pub audit_deployment :
      Option String → Option String → List IssuedCert → ℕ → Option String → ℕ → DeploymentAudit
  audit_deployment served_serial served_issuer issued renew_before_days this_serial now =
      audit_of served_serial served_issuer this_serial renew_before_days now (live_of issued)
