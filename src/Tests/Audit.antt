-- ===== src/Tests/Audit.antt =====
-- The theorems on the audit of deployments at concrete certificates.
use acme_lan.Prelude.{◌≡◌, refl, true, false, none, some, [], ◌∷◌}
use acme_lan.Audit.{IssuedCert, live_of, audit_deployment}
use acme_lan.Audit.Verdict.{ServesLatest, audit_deployment-ServesLatest}
use acme_lan.Tests.Sample.{sample}

abbrev old : IssuedCert
old = record {
  serial = some "0x0A";
  not_after = some 10;
  issued_at = some 1;
  issuer = some "CA";
  retired = false;
}

abbrev new : IssuedCert
new = record old { serial = some "B"; not_after = some 20 }

abbrev withdrawn : IssuedCert
withdrawn = record old { serial = some "C"; not_after = some 30; retired = true }

current :
    (audit_deployment sample (some "0:B") none (old ∷ new ∷ withdrawn ∷ []) 1 none 5).status ≡ "ok"
unfolding audit_deployment acme_lan.Audit.audit_of live_of acme_lan.Audit.audit_live
    acme_lan.Audit.compare_served acme_lan.Audit.is_true acme_lan.Audit.matches_latest
    acme_lan.Audit.norm_serial acme_lan.Audit.max_by acme_lan.Audit.sort_key acme_lan.Audit.norm
    acme_lan.Audit.nonempty_or_zero acme_lan.Audit.strip_zeros acme_lan.Audit.without_0x
    acme_lan.Oidc.replace_from
current = refl

audit_deployment-ServesLatest_example :
    ServesLatest sample (some "0:B") (old ∷ new ∷ withdrawn ∷ [])
    × ((audit_deployment sample
          (some "0:B")
          none
          (old ∷ new ∷ withdrawn ∷ [])
          1
          none
          5).matches_issued
        ≡ some true)
audit_deployment-ServesLatest_example =
    audit_deployment-ServesLatest sample (some "0:B") none none (old ∷ new ∷ withdrawn ∷ []) 1 5
      current
