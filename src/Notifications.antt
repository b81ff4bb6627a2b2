-- ===== src/Notifications.antt =====
-- notifications.py: warnings about certificates that expire, over the configured channels.
use Prim.Native.Nat.{suc, ◌+◌}
use Prim.Native.String.{◌++◌}
use acme_lan.Prelude.{
  ℕ, String, Bool, true, false, Option, none, some, List, [], ◌∷◌, ltb, if◌then◌else◌,
}
use acme_lan.Prelude.Text.{is_empty, join}
use acme_lan.Platform.{Platform}
use acme_lan.Exec.{Result, ok, err, pure, ◌>>=◌, ◌>>◌}
use acme_lan.Models.Rows.{Certificate}
use acme_lan.Models.Session.{Handler, commit, now, draw, write, put_certificate}
use acme_lan.Lifecycle.{ℤ, pos, negsuc, ExpiryInfo, expiry_info, expiring_certificates}

-- The `data` of a notification: a dictionary with these keys.
pub record ExpiryData : Type 0 where
  pub certificate_id : String
  pub domains : List String
  pub not_after : Option String
  pub days_until_expiry : Option ℤ
  pub expired : Option Bool

pub record Notification : Type 0 where
  pub subject : String
  pub message : String
  pub about : ExpiryData

-- A delivery returns whether it succeeded, or raises.
pub record NotificationChannel : Type 0 where
  pub send : ℕ → Notification → Result Bool

-- Truth of a list of domains.
abbrev domains_or : List String → String → List String
domains_or [] other = other ∷ []
domains_or (d ∷ ds) other = d ∷ ds

abbrev subject_or_id : Option String → String → String
subject_or_id none id = id
subject_or_id (some subject) id = if is_empty subject then id else subject

-- One more when a channel delivered: a failure or an exception is passed over.
unfoldable pub count_sent : Result Bool → ℕ → ℕ
count_sent (ok true) n = suc n
count_sent (ok false) n = n
count_sent (err e) n = n

unfoldable pub send_notification : Notification → List NotificationChannel → Handler ℕ
send_notification note [] = pure 0
send_notification note (channel ∷ channels) = do
  n ← draw
  rest ← send_notification note channels
  pure (count_sent (channel.send n note) rest)

-- The two kinds of channels, which only call HTTP services.
abbrev Postmark : Type 0
Postmark = String → String → String → NotificationChannel

module _ (p : Platform) (postmark : Postmark) (webhook : String → NotificationChannel) where
  unfoldable pub get_channels : List NotificationChannel
  get_channels =
      let s = p.settings in
      let hooks = if is_empty s.notify_webhook_url then [] else webhook s.notify_webhook_url ∷ [] in
      if is_empty s.postmark_server_token
      then hooks
      else if is_empty s.notify_email_from
      then hooks
      else if is_empty s.notify_email_to
      then hooks
      else postmark s.postmark_server_token s.notify_email_from s.notify_email_to ∷ hooks

module _ (p : Platform) where
  abbrev days_text : Option ℤ → String
  days_text none = "None"
  days_text (some (pos n)) = p.number_text n
  days_text (some (negsuc n)) = "-" ++ p.number_text (suc n)

  abbrev state_text : ExpiryInfo → String
  state_text info = elim info.expired [
    | some true ↦ "has EXPIRED"
    | _ ↦ "expires in " ++ (days_text info.days_until_expiry ++ " day(s)")
  ]

  abbrev end_text : Option ℕ → String
  end_text none = "None"
  end_text (some time) = p.time_text time

  abbrev iso_or_none : Option ℕ → Option String
  iso_or_none none = none
  iso_or_none (some time) = some (p.iso_format time)

  unfoldable pub expiry_note : Certificate → ExpiryInfo → Notification
  expiry_note cert info =
      let domains = join ", " (domains_or cert.domains (subject_or_id cert.subject cert.id)) in
      record {
        subject = "[acme-lan] Certificate for " ++ (domains ++ (" " ++ state_text info));
        message =
            "The certificate for "
            ++ (domains
                ++ (" "
                    ++ (state_text info
                        ++ (" (not_after="
                            ++ (end_text cert.not_after
                                ++ ").\nRenew it, or retire it in acme-lan if it is no longer required.")))));
        about = record {
          certificate_id = cert.id;
          domains = cert.domains;
          not_after = iso_or_none cert.not_after;
          days_until_expiry = info.days_until_expiry;
          expired = info.expired;
        };
      }

  -- A certificate is marked as warned about when one channel delivered.
  unfoldable pub mark_warned : Certificate → ℕ → Handler ℕ
  mark_warned cert sent =
      if ltb 0 sent
      then (do
        time ← now
        write (put_certificate (record cert { expiry_warned_at = some time }))
        pure 1)
      else pure 0

  unfoldable pub warn_one : List NotificationChannel → Certificate → Handler ℕ
  warn_one channels cert = elim cert.expiry_warned_at [
    | some time ↦ pure 0
    | none ↦ now >>= λ time.
        send_notification (expiry_note cert (expiry_info cert p.settings.expiry_warn_days time))
          channels
        >>= mark_warned cert
  ]

  unfoldable pub warn_each : List NotificationChannel → List Certificate → Handler ℕ
  warn_each channels [] = pure 0
  warn_each channels (cert ∷ certs) = do
    warned ← warn_one channels cert
    rest ← warn_each channels certs
    pure (warned + rest)

  unfoldable pub notify_expiring : List NotificationChannel → Handler ℕ
  notify_expiring [] = pure 0
  notify_expiring (channel ∷ channels) = do
    certs ← expiring_certificates p.settings.expiry_warn_days
    warned ← warn_each (channel ∷ channels) certs
    commit
    pure warned
