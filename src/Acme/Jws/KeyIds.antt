-- ===== src/Acme/Jws/KeyIds.antt =====
-- The key identifier that an account is told, read back by `resolve_kid` (acme/jws.py).
use acme_lan.Prelude.{◌≡◌, refl, false, some, eq_iff}
use acme_lan.Prelude.Text.{is_empty, has_char}
use acme_lan.Json.{str}
use acme_lan.Platform.{Platform}
use acme_lan.Exec.{ok, or_raise, require, ◌>>=◌}
use acme_lan.Models.Rows.{Account, World}
use acme_lan.Models.Session
use acme_lan.Acme.Encoding.{Urls, account_url}
use acme_lan.Acme.Encoding.RoundTrips.{account_url-round_trip}
use acme_lan.Acme.Jws.{resolve_kid}

-- The URL of a valid account, which the server hands out as the account's location, resolves as a
-- key identifier to the key of that account and to the account, and nothing changes. The account's
-- id is not empty and has no slash.
pub resolve_kid-account_url :
    (p : Platform) (urls : Urls) (account : Account) (w : World)
    → is_empty account.id ≡ false
    → has_char b'/' account.id ≡ false
    → Session.account account.id w ≡ some account
    → account.status ≡ "valid"
    → resolve_kid p (str (account_url urls account.id)) w ≡ (ok (account.jwk, some account), w)
unfolding resolve_kid ◌>>=◌
resolve_kid-account_url p urls account w full whole found valid =
    let same = account_url-round_trip urls account.id full whole in
    let is_valid = (eq_iff account.status "valid").1 valid in
    rw (resolve_kid, same, found, or_raise, is_valid, require) refl
