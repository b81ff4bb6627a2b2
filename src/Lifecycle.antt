-- ===== src/Lifecycle.antt =====
-- certlifecycle.py: expiry of certificates, the newest one of each group, and retirement.
pub mod Expiry
pub mod Newest
use Prim.Native.Char.{code}
use Prim.Native.String
use acme_lan.Prelude.{
  ℕ, String, Bool, true, false, not, ◌&&◌, ◌-◌, ◌/◌, Option, none, some, List, [], ◌∷◌, ◌==◌, eqb,
  ltb, leb, select, if◌then◌else◌,
}
use acme_lan.Prelude.Text.{is_empty, join}
use acme_lan.Exec.{pure, gets, ◌>>=◌, ◌>>◌}
use acme_lan.Models.Rows.{Certificate}
use acme_lan.Models.Session.{Handler, commit, now, write, put_certificate}

-- An integer over the native numbers: `negsuc n` is `-(n + 1)`.
pub data ℤ : Type 0 where
  pos negsuc : ℕ → ℤ

abbrev pub day : ℕ
day = 86400000000

-- `(a - b).days`, which rounds down.
unfoldable pub days_between : ℕ → ℕ → ℤ
days_between a b = if leb b a then pos ((a - b) / day) else negsuc ((b - a - 1) / day)

unfoldable pub is_negative : ℤ → Bool
is_negative (pos n) = false
is_negative (negsuc n) = true

-- `days <= n`.
unfoldable pub at_most : ℤ → ℕ → Bool
at_most (pos d) n = leb d n
at_most (negsuc d) n = true

pub record ExpiryInfo : Type 0 where
  pub days_until_expiry : Option ℤ
  pub expired : Option Bool
  pub expiring_soon : Bool

unfoldable pub expiry_info : Certificate → ℕ → ℕ → ExpiryInfo
expiry_info cert warn_days time = elim cert.not_after [
  | none ↦ record { days_until_expiry = none; expired = none; expiring_soon = false }
  | some not_after ↦ record {
    days_until_expiry = some (days_between not_after time);
    expired = some (is_negative (days_between not_after time));
    expiring_soon = not cert.retired && at_most (days_between not_after time) warn_days;
  }
]

-- `a <= b` on texts: by code points.
unfoldable pub text_leb : String → String → Bool
text_leb String.[] b = true
text_leb (String.◌∷◌ x a) String.[] = false
text_leb (String.◌∷◌ x a) (String.◌∷◌ y b) =
    let rest = text_leb a b in
    if ltb (code x) (code y) then true else if eqb (code x) (code y) then rest else false

unfoldable pub insert : String → List String → List String
insert x [] = x ∷ []
insert x (y ∷ ys) = let rest = insert x ys in if text_leb x y then x ∷ y ∷ ys else y ∷ rest

unfoldable pub sorted : List String → List String
sorted [] = []
sorted (x ∷ xs) = insert x (sorted xs)

-- `host_id or ",".join(sorted(domains)) or id`.
unfoldable pub or_else : String → String → String
or_else s other = if is_empty s then other else s

unfoldable pub group_key : Certificate → String
group_key cert = elim cert.host_id [
  | none ↦ or_else (join "," (sorted cert.domains)) cert.id
  | some host_id ↦ or_else host_id (or_else (join "," (sorted cert.domains)) cert.id)
]

-- One turn of the loop: the dictionary keeps the place of a key that it has.
unfoldable pub keep_latest : Certificate → List (String × Certificate) → List (String × Certificate)
keep_latest cert [] = (group_key cert, cert) ∷ []
keep_latest cert ((k, current) ∷ latest) =
    let rest = keep_latest cert latest in
    if k == group_key cert
    then (if ltb current.issued_at cert.issued_at then (k, cert) else (k, current)) ∷ latest
    else (k, current) ∷ rest

unfoldable pub latest_of :
    List Certificate → List (String × Certificate) → List (String × Certificate)
latest_of [] latest = latest
latest_of (cert ∷ certs) latest = latest_of certs (keep_latest cert latest)

unfoldable pub expires_within : ℕ → ℕ → Certificate → Bool
expires_within warn_days time cert = elim cert.not_after [
  | none ↦ false
  | some not_after ↦ at_most (days_between not_after time) warn_days
]

-- `latest.values()`.
unfoldable pub values : List (String × Certificate) → List Certificate
values [] = []
values ((k, cert) ∷ latest) = cert ∷ values latest

unfoldable pub expiring_certificates : ℕ → Handler (List Certificate)
expiring_certificates warn_days = do
  certs ← gets (λ w. select (λ c. not c.retired) w.tx.certificates)
  time ← now
  pure (select (expires_within warn_days time) (values (latest_of certs [])))

unfoldable pub retire_certificate : Certificate → Option String → Handler Certificate
retire_certificate cert reason = do
  time ← now
  let cert' : Certificate = record cert {
    retired = true;
    retired_at = some time;
    retired_reason = reason;
  }
  write (put_certificate cert')
  commit
  pure cert'

unfoldable pub unretire_certificate : Certificate → Handler Certificate
unretire_certificate cert = do
  let cert' : Certificate = record cert {
    retired = false;
    retired_at = none;
    retired_reason = none;
  }
  write (put_certificate cert')
  commit
  pure cert'
