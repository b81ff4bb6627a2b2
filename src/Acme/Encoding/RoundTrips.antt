-- ===== src/Acme/Encoding/RoundTrips.antt =====
-- Encodings that are read back: account URLs as key identifiers, and unpadded base64url.
use Prim.Native.Nat.{◌+◌, ◌-◌, ◌%◌, ◌<◌}
use Prim.Native.Char.{Char, code}
use Prim.Native.String.{[], ◌∷◌, ◌++◌, count}
use text.Mathlib.TextLemmas.{nil-append, cons-append, append_assoc}
use acme_lan.Prelude.{ℕ, zero, suc, String, ◌≡◌, refl, sym, ◌∙◌, ap, true, false, some, arith}
use acme_lan.Prelude.Text.{is_empty, rstrip, has_char, last_part}
use acme_lan.Platform.{Platform, Bytes}
use acme_lan.Acme.Encoding.{Urls, account_url, equals_signs, b64url_encode, b64url_decode}

rstrip_without : (c : ℕ) (s : String) → has_char c s ≡ false → rstrip c s ≡ s
unfolding rstrip has_char
rstrip_without c [] h = refl
rstrip_without c (x ∷ s) h = ground (arith, rstrip_without c s)

is_empty-append : (t s : String) → is_empty s ≡ false → is_empty (t ++ s) ≡ false
is_empty-append [] s h = rw nil-append h
is_empty-append (x ∷ t) s h = rw cons-append refl

-- What a text that is not stripped is appended to is not stripped either.
rstrip-append :
    (c : ℕ) (t s : String) → is_empty s ≡ false → rstrip c s ≡ s → rstrip c (t ++ s) ≡ t ++ s
unfolding rstrip
rstrip-append c [] s h e = rw nil-append e
rstrip-append c (x ∷ t) s h e =
    rw (cons-append, rstrip-append c t s h e, is_empty-append t s h) ground arith

has_char-append : (c : ℕ) (t s : String) → has_char c s ≡ true → has_char c (t ++ s) ≡ true
unfolding has_char
has_char-append c [] s h = rw nil-append h
has_char-append c (x ∷ t) s h = rw cons-append ground (arith, has_char-append c t s)

last_part-append :
    (c : ℕ) (t s : String) → has_char c s ≡ true → last_part c (t ++ s) ≡ last_part c s
unfolding last_part
last_part-append c [] s h = rw nil-append refl
last_part-append c (x ∷ t) s h =
    let rest = last_part-append c t s h in rw (cons-append, has_char-append c t s h) rest

-- Behind a separator stands a text that has none.
last_part-cons :
    (c : ℕ) (x : Char) (s : String) → code x ≡ c → has_char c s ≡ false → last_part c (x ∷ s) ≡ s
unfolding last_part
last_part-cons c x s e h = rw h ground (arith, e)

has_char-cons : (c : ℕ) (x : Char) (s : String) → code x ≡ c → has_char c (x ∷ s) ≡ true
unfolding has_char
has_char-cons c x s e = ground (arith, e)

rstrip-cons :
    (c : ℕ) (x : Char) (s : String)
    → is_empty s ≡ false
    → has_char c s ≡ false
    → rstrip c (x ∷ s) ≡ x ∷ s
unfolding rstrip
rstrip-cons c x s h n = rw (rstrip_without c s n, h) ground arith

slash-append : (s : String) → "/" ++ s ≡ "/" ∷ s
slash-append s = cons-append "/" "" s ∙ ap (λ t. "/" ∷ t) (nil-append s)

-- An account's URL ends in a slash and the account's id.
account_url-append :
    (urls : Urls) (id : String)
    → account_url urls id ≡ (urls.base ++ (urls.prefix ++ "/acct")) ++ ("/" ∷ id)
account_url-append urls id =
    ap (λ t. urls.base ++ (urls.prefix ++ t)) (append_assoc "/acct" "/" id)
    ∙ (ap (λ t. urls.base ++ (urls.prefix ++ ("/acct" ++ t))) (slash-append id)
        ∙ (ap (λ t. urls.base ++ t) (sym (append_assoc urls.prefix "/acct" ("/" ∷ id)))
            ∙ sym (append_assoc urls.base (urls.prefix ++ "/acct") ("/" ∷ id))))

-- The key identifier that the server hands out, an account's URL, is read back as the
-- account's id, for every id that is not empty and has no slash.
pub account_url-round_trip :
    (urls : Urls) (id : String)
    → is_empty id ≡ false
    → has_char b'/' id ≡ false
    → last_part b'/' (rstrip b'/' (account_url urls id)) ≡ id
account_url-round_trip urls id h n =
    let stripped = rstrip-cons b'/' "/" id h n in
    let found = has_char-cons b'/' "/" id refl in
    rw
      (
        account_url-append urls id,
        rstrip-append b'/' _ ("/" ∷ id) refl stripped,
        last_part-append b'/' _ ("/" ∷ id) found,
      )
      (last_part-cons b'/' "/" id refl n)

rstrip-equals_signs : (k : ℕ) → rstrip b'=' (equals_signs k) ≡ ""
unfolding rstrip equals_signs
rstrip-equals_signs zero = refl
rstrip-equals_signs (suc k) =
    rw (cons-append "=" "" (equals_signs k), nil-append, rstrip-equals_signs k) refl

-- Stripping removes the padding and no more.
rstrip-padding :
    (s : String) (k : ℕ) → has_char b'=' s ≡ false → rstrip b'=' (s ++ equals_signs k) ≡ s
unfolding rstrip has_char
rstrip-padding [] k h = rw nil-append (rstrip-equals_signs k)
rstrip-padding (x ∷ s) k h = let rest = rstrip-padding s k in rw cons-append (ground (arith, rest))

-- What the library's base64url encoder returns: a body without padding signs, padded to a
-- multiple of four, which its decoder reads back.
pub record IsPadded (p : Platform) (bytes : Bytes) : Type 0 where
  pub body : String
  pub signs : ℕ
  pub encodes : p.urlsafe_b64encode bytes ≡ body ++ equals_signs signs
  pub no_sign : has_char b'=' body ≡ false
  pub few : signs < 4
  pub whole : (count body + signs) % 4 ≡ 0
  pub decodes : p.urlsafe_b64decode (p.urlsafe_b64encode bytes) ≡ some bytes

missing_signs : (n k : ℕ) → k < 4 → (n + k) % 4 ≡ 0 → (4 - n % 4) % 4 ≡ k
missing_signs n k h e = omega arith

-- Decoding what was encoded without padding returns the bytes, where the library's encoder pads
-- as base64url says and its decoder reads padded text back.
pub b64url-round_trip :
    (p : Platform) (bytes : Bytes)
    → IsPadded p bytes
    → b64url_decode p (b64url_encode p bytes) ≡ some bytes
unfolding b64url_decode b64url_encode
b64url-round_trip p bytes h =
    rw
      (
        h.encodes,
        rstrip-padding h.body h.signs h.no_sign,
        b64url_decode,
        missing_signs _ _ h.few h.whole,
      )
      (rw (h.encodes) at h.decodes)
