-- ===== src/Tests/Passwords.antt =====
-- A password hashed and verified, with the codings by which a text says how long the bytes are.
use Prim.Native.String.{count}
use acme_lan.Prelude.{ℕ, zero, suc, String, List, ◌≡◌, refl, true, some}
use acme_lan.Prelude.Text.{has_char}
use acme_lan.Platform.{Platform, Bytes}
use acme_lan.Exec.{ok}
use acme_lan.Users.{hash_password, verify_password}
use acme_lan.Users.Hashes.{Readable, hash_password-verify_password}
use acme_lan.Tests.Sample.{sample}
use acme_lan.Tests.Login.{office}

abbrev zeros : ℕ → Bytes
zeros zero = List.[]
zeros (suc n) = List.◌∷◌ 0 (zeros n)

abbrev bytes_text : Bytes → String
bytes_text List.[] = ""
bytes_text (List.◌∷◌ x b) = String.◌∷◌ "A" (bytes_text b)

abbrev hashing : Platform
hashing = record sample {
  token_bytes = λ _. zeros 16;
  pbkdf2 = λ n _ _ _. some (zeros n);
  b64encode = bytes_text;
  b64decode = λ s. some (zeros (count s));
  number_text = λ _. "AAA";
  parse_int = λ s. some (count s);
}

zeros-Readable : Readable hashing "secret" 3 office (zeros 32)
unfolding has_char
zeros-Readable = record {
  derives = refl;
  bytes = refl;
  salt_read = refl;
  derived_read = refl;
  count_read = refl;
  salt_text = refl;
  derived_text = refl;
  count_text = refl;
}

hash_password-verify_password_example :
    (stored : String) × ((hash_password hashing "secret" 3 office).0 ≡ ok stored)
    × (verify_password hashing "secret" stored ≡ true)
hash_password-verify_password_example =
    hash_password-verify_password hashing "secret" 3 office (zeros 32) refl zeros-Readable
