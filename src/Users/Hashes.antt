-- ===== src/Users/Hashes.antt =====
-- What hash_password stores is what verify_password reads (users.py).
use Prim.Native.Char.{code}
use Prim.Native.String.{[], ◌∷◌, ◌++◌}
use text.Mathlib.TextLemmas.{nil-append, cons-append}
use acme_lan.Prelude.{
  ℕ, String, List, ◌≡◌, refl, ap, true, false, some, arith, length, eqb, Bool-cases, inl, inr,
}
use acme_lan.Prelude.Text.{is_empty, has_char}
use acme_lan.Platform.{Platform, Bytes}
use acme_lan.Exec.{ok, ◌>>=◌}
use acme_lan.Models.Rows.{World}
use acme_lan.Models.Session.{draw}
use acme_lan.Validators.{same_bytes}
use acme_lan.Users.{algorithm, split, check_parts, hash_password, verify_password}

same_bytes_refl : (b : Bytes) → same_bytes b b ≡ true
unfolding same_bytes
same_bytes_refl List.[] = refl
same_bytes_refl (List.◌∷◌ x b) = let rest = same_bytes_refl b in ground arith

-- A text without the separator is one part.
split_whole : (c : ℕ) (s : String) → has_char c s ≡ false → split c s ≡ List.◌∷◌ s List.[]
unfolding split has_char
split_whole c [] h = refl
split_whole c (x ∷ s) h = elim (Bool-cases (eqb (code x) c)) [
  | inl same ↦ cc (rw same at h)
  | inr other ↦ rw (other, split_whole c s (cc (rw other at h))) refl
]

-- Up to the first separator stands the first part.
split-append :
    (c : ℕ) (s t : String) (parts : List String)
    → has_char c s ≡ false
    → split c t ≡ List.◌∷◌ "" parts
    → split c (s ++ t) ≡ List.◌∷◌ s parts
unfolding split has_char
split-append c [] t parts h e = rw nil-append e
split-append c (x ∷ s) t parts h e = elim (Bool-cases (eqb (code x) c)) [
  | inl same ↦ cc (rw same at h)
  | inr other ↦ rw (cons-append, other, split-append c s t parts (cc (rw other at h)) e) refl
]

split-dollar : (t : String) → split b'$' ("$" ++ t) ≡ List.◌∷◌ "" (split b'$' t)
unfolding split
split-dollar t = rw (cons-append, nil-append) refl

split_field :
    (s t : String)
    → has_char b'$' s ≡ false
    → split b'$' (s ++ ("$" ++ t)) ≡ List.◌∷◌ s (split b'$' t)
split_field s t h = split-append b'$' s ("$" ++ t) (split b'$' t) h (split-dollar t)

algorithm_text : has_char b'$' algorithm ≡ false
unfolding has_char
algorithm_text = refl

-- The three texts without a dollar sign behind the algorithm's name are read back.
split-parts :
    (a b c : String)
    → has_char b'$' a ≡ false
    → has_char b'$' b ≡ false
    → has_char b'$' c ≡ false
    → split b'$' (algorithm ++ ("$" ++ (a ++ ("$" ++ (b ++ ("$" ++ c))))))
      ≡ List.◌∷◌ algorithm (List.◌∷◌ a (List.◌∷◌ b (List.◌∷◌ c List.[])))
split-parts a b c ha hb hc =
    rw
      (
        split_field algorithm (a ++ ("$" ++ (b ++ ("$" ++ c)))) algorithm_text,
        split_field a (b ++ ("$" ++ c)) ha,
        split_field b c hb,
        split_whole b'$' c hc,
      )
      refl

module _ (p : Platform) (password : String) (iterations : ℕ) (w : World) where
  -- The bytes that are salted with are those of the next draw.
  abbrev salt : Bytes
  salt = p.token_bytes w.draws

  -- What the libraries do with the salt, the derived key and the number of iterations: they derive
  -- a key of the length asked for, and read back what they wrote, which has no dollar sign.
  pub record Readable (derived : Bytes) : Type 0 where
    pub derives : p.pbkdf2 32 salt iterations password ≡ some derived
    pub bytes : length derived ≡ 32
    pub salt_read : p.b64decode (p.b64encode salt) ≡ some salt
    pub derived_read : p.b64decode (p.b64encode derived) ≡ some derived
    pub count_read : p.parse_int (p.number_text iterations) ≡ some iterations
    pub salt_text : has_char b'$' (p.b64encode salt) ≡ false
    pub derived_text : has_char b'$' (p.b64encode derived) ≡ false
    pub count_text : has_char b'$' (p.number_text iterations) ≡ false

  -- What is stored for a derived key.
  abbrev written : Bytes → String
  written derived =
      algorithm
      ++ ("$"
          ++ (p.number_text iterations
              ++ ("$" ++ (p.b64encode salt ++ ("$" ++ p.b64encode derived)))))

  written_kept : (derived : Bytes) → is_empty (written derived) ≡ false
  written_kept derived = ap is_empty (cons-append "p" "bkdf2_sha256" _)

  verify_password-written :
      (derived : Bytes)
      → is_empty password ≡ false
      → Readable derived
      → verify_password p password (written derived) ≡ true
  unfolding verify_password check_parts
  verify_password-written derived h r =
      let parts = split-parts _ _ _ r.count_text r.salt_text r.derived_text in
      rw
        (
          h,
          written_kept derived,
          parts,
          r.salt_read,
          r.derived_read,
          r.count_read,
          r.bytes,
          r.derives,
        )
        (same_bytes_refl derived)

  -- A password that is not empty is hashed, and verifies against the hash, when the key is derived
  -- with the length asked for, and the salt, the key and the number of iterations are read back
  -- from their texts, which have no dollar sign.
  pub hash_password-verify_password :
      (derived : Bytes)
      → is_empty password ≡ false
      → Readable derived
      → (stored : String) × ((hash_password p password iterations w).0 ≡ ok stored)
        × (verify_password p password stored ≡ true)
  unfolding hash_password draw ◌>>=◌
  hash_password-verify_password derived h r =
      let made : (hash_password p password iterations w).0 ≡ ok (written derived) =
        rw (h, r.derives) refl in
      (written derived, made, verify_password-written derived h r)
