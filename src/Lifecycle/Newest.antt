-- ===== src/Lifecycle/Newest.antt =====
-- Which certificate of a group is kept (certlifecycle.py).
use Prim.Native.Nat.{◌≤◌}
use acme_lan.Prelude.{
  ℕ, String, ◌≡◌, ◌≢◌, refl, sym, true, false, Option, none, some, List, [], ◌∷◌, ◌==◌, inl, inr,
  ◌⊎◌, ltb, arith, eq_iff, All, Any, Bool-cases, if◌then◌else◌,
}
use mathlib.Core.Path.{subst}
use acme_lan.Models.Rows.{Certificate}
use acme_lan.Lifecycle.{group_key, keep_latest, latest_of}

-- What the dictionary has under a key.
unfoldable pub look : String → List (String × Certificate) → Option Certificate
look key [] = none
look key ((k, cert) ∷ latest) = if k == key then some cert else look key latest

newer : Certificate → Option Certificate → Certificate
newer cert none = cert
newer cert (some current) = if ltb current.issued_at cert.issued_at then cert else current

look-keep_latest :
    (key : String) (cert : Certificate) (latest : List (String × Certificate))
    → look key (keep_latest cert latest)
      ≡ (if group_key cert == key then some (newer cert (look key latest)) else look key latest)
unfolding look keep_latest newer
look-keep_latest key cert [] = ground arith
look-keep_latest key cert ((k, current) ∷ latest) = ground (
  arith,
  look-keep_latest key cert latest,
  eq_iff k key,
  eq_iff k (group_key cert),
  eq_iff (group_key cert) key,
)

-- The newest of the certificates with a key, if there is one.
abbrev pub NewestOf : String → List Certificate → Option Certificate → Type 0
NewestOf key certs none = All (λ d. group_key d ≢ key) certs
NewestOf key certs (some c) =
    (group_key c ≡ key)
    × Any (λ d. d ≡ c) certs
    × All (λ d. (group_key d ≢ key) ⊎ (d.issued_at ≤ c.issued_at)) certs

All-map :
    {A : Type 0} {P Q : A → Type 0} (xs : List A) → ((x : A) → P x → Q x) → All P xs → All Q xs
All-map [] f h = tt
All-map (x ∷ xs) f (h, t) = (f x h, All-map xs f t)

at_key : (a key : String) → (a == key) ≡ false → a ≢ key
at_key a key e same = cc (e, (eq_iff a key).1 same)

newer-none : (d : Certificate) → newer d none ≡ d
unfolding newer
newer-none d = refl

newer-later : (d c : Certificate) → ltb c.issued_at d.issued_at ≡ true → newer d (some c) ≡ d
unfolding newer
newer-later d c h = rw h refl

newer-early : (d c : Certificate) → ltb c.issued_at d.issued_at ≡ false → newer d (some c) ≡ c
unfolding newer
newer-early d c h = rw h refl

older : {N : Type 0} (x a b : ℕ) → a ≤ b → N ⊎ (x ≤ a) → N ⊎ (x ≤ b)
older x a b h (inl n) = inl n
older x a b h (inr le) = inr (omega (arith, h, le))

NewestOf-newer :
    (key : String) (seen : List Certificate) (d : Certificate) (o : Option Certificate)
    → group_key d ≡ key
    → NewestOf key seen o
    → NewestOf key (d ∷ seen) (some (newer d o))
NewestOf-newer key seen d none e h =
    subst (λ (k : Certificate). NewestOf key (d ∷ seen) (some k)) (sym (newer-none d))
      (e, inl refl, (inr (ground arith), All-map seen (λ x n. inl n) h))
NewestOf-newer key seen d (some c) e (k, known, best) =
    elim (Bool-cases (ltb c.issued_at d.issued_at)) [
      | inl later ↦
          let below : c.issued_at ≤ d.issued_at = ground (arith, later) in
          subst (λ (k : Certificate). NewestOf key (d ∷ seen) (some k))
            (sym (newer-later d c later))
            (
              e,
              inl refl,
              (inr (ground arith), All-map seen (λ x b. older x.issued_at _ _ below b) best),
            )
      | inr early ↦
          subst (λ (k : Certificate). NewestOf key (d ∷ seen) (some k))
            (sym (newer-early d c early)) (k, inr known, (inr (ground (arith, early)), best))
    ]

NewestOf-other :
    (key : String) (seen : List Certificate) (d : Certificate) (o : Option Certificate)
    → group_key d ≢ key
    → NewestOf key seen o
    → NewestOf key (d ∷ seen) o
NewestOf-other key seen d none n h = (n, h)
NewestOf-other key seen d (some c) n (k, known, best) = (k, inr known, (inl n, best))

NewestOf-keep_latest :
    (key : String) (seen : List Certificate) (d : Certificate)
    (latest : List (String × Certificate))
    → NewestOf key seen (look key latest)
    → NewestOf key (d ∷ seen) (look key (keep_latest d latest))
NewestOf-keep_latest key seen d latest h = elim (Bool-cases (group_key d == key)) [
  | inl same ↦
      rw (look-keep_latest, same)
        (NewestOf-newer key seen d (look key latest) ((eq_iff (group_key d) key).0 same) h)
  | inr other ↦
      rw (look-keep_latest, other)
        (NewestOf-other key seen d (look key latest) (at_key _ _ other) h)
]

rev_onto : List Certificate → List Certificate → List Certificate
rev_onto [] seen = seen
rev_onto (c ∷ certs) seen = rev_onto certs (c ∷ seen)

All-rev_onto :
    (P : Certificate → Type 0) (certs seen : List Certificate)
    → All P (rev_onto certs seen)
    → All P certs × All P seen
unfolding rev_onto
All-rev_onto P [] seen h = (tt, h)
All-rev_onto P (c ∷ certs) seen h =
    let (hs, (hc, t)) = All-rev_onto P certs (c ∷ seen) h in ((hc, hs), t)

Any-rev_onto :
    (P : Certificate → Type 0) (certs seen : List Certificate)
    → Any P (rev_onto certs seen)
    → Any P certs ⊎ Any P seen
unfolding rev_onto
Any-rev_onto P [] seen h = inr h
Any-rev_onto P (c ∷ certs) seen h = elim (Any-rev_onto P certs (c ∷ seen) h) [
  | inl a ↦ inl (inr a)
  | inr (inl here) ↦ inl (inl here)
  | inr (inr a) ↦ inr a
]

NewestOf-latest_of :
    (key : String) (certs seen : List Certificate) (latest : List (String × Certificate))
    → NewestOf key seen (look key latest)
    → NewestOf key (rev_onto certs seen) (look key (latest_of certs latest))
unfolding latest_of rev_onto
NewestOf-latest_of key [] seen latest h = h
NewestOf-latest_of key (c ∷ certs) seen latest h =
    NewestOf-latest_of key certs (c ∷ seen) (keep_latest c latest)
      (NewestOf-keep_latest key seen c latest h)

in_order :
    (key : String) (certs : List Certificate) (o : Option Certificate)
    → NewestOf key (rev_onto certs []) o
    → NewestOf key certs o
in_order key certs none h = (All-rev_onto _ certs [] h).0
in_order key certs (some c) (k, known, best) =
    (k, only (Any-rev_onto _ certs [] known), (All-rev_onto _ certs [] best).0)
  where
    only : Any (λ d. d ≡ c) certs ⊎ ⊥ → Any (λ d. d ≡ c) certs
    only (inl a) = a
    only (inr b) = elim b [ ]

-- Under each group's key the dictionary of the latest certificates has one of the group's
-- certificates that no other one was issued after, and nothing if the group is empty.
pub latest_of-NewestOf :
    (key : String) (certs : List Certificate) → NewestOf key certs (look key (latest_of certs []))
unfolding look
latest_of-NewestOf key certs = in_order key certs _ (NewestOf-latest_of key certs [] [] tt)
