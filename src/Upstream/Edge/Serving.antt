-- ===== src/Upstream/Edge/Serving.antt =====
-- What a registered token is answered with (upstream/edge.py).
use Prim.Native.String.{◌++◌, count}
use text.Mathlib.TextLemmas.{nil-append, cons-append, length-cons}
use text.Mathlib.TextPositions.{starts_with-append}
use acme_lan.Prelude.{
  Bool-cases, inl, inr, String, ◌≡◌, refl, some, List, [], ◌∷◌, ◌==◌, arith, eq_iff, if◌then◌else◌,
}
use acme_lan.Prelude.Text.{drop_chars}
use acme_lan.Upstream.Edge.{challenge_prefix, register, lookup, status_and_body, do_get}

lookup-register :
    (token other key_authorization : String) (tokens : List (String × String))
    → lookup other (register token key_authorization tokens)
      ≡ (if token == other then some key_authorization else lookup other tokens)
unfolding lookup register
lookup-register token other v [] = refl
lookup-register token other v ((t, u) ∷ tokens) = ground (
  arith,
  lookup-register token other v tokens,
  eq_iff t token,
  eq_iff token other,
  eq_iff t other,
)

dropped : (t s : String) → drop_chars (count t) (t ++ s) ≡ s
unfolding drop_chars
dropped String.[] s = nil-append s
dropped (String.◌∷◌ c t) s = rw (length-cons c t, cons-append) (dropped t s)

-- After a token was registered, a request for it is answered with its key authorization, and a
-- request for another token as before.
pub do_get-register :
    (token other key_authorization : String) (tokens : List (String × String))
    → do_get (register token key_authorization tokens) (challenge_prefix ++ other) ≡ (
        if token == other
        then (200, key_authorization)
        else do_get tokens (challenge_prefix ++ other))
unfolding do_get status_and_body
do_get-register token other v tokens = elim (Bool-cases (token == other)) [
  | inl same ↦
      rw
        (
          starts_with-append challenge_prefix other,
          dropped challenge_prefix other,
          lookup-register token other v tokens,
          same,
        )
        refl
  | inr apart ↦
      rw
        (
          starts_with-append challenge_prefix other,
          dropped challenge_prefix other,
          lookup-register token other v tokens,
          apart,
        )
        refl
]
