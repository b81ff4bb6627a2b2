-- ===== src/Upstream/Edge.antt =====
-- upstream/edge.py: what the responder at the edge answers.
pub mod Serving
use Prim.Native.String
use Prim.Native.String.{◌++◌, count}
use acme_lan.Prelude.Text.{drop_chars}
use acme_lan.Prelude.{
  ℕ, zero, suc, String, Option, none, some, List, [], ◌∷◌, ◌==◌, starts_with, if◌then◌else◌,
}

abbrev pub challenge_prefix : String
challenge_prefix = "/.well-known/acme-challenge/"

-- `_tokens[token] = key_authorization`.
unfoldable pub register : String → String → List (String × String) → List (String × String)
register token key_authorization [] = (token, key_authorization) ∷ []
register token key_authorization ((t, v) ∷ tokens) =
    let rest = register token key_authorization tokens in
    if t == token then (token, key_authorization) ∷ tokens else (t, v) ∷ rest

unfoldable pub lookup : String → List (String × String) → Option String
lookup token [] = none
lookup token ((t, v) ∷ tokens) = if t == token then some v else lookup token tokens

unfoldable pub status_and_body : Option String → ℕ × String
status_and_body none = (404, "")
status_and_body (some content) = (200, content)

unfoldable pub do_get : List (String × String) → String → ℕ × String
do_get tokens path =
    if starts_with path challenge_prefix
    then status_and_body (lookup (drop_chars (count challenge_prefix) path) tokens)
    else (404, "")
