-- ===== src/Acme/Server/Replay.antt =====
-- Replays of an ACME request (acme/jws.py and acme/nonce.py) against the server as a whole.
use acme_lan.Prelude.{
  ℕ, suc, ◌<◌, String, ◌≡◌, refl, Bool, true, false, some, List, [], ◌∷◌, ◌++◌, ◌==◌, arith, eq_iff,
  eq_refl, sym, ap, ◌∙◌, inl, inr, Bool-cases, if◌then◌else◌,
}
use acme_lan.Platform.{Platform, Bytes}
use acme_lan.Exec.{Result, ok, err}
use acme_lan.Exec.Keeps.{Keeps}
use acme_lan.Exec.Returns.{bind_returned, bind_ok, lift_returned, require_returned}
use acme_lan.Models.Rows.{Nonce, World}
use acme_lan.Models.Session.{commit, draw, write}
use acme_lan.Acme.Errors.{Exc}
use acme_lan.Acme.Nonce.{issue_nonce, holds, consume_nonce}
use acme_lan.Acme.Nonce.SingleUse.{holds-append, consume_nonce_lem, issue_nonce_lem}
use acme_lan.Acme.Jws.{VerifiedRequest, Parsed, parse_jws, verify_jws}
use acme_lan.Acme.Jws.ReadOnly.{Keeps-after_nonce}
use acme_lan.Acme.Common.{Request, actual_url, read_verified, serve}
use acme_lan.Acme.Server.Endpoints.{
  Call, handle, request_of, request, tick, Reach, here, next, initial,
}
use acme_lan.Acme.Server.Frame.{Stable}
use acme_lan.Acme.Server.Frame.Serve.{Reads-handle, Keeps-serve, serve-keeps}

-- Two draws give different texts.
abbrev pub IsInjective : (ℕ → String) → Type 0
IsInjective f = (a b : ℕ) → f a ≡ f b → a ≡ b

module _ (p : Platform) where
  -- The nonce of draw `k` was drawn, and is not stored.
  pub record Spent (k : ℕ) (w : World) : Type 0 where
    pub drawn : k < w.draws
    pub gone : holds (p.token_urlsafe k) w.nonces ≡ false

  -- Every stored nonce is the text of a draw.
  abbrev pub Drawn : World → Type 0
  Drawn w =
      (v : String) → holds v w.nonces ≡ true → (k : ℕ) × (k < w.draws) × (v ≡ p.token_urlsafe k)

  module _ (distinct : IsInjective p.token_urlsafe) where
    Spent-issue : (k : ℕ) → Keeps (Spent k) (issue_nonce p)
    Spent-issue k = record {
      at = λ w h. rw issue_nonce_lem (record {
        drawn = omega (arith, h.drawn);
        gone = rw holds-append (
            ground (
              arith,
              h.gone,
              h.drawn,
              eq_iff (p.token_urlsafe w.draws) (p.token_urlsafe k),
              distinct w.draws k,
            ));
      });
    }

    Spent-consume : (k : ℕ) (value : String) → Keeps (Spent k) (consume_nonce value)
    Spent-consume k value = record {
      at = λ w h.
          let (_, others, same) = consume_nonce_lem value w in
          record {
            drawn = rw same h.drawn;
            gone = rw (others (p.token_urlsafe k)) (ground (arith, h.gone));
          };
    }

    Spent-Stable : (k : ℕ) → Stable p (Spent k)
    unfolding draw write commit
    Spent-Stable k = record {
      draws = record { at = λ w h. record { drawn = omega (arith, h.drawn); gone = h.gone } };
      issues = Spent-issue k;
      consumes = Spent-consume k;
      writes = λ f. record { at = λ w h. record { drawn = h.drawn; gone = h.gone } };
      commits = record { at = λ w h. record { drawn = h.drawn; gone = h.gone } };
      opens = λ w h. record { drawn = h.drawn; gone = h.gone };
    }

    Spent-Reach : (k : ℕ) {w u : World} → Spent k w → Reach p w u → Spent k u
    Spent-Reach k s here = s
    Spent-Reach k s (next r (request c)) =
        (Keeps-serve p (Spent-Stable k) c).at _ (Spent-Reach k s r)
    Spent-Reach k s (next r (tick time later)) =
        let h = Spent-Reach k s r in record { drawn = h.drawn; gone = h.gone }

  Drawn-issue : Keeps Drawn (issue_nonce p)
  Drawn-issue = record { at = λ w h. rw issue_nonce_lem (λ v e. issued w h v e) }
    where
      issued :
          (w : World)
          → Drawn w
          → (v : String)
          → holds v
              (w.nonces ++ record { value = p.token_urlsafe w.draws; created_at = w.clock } ∷ [])
            ≡ true
          → (k : ℕ) × (k < suc w.draws) × (v ≡ p.token_urlsafe k)
      issued w h v e = elim (Bool-cases (holds v w.nonces)) [
        | inl old ↦ let (k, lt, same) = h v old in (k, omega arith, same)
        | inr new ↦ (
          w.draws,
          omega arith,
          ground (arith, rw holds-append at e, new, eq_iff (p.token_urlsafe w.draws) v),
        )
      ]

  Drawn-consume : (value : String) → Keeps Drawn (consume_nonce value)
  Drawn-consume value = record {
    at = λ w h v e.
        let (_, others, same) = consume_nonce_lem value w in
        let (k, lt, eq) = h v (kept (value == v) (holds v w.nonces) (rw others at e)) in
        (k, rw same lt, eq);
  }
    where
      kept : (b c : Bool) → (if b then false else c) ≡ true → c ≡ true
      kept b c e = ground arith

  Drawn-Stable : Stable p Drawn
  unfolding draw write commit
  Drawn-Stable = record {
    draws = record { at = λ w h v e. let (k, lt, same) = h v e in (k, omega arith, same) };
    issues = Drawn-issue;
    consumes = Drawn-consume;
    writes = λ f. record { at = λ w h. h };
    commits = record { at = λ w h. h };
    opens = λ w h. h;
  }

  Drawn-Reach : {w : World} → Reach p initial w → Drawn w
  unfolding holds
  Drawn-Reach here = λ v e. cc
  Drawn-Reach (next r (request c)) = (Keeps-serve p Drawn-Stable c).at _ (Drawn-Reach r)
  Drawn-Reach (next r (tick time later)) = Drawn-Reach r

  -- What a verification that accepts has done: it read a stored nonce, and removed it.
  abbrev pub Accepts : String → Bytes → World → Type 0
  Accepts url body w =
      (parsed : Parsed) × (parse_jws p url body ≡ ok parsed)
      × (holds parsed.nonce w.nonces ≡ true)
      × (holds parsed.nonce (verify_jws p url body w).1.nonces ≡ false)
      × ((verify_jws p url body w).1.draws ≡ w.draws)

  stored : (b : Bool) (x : Exc) {u : Unit {0}} → (if b then ok tt else err x) ≡ ok u → b ≡ true
  stored true x e = refl
  stored false x e = cc

  verify_jws-Accepts :
      (url : String) (body : Bytes) (w : World) {v : VerifiedRequest}
      → (verify_jws p url body w).0 ≡ ok v
      → Accepts url body w
  unfolding verify_jws
  verify_jws-Accepts url body w e =
      let (parsed, e1, same1) = lift_returned (parse_jws p url body) _ w e in
      let (_, e2, same2) = bind_returned (consume_nonce parsed.nonce) _ w (rw same1 at e) in
      let (r, others, same3) = consume_nonce_lem parsed.nonce w in
      let known = stored (holds parsed.nonce w.nonces) _ (sym r ∙ e2) in
      let state = ap (λ (x : Result VerifiedRequest × World). x.1) (same1 ∙ same2) in
      let rest =
        (Keeps-after_nonce p {P = λ s. (holds parsed.nonce s.nonces ≡ false) × (s.draws ≡ w.draws)}
            parsed).at
          (consume_nonce parsed.nonce w).1
          (rw (others parsed.nonce, eq_refl parsed.nonce) refl, rw same3 refl) in
      (parsed, e1, known, rw state rest.0, rw state rest.1)

  unread :
      (r : Result Parsed) {a b : Parsed}
      → r ≡ ok a
      → r ≡ ok b
      → (ns : List Nonce) → holds a.nonce ns ≡ false
      → holds b.nonce ns ≡ true
      → ⊥
  unread (ok x) {a} {b} e f ns g h = ground arith
  unread (err x) e f ns g h = cc

  -- The state in which a request is handled.
  abbrev pub opened : World → World
  opened w = record w { tx = w.db }

  -- The server accepts a request as signed, in a state.
  abbrev pub IsAccepted : Request → World → Type 0
  IsAccepted q w = (v : VerifiedRequest) × ((read_verified p q w).0 ≡ ok v)

  read_verified-Accepts :
      (q : Request) (w : World)
      → IsAccepted q w
      → Accepts (actual_url p q) q.body w
        × ((read_verified p q w).1 ≡ (verify_jws p (actual_url p q) q.body w).1)
  unfolding read_verified
  read_verified-Accepts q w (v, e) =
      let (_, same) = require_returned _ _ (verify_jws p (actual_url p q) q.body) w e in
      (
        verify_jws-Accepts (actual_url p q) q.body w (rw same at e),
        ap (λ (x : Result VerifiedRequest × World). x.1) same,
      )

  module _ (distinct : IsInjective p.token_urlsafe) where
    -- After an accepted request its nonce is spent.
    Spent-serve :
        (c : Call) (q : Request) (w : World) (k : ℕ)
        → request_of c ≡ some q
        → IsAccepted q (opened w)
        → Spent k (read_verified p q (opened w)).1
        → Spent k (serve p (handle p c) w).1
    Spent-serve c q w k e (v, a) s =
        let stable = Spent-Stable distinct k in
        let reads = Reads-handle p stable c q e in
        serve-keeps p stable c w (
          rw reads.same (
            rw (bind_ok (read_verified p q) reads.rest (opened w) {a = v} a)
              ((reads.keeps v).at (read_verified p q (opened w)).1 s)))

    -- A request that the server accepted, in a state that requests lead to, is accepted in no
    -- later state, whatever was requested in between, if no two random nonces are the same.
    pub replay_rejected :
        (c : Call) (q : Request) (w u : World)
        → Reach p initial w
        → request_of c ≡ some q
        → IsAccepted q (opened w)
        → Reach p (serve p (handle p c) w).1 u
        → ¬ IsAccepted q (opened u)
    replay_rejected c q w u before e first between again =
        let ((parsed, read, known, gone, draws), state) =
          read_verified-Accepts q (opened w) first in
        let ((parsed', read', known', _, _), _) = read_verified-Accepts q (opened u) again in
        let (k, lt, nonce) = Drawn-Reach before parsed.nonce known in
        let spent : Spent k (read_verified p q (opened w)).1 =
          rw state (record { drawn = rw draws lt; gone = rw (← nonce) gone }) in
        let later = Spent-Reach distinct k (Spent-serve c q w k e first spent) between in
        unread (parse_jws p (actual_url p q) q.body) read read' u.nonces
          (rw (← nonce) at later.gone) known'
