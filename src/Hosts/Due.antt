-- ===== src/Hosts/Due.antt =====
-- Which hosts are due for renewal (hosts.py).
use Prim.Native.Nat.{suc, ◌+◌, ◌*◌}
use acme_lan.Prelude.{
  ℕ, ◌≡◌, refl, sym, Bool-cases, Option-cases, inl, inr, Bool, true, false, ◌&&◌, Option, none,
  some, List, [], ◌∷◌, ltb, all, arith, if◌then◌else◌,
}
use acme_lan.Models.Rows.{Certificate}
use acme_lan.Lifecycle.{day, days_between, at_most}
use acme_lan.Lifecycle.Expiry.{at_most-days_between}
use acme_lan.Hosts.{later, ends_later, latest, is_due}

-- No end date, or one before the limit.
abbrev pub ends_before : ℕ → Option ℕ → Bool
ends_before limit none = true
ends_before limit (some x) = ltb x limit

is_due_end :
    (n time : ℕ) (c : Certificate)
    → is_due n time (some c) ≡ ends_before (time + suc n * day) c.not_after
unfolding is_due
is_due_end n time c = by_end c.not_after
  where
    by_end :
        (last : Option ℕ)
        → elim last [ none ↦ true | some x ↦ at_most (days_between x time) n ]
          ≡ ends_before (time + suc n * day) last
    by_end none = refl
    by_end (some x) = at_most-days_between x time n

none_due : (n time : ℕ) → is_due n time none ≡ true
unfolding is_due
none_due n time = refl

later_above :
    (limit : ℕ) (x y : Option ℕ)
    → later y x ≡ true
    → ends_before limit y ≡ ends_before limit x && ends_before limit y
unfolding later
later_above limit none y h = refl
later_above limit (some x) none h = cc
later_above limit (some x) (some y) h = ground (arith, h)

later_below :
    (limit : ℕ) (x y : Option ℕ)
    → later y x ≡ false
    → ends_before limit x ≡ ends_before limit x && ends_before limit y
unfolding later
later_below limit none none h = refl
later_below limit none (some y) h = cc
later_below limit (some x) none h = ground arith
later_below limit (some x) (some y) h = ground (arith, h)

later_end :
    (limit : ℕ) (c d : Certificate)
    → ends_before limit (if ends_later d c then d else c).not_after
      ≡ ends_before limit c.not_after && ends_before limit d.not_after
later_end limit c d = elim (Bool-cases (later d.not_after c.not_after)) [
  | inl y ↦ rw y (later_above limit c.not_after d.not_after y)
  | inr n ↦ rw n (later_below limit c.not_after d.not_after n)
]

-- A host is due exactly when none of its certificates, of which there may be none, lasts to the
-- end of the last day before renewal.
pub is_due-latest :
    (n time : ℕ) (certs : List Certificate)
    → is_due n time (latest certs) ≡ all (λ c. ends_before (time + suc n * day) c.not_after) certs
unfolding latest
is_due-latest n time [] = none_due n time
is_due-latest n time (c ∷ certs) = elim (Option-cases (latest certs)) [
  | inl missing ↦ rw missing (
      rw (sym (is_due-latest n time certs)) (rw missing (rw (is_due_end, none_due) (ground arith))))
  | inr (d, found) ↦ rw found (
      rw (sym (is_due-latest n time certs))
        (rw found (rw (is_due_end, is_due_end) (later_end (time + suc n * day) c d))))
]
