-- ===== src/Table.antt =====
-- A database table: its rows in the order in which they were inserted, each with its primary key.
use acme_lan.Prelude.{
  String, Bool, true, select, inl, inr, Bool-cases, ◌≡◌, refl, Option, none, some, List, [], ◌∷◌,
  ◌==◌, arith, eq_iff, eq_refl, if◌then◌else◌,
}

module _ {V : Type 0} (key : V → String) where
  -- `session.get(Model, k)`.
  unfoldable pub find : String → List V → Option V
  find k [] = none
  find k (v ∷ rows) = if key v == k then some v else find k rows

  -- `session.add(row)` with the flush: a row with a known key is updated in place.
  unfoldable pub put : V → List V → List V
  put v [] = v ∷ []
  put v (u ∷ rows) = if key u == key v then v ∷ rows else u ∷ put v rows

  -- `session.delete` of the row under a key.
  unfoldable pub remove : String → List V → List V
  remove k [] = []
  remove k (v ∷ rows) = let rest = remove k rows in if key v == k then rest else v ∷ rest

  pub find-remove : (k : String) (rows : List V) → find k (remove k rows) ≡ none
  unfolding find remove
  find-remove k [] = refl
  find-remove k (v ∷ rows) = ground (arith, find-remove k rows)

  pub find-remove_other :
      (k j : String) (rows : List V)
      → find k (remove j rows) ≡ (if j == k then none else find k rows)
  unfolding find remove
  find-remove_other k j [] = ground arith
  find-remove_other k j (v ∷ rows) =
      ground (arith, find-remove_other k j rows, eq_iff (key v) k, eq_iff (key v) j, eq_iff j k)

  -- What is found among selected rows passes the test.
  pub find-select :
      (test : V → Bool) (k : String) (rows : List V) {v : V}
      → find k (select test rows) ≡ some v
      → test v ≡ true
  unfolding find
  find-select test k [] e = cc
  find-select test k (v ∷ rows) {v = u} e = elim (Bool-cases (test v)) [
    | inl y ↦ elim (Bool-cases (key v == k)) [
      | inl same ↦ let eq : v ≡ u = cc (rw same at (rw y at e)) in rw⁻¹ eq y
      | inr other ↦ find-select test k rows (rw other at (rw y at e))
    ]
    | inr n ↦ find-select test k rows (rw n at e)
  ]

  pub find-put :
      (k : String) (v : V) (rows : List V)
      → find k (put v rows) ≡ (if key v == k then some v else find k rows)
  unfolding find put
  find-put k v [] = refl
  find-put k v (u ∷ rows) =
      ground (arith, find-put k v rows, eq_iff (key v) k, eq_iff (key u) (key v), eq_iff (key u) k)

  pub find-put_same : (v : V) (rows : List V) → find (key v) (put v rows) ≡ some v
  find-put_same v rows = rw (find-put, eq_refl (key v)) refl

  -- What is found under a key has that key.
  pub key-find : (k : String) (rows : List V) {v : V} → find k rows ≡ some v → key v ≡ k
  unfolding find
  key-find k [] {v} h = ground arith
  key-find k (u ∷ rows) {v} h = ground (arith, eq_iff (key u) k, key-find k rows {v = v})
