-- ===== src/Upstream/Fulfil/Calls.antt =====
-- What a list of calls says was published and removed (upstream/fulfil.py).
use acme_lan.Prelude.{String, ◌≡◌, refl, ap, sym, ◌∙◌, List, [], ◌∷◌, ◌++◌, add_last}
use acme_lan.Upstream.Fulfil.{Request, published_txt, removed_txt, published_a, removed_a}

pub append_none : {A : Type 0} (xs : List A) → xs ++ [] ≡ xs
append_none [] = refl
append_none (x ∷ xs) = ap (λ ys. x ∷ ys) (append_none xs)

pub append_rest : {A : Type 0} (xs ys zs : List A) → (xs ++ ys) ++ zs ≡ xs ++ (ys ++ zs)
append_rest [] ys zs = refl
append_rest (x ∷ xs) ys zs = ap (λ us. x ∷ us) (append_rest xs ys zs)

module _ {A : Type 0} (part : Request → List A) where
  abbrev pub collect : List Request → List A
  collect [] = []
  collect (call ∷ calls) = part call ++ collect calls

  pub collect-add_last :
      (calls : List Request) (call : Request)
      → collect (add_last calls call) ≡ collect calls ++ part call
  collect-add_last [] call = append_none (part call)
  collect-add_last (first ∷ calls) call =
      ap (λ xs. part first ++ xs) (collect-add_last calls call)
      ∙ sym (append_rest (part first) (collect calls) (part call))

abbrev pub txt_published : Request → List (String × String)
txt_published (published_txt name value) = (name, value) ∷ []
txt_published _ = []

abbrev pub txt_removed : Request → List (String × String)
txt_removed (removed_txt name value) = (name, value) ∷ []
txt_removed _ = []

abbrev pub a_published : Request → List String
a_published (published_a domain) = domain ∷ []
a_published _ = []

abbrev pub a_removed : Request → List String
a_removed (removed_a domain) = domain ∷ []
a_removed _ = []

-- The TXT records that were published, and those whose removal was asked for.
abbrev pub published_of : List Request → List (String × String)
published_of calls = collect txt_published calls

abbrev pub removed_of : List Request → List (String × String)
removed_of calls = collect txt_removed calls

-- The same for A records.
abbrev pub published_a_of : List Request → List String
published_a_of calls = collect a_published calls

abbrev pub removed_a_of : List Request → List String
removed_a_of calls = collect a_removed calls
