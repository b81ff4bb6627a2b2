-- ===== src/Upstream/Fulfil/CleanUp.antt =====
-- What an order at the upstream leaves behind (upstream/fulfil.py).
use acme_lan.Prelude.{
  ℕ, suc, String, ◌≡◌, refl, ap, sym, ◌∙◌, Bool, true, false, Option, List, [], ◌∷◌, ◌++◌, map,
  add_last, ◌==◌, eqb,
}
use acme_lan.Platform.{Platform, ProfileUpstream}
use acme_lan.Exec.{ok, pure, ensure, catch, caught, modify, require, ◌>>=◌, ◌>>◌}
use acme_lan.Exec.Keeps.{
  Keeps, Keeps-catch, Keeps-gets, Keeps-or_raise, Keeps-require, Keeps-if, Keeps-raise, Keeps-pure,
  ◌⨾◌, bind_leads, ensure_state,
}
use acme_lan.Acme.Errors.{Exc, uncaught}
use acme_lan.Upstream.Fulfil.Calls.{
  append_none, append_rest, collect-add_last, txt_published, txt_removed, published_of, removed_of,
}
use acme_lan.Upstream.Fulfil.{
  Offer, Authz, Outside, Work, Request, published_txt, removed_txt, Run, ask, note,
  select_challenge, add_work, logged, connect, provider_ready, place_order, publish_one,
  publish_all, pause, answer_all, poll_all, log_authz_failures, finalize, log_and_raise,
  prove_by_dns, remove_one, remove_all, remove_published, fulfil_dns01,
}

abbrev txt_of : Work → String × String
txt_of item = (item.record_name, item.validation)

map-add_last :
    (items : List Work) (item : Work)
    → map txt_of (add_last items item) ≡ map txt_of items ++ txt_of item ∷ []
map-add_last [] item = refl
map-add_last (x ∷ items) item = ap (λ xs. txt_of x ∷ xs) (map-add_last items item)

-- While challenges are answered, the records in the zone are those that are noted down.
pub record Pending (s : Run) : Type 0 where
  pub published : published_of s.calls ≡ map txt_of s.work
  pub removed : removed_of s.calls ≡ []

Keeps-ask : {A : Type 0} (call : ℕ → A) → Keeps Pending (ask call)
unfolding ask modify ◌>>=◌
Keeps-ask call = record { at = λ s h. record { published = h.published; removed = h.removed } }

Keeps-note : (r : Request) → txt_published r ≡ [] → txt_removed r ≡ [] → Keeps Pending (note r)
unfolding note
Keeps-note r unpublished unremoved = record {
  at = λ s h. record {
    published = rw ((collect-add_last txt_published), unpublished, append_none) h.published;
    removed = rw ((collect-add_last txt_removed), unremoved, append_none) h.removed;
  };
}

Keeps-publish :
    (offer : Offer) (response name value : String)
    → Keeps Pending (
        note (published_txt name value)
        >> add_work
            (record { offer = offer; response = response; record_name = name; validation = value }))
unfolding note add_work ◌>>=◌
Keeps-publish offer response name value = record {
  at = λ s h. record {
    published = rw ((collect-add_last txt_published), map-add_last, h.published) refl;
    removed = rw ((collect-add_last txt_removed), append_none) h.removed;
  };
}

pub Keeps-select_challenge :
    {P : Run → Type 0} (kind domain : String) (offers : List Offer)
    → Keeps P (select_challenge kind domain offers)
unfolding select_challenge
Keeps-select_challenge kind domain [] = Keeps-raise _
Keeps-select_challenge kind domain (offer ∷ offers) =
    Keeps-if (offer.kind == kind) _ _ (Keeps-pure _) (Keeps-select_challenge kind domain offers)

pub Keeps-logged : {P : Run → Type 0} (e : Exc) → Keeps P (logged e)
unfolding logged
Keeps-logged e = Keeps-pure _

module _ (p : Platform) (o : Outside) where
  Keeps-publish_all :
      (key : String) (order : List Authz) → Keeps Pending (publish_all p o key order)
  unfolding publish_all publish_one
  Keeps-publish_all key [] = Keeps-pure _
  Keeps-publish_all key (authz ∷ order) =
      (Keeps-select_challenge _ _ _ ⨾ λ _.
      Keeps-ask _ ⨾ λ _. Keeps-require _ _ ⨾ λ _. Keeps-publish _ _ _ _)
      ⨾ λ _. Keeps-publish_all key order

  Keeps-answer_all : (items : List Work) → Keeps Pending (answer_all p o items)
  unfolding answer_all
  Keeps-answer_all [] = Keeps-pure _
  Keeps-answer_all (item ∷ items) = Keeps-ask _ ⨾ λ _.
      Keeps-require _ _ ⨾ λ _. Keeps-note _ refl refl ⨾ λ _. Keeps-answer_all items

  Keeps-poll_all : (order : List Authz) → Keeps Pending (poll_all p o order)
  unfolding poll_all
  Keeps-poll_all [] = Keeps-pure _
  Keeps-poll_all (authz ∷ order) =
      Keeps-ask _ ⨾ λ _. Keeps-require _ _ ⨾ λ _. Keeps-note _ refl refl ⨾ λ _. Keeps-poll_all order

  Keeps-prove_by_dns :
      (key : String) (order : List Authz) → Keeps Pending (prove_by_dns p o key order)
  unfolding prove_by_dns pause finalize log_and_raise log_authz_failures
  Keeps-prove_by_dns key order = Keeps-publish_all key order ⨾ λ _.
      Keeps-if (eqb o.settings.dns_propagation_seconds 0) _ _ (Keeps-pure _)
        (Keeps-note _ refl refl)
      ⨾ λ _. Keeps-gets _ ⨾ λ items. Keeps-answer_all items ⨾ λ _.
          Keeps-catch _ _
            (Keeps-ask _ ⨾ λ _.
              Keeps-or_raise _ _ ⨾ λ _. Keeps-note _ refl refl ⨾ λ _. Keeps-pure _)
            (λ e. Keeps-catch _ _ (Keeps-poll_all order) Keeps-logged ⨾ λ _. Keeps-raise _)

  pub attempted : (done : Bool) (s : Run) → caught (logged) (require done uncaught s) ≡ (ok tt, s)
  unfolding require logged pure
  attempted true s = refl
  attempted false s = refl

  removed_one :
      (item : Work) (s : Run)
      → catch (remove_one p o item) logged s ≡ (
        ok tt,
        record s {
          steps = suc s.steps;
          calls = add_last s.calls (removed_txt item.record_name item.validation);
        },
      )
  unfolding catch remove_one note ask modify ◌>>=◌
  removed_one item s = attempted (o.remove_txt s.steps item.record_name item.validation) _

  remove_all-calls :
      (items : List Work) (s : Run)
      → (removed_of (remove_all p o items s).1.calls ≡ removed_of s.calls ++ map txt_of items)
        × (published_of (remove_all p o items s).1.calls ≡ published_of s.calls)
  unfolding remove_all pure ◌>>=◌
  remove_all-calls [] s = (sym (append_none _), refl)
  remove_all-calls (item ∷ items) s =
      let (removed, published) = remove_all-calls items (record s {
        steps = suc s.steps;
        calls = add_last s.calls (removed_txt item.record_name item.validation);
      }) in
      rw (removed_one item s) (
        removed
            ∙ (ap (λ xs. xs ++ map txt_of items) ((collect-add_last txt_removed) s.calls _)
                ∙ append_rest (removed_of s.calls) (txt_of item ∷ []) (map txt_of items)),
        published ∙ ((collect-add_last txt_published) s.calls _ ∙ append_none _),
      )

  cleaned :
      (s : Run)
      → Pending s
      → removed_of (remove_published p o s).1.calls ≡ published_of (remove_published p o s).1.calls
  unfolding remove_published ◌>>=◌
  cleaned s h =
      let (removed, published) = remove_all-calls s.work s in
      removed ∙ (ap (λ xs. xs ++ map txt_of s.work) h.removed ∙ (sym h.published ∙ sym published))

  -- The state before the first challenge: no record was published.
  abbrev Fresh : Run → Type 0
  Fresh s = (s.calls ≡ []) × (s.work ≡ [])

  Keeps-ask_first : {A : Type 0} (call : ℕ → A) → Keeps Fresh (ask call)
  unfolding ask modify ◌>>=◌
  Keeps-ask_first call = record { at = λ s h. h }

  tried :
      (key : String) (order : List Authz) (v : Run)
      → Fresh v
      → removed_of (ensure (prove_by_dns p o key order) (remove_published p o) v).1.calls
        ≡ published_of (ensure (prove_by_dns p o key order) (remove_published p o) v).1.calls
  tried key order v (no_calls, no_work) =
      let pending : Pending v = record {
        published = ap published_of no_calls ∙ sym (ap (map txt_of) no_work);
        removed = ap removed_of no_calls;
      } in
      rw (ensure_state (prove_by_dns p o key order) (remove_published p o) v)
        (cleaned _ ((Keeps-prove_by_dns key order).at v pending))

  -- However an order over DNS ends, with a chain or with an exception of any call, the removal of
  -- each TXT record that it published was asked for, once and in order.
  pub fulfil_dns01_cleans :
      (csr_pem : String) (upstream : Option ProfileUpstream) (s : Run)
      → s.calls ≡ []
      → s.work ≡ []
      → removed_of (fulfil_dns01 p o csr_pem upstream s).1.calls
        ≡ published_of (fulfil_dns01 p o csr_pem upstream s).1.calls
  unfolding fulfil_dns01 connect provider_ready place_order
  fulfil_dns01_cleans csr_pem upstream s no_calls no_work =
      bind_leads {P = Fresh} {Q = λ v. removed_of v.calls ≡ published_of v.calls} _ _
        (Keeps-ask_first _ ⨾ λ _. Keeps-or_raise _ _) fresh
        (λ key.
          bind_leads {P = Fresh} {Q = λ v. removed_of v.calls ≡ published_of v.calls} _ _
            (Keeps-ask_first _ ⨾ λ _. Keeps-require _ _) fresh
            (λ _.
              bind_leads {P = Fresh} {Q = λ v. removed_of v.calls ≡ published_of v.calls} _ _
                (Keeps-or_raise _ _ ⨾ λ _. Keeps-ask_first _ ⨾ λ _. Keeps-or_raise _ _) fresh
                (λ order v h. tried key order v h)))
        s (no_calls, no_work)
    where
      fresh : (v : Run) → Fresh v → removed_of v.calls ≡ published_of v.calls
      fresh v h = rw h.0 refl
