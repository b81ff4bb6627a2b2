-- ===== src/Upstream/Fulfil/LeaveEdge.antt =====
-- What an order that is proved at the edge leaves behind (upstream/fulfil.py).
use acme_lan.Prelude.{
  ℕ, suc, String, ◌≡◌, refl, ap, sym, ◌∙◌, true, false, not, ◌&&◌, Option, List, [], ◌∷◌, ◌++◌,
  add_last,
}
use acme_lan.Prelude.Text.{is_empty}
use acme_lan.Platform.{Platform, ProfileUpstream}
use acme_lan.Exec.{ok, pure, catch, modify, ensure, ◌>>=◌, ◌>>◌}
use acme_lan.Exec.Keeps.{
  Keeps, Keeps-gets, Keeps-or_raise, Keeps-require, Keeps-if, Keeps-pure, ◌⨾◌, bind_leads,
  ensure_state,
}
use acme_lan.Upstream.Fulfil.{
  Authz, Outside, Work, Request, published_a, removed_a, Run, Step, ask, note, note_a, note_token,
  add_work, logged, run_edge, stop_edge, connect, provider_ready, place_order, point_at_edge,
  register_one, register_all, answer_all, finalize, prove_by_http, remove_a_one, remove_a_all,
  leave_edge, fulfil_http01,
}
use acme_lan.Upstream.Fulfil.Calls.{
  append_none, append_rest, collect-add_last, a_published, a_removed, published_a_of, removed_a_of,
}
use acme_lan.Upstream.Fulfil.CleanUp.{Keeps-select_challenge, attempted}

-- While challenges are answered, the A records in the zone are those that are noted down.
pub record Pointed (s : Run) : Type 0 where
  pub published : published_a_of s.calls ≡ s.a_records
  pub removed : removed_a_of s.calls ≡ []

Keeps-ask : {A : Type 0} (call : ℕ → A) → Keeps Pointed (ask call)
unfolding ask modify ◌>>=◌
Keeps-ask call = record { at = λ s h. record { published = h.published; removed = h.removed } }

Keeps-note : (r : Request) → a_published r ≡ [] → a_removed r ≡ [] → Keeps Pointed (note r)
unfolding note
Keeps-note r unpublished unremoved = record {
  at = λ s h. record {
    published = rw (collect-add_last a_published, unpublished, append_none) h.published;
    removed = rw (collect-add_last a_removed, unremoved, append_none) h.removed;
  };
}

Keeps-publish : (domain : String) → Keeps Pointed (note (published_a domain) >> note_a domain)
unfolding note note_a ◌>>=◌
Keeps-publish domain = record {
  at = λ s h. record {
    published = rw (collect-add_last a_published, h.published) refl;
    removed = rw (collect-add_last a_removed, append_none) h.removed;
  };
}

Keeps-note_token : (token validation : String) → Keeps Pointed (note_token token validation)
unfolding note_token
Keeps-note_token token validation = record {
  at = λ s h. record { published = h.published; removed = h.removed };
}

Keeps-add_work : (item : Work) → Keeps Pointed (add_work item)
unfolding add_work
Keeps-add_work item = record { at = λ s h. record { published = h.published; removed = h.removed } }

module _ (p : Platform) (o : Outside) where
  Keeps-point_at_edge : (domain : String) → Keeps Pointed (point_at_edge p o domain)
  unfolding point_at_edge
  Keeps-point_at_edge domain =
      Keeps-if (not (is_empty o.settings.edge_public_ip) && o.supports_a) _ _
        (Keeps-ask _ ⨾ λ _. Keeps-require _ _ ⨾ λ _. Keeps-publish domain) (Keeps-pure _)

  Keeps-register_all :
      (key : String) (order : List Authz) → Keeps Pointed (register_all p o key order)
  unfolding register_all register_one
  Keeps-register_all key [] = Keeps-pure _
  Keeps-register_all key (authz ∷ order) =
      (Keeps-select_challenge _ _ _ ⨾ λ _.
      Keeps-note_token _ _ ⨾ λ _. Keeps-point_at_edge _ ⨾ λ _. Keeps-add_work _)
      ⨾ λ _. Keeps-register_all key order

  Keeps-answer_all : (items : List Work) → Keeps Pointed (answer_all p o items)
  unfolding answer_all
  Keeps-answer_all [] = Keeps-pure _
  Keeps-answer_all (item ∷ items) = Keeps-ask _ ⨾ λ _.
      Keeps-require _ _ ⨾ λ _. Keeps-note _ refl refl ⨾ λ _. Keeps-answer_all items

  Keeps-prove_by_http :
      (key : String) (order : List Authz) → Keeps Pointed (prove_by_http p o key order)
  unfolding prove_by_http finalize
  Keeps-prove_by_http key order = Keeps-register_all key order ⨾ λ _. Keeps-gets _ ⨾ λ items.
      Keeps-answer_all items ⨾ λ _.
      Keeps-ask _ ⨾ λ _. Keeps-or_raise _ _ ⨾ λ _. Keeps-note _ refl refl ⨾ λ _. Keeps-pure _

  removed_one :
      (domain : String) (s : Run)
      → catch (remove_a_one p o domain) logged s
        ≡ (ok tt, record s { steps = suc s.steps; calls = add_last s.calls (removed_a domain) })
  unfolding catch remove_a_one note ask modify ◌>>=◌
  removed_one domain s = attempted p o (o.remove_a s.steps domain o.settings.edge_public_ip) _

  remove_a_all-calls :
      (domains : List String) (s : Run)
      → (removed_a_of (remove_a_all p o domains s).1.calls ≡ removed_a_of s.calls ++ domains)
        × (published_a_of (remove_a_all p o domains s).1.calls ≡ published_a_of s.calls)
        × ((remove_a_all p o domains s).1.edge_running ≡ s.edge_running)
  unfolding remove_a_all pure ◌>>=◌
  remove_a_all-calls [] s = (sym (append_none _), refl, refl)
  remove_a_all-calls (domain ∷ domains) s =
      let (removed, published, running) =
        remove_a_all-calls domains
          (record s { steps = suc s.steps; calls = add_last s.calls (removed_a domain) }) in
      rw (removed_one domain s) (
        removed
            ∙ (ap (λ xs. xs ++ domains) (collect-add_last a_removed s.calls (removed_a domain))
                ∙ append_rest (removed_a_of s.calls) (domain ∷ []) domains),
        published ∙ (collect-add_last a_published s.calls (removed_a domain) ∙ append_none _),
        running,
      )

  -- The edge does not run, and the removal of each A record that was published was asked for.
  abbrev pub Left : Run → Type 0
  Left s = (removed_a_of s.calls ≡ published_a_of s.calls) × (s.edge_running ≡ false)

  left : (s : Run) → Pointed s → Left (leave_edge p o s).1
  unfolding leave_edge stop_edge ◌>>=◌
  left s h =
      let (removed, published, running) =
        remove_a_all-calls s.a_records (record s { edge_running = false }) in
      (
        removed ∙ (ap (λ xs. xs ++ s.a_records) h.removed ∙ (sym h.published ∙ sym published)),
        running,
      )

  -- The state before the edge is started.
  record Idle (s : Run) : Type 0 where
    pub no_calls : s.calls ≡ []
    pub no_records : s.a_records ≡ []
    pub stopped : s.edge_running ≡ false

  Keeps-ask_first : {A : Type 0} (call : ℕ → A) → Keeps Idle (ask call)
  unfolding ask modify ◌>>=◌
  Keeps-ask_first call = record {
    at = λ s h. record { no_calls = h.no_calls; no_records = h.no_records; stopped = h.stopped };
  }

  Idle-Left : (s : Run) → Idle s → Left s
  Idle-Left s h = (rw h.no_calls refl, h.stopped)

  tried :
      (key : String) (order : List Authz) (s : Run)
      → Idle s
      → Left ((run_edge >> ensure (prove_by_http p o key order) (leave_edge p o)) s).1
  unfolding run_edge ◌>>=◌
  tried key order s h =
      let started : Run = record s { edge_running = true } in
      let pointed : Pointed started = record {
        published = ap published_a_of h.no_calls ∙ sym h.no_records;
        removed = ap removed_a_of h.no_calls;
      } in
      rw (ensure_state (prove_by_http p o key order) (leave_edge p o) started)
        (left _ ((Keeps-prove_by_http key order).at started pointed))

  Idle-Left_bind :
      {A B : Type 0} (m : Step A) (f : A → Step B)
      → Keeps Idle m
      → ((a : A) (s : Run) → Idle s → Left (f a s).1)
      → (s : Run) → Idle s
      → Left ((m >>= f) s).1
  Idle-Left_bind m f kept rest s h = bind_leads {P = Idle} {Q = Left} m f kept Idle-Left rest s h

  -- However an order at the edge ends, with a chain or with an exception of any call but the stop of
  -- the responder, the responder does not run, and the removal of each A record that the order
  -- published was asked for, once and in order.
  pub fulfil_http01_leaves :
      (csr_pem : String) (upstream : Option ProfileUpstream) (s : Run)
      → s.calls ≡ []
      → s.a_records ≡ []
      → s.edge_running ≡ false
      → (removed_a_of (fulfil_http01 p o csr_pem upstream s).1.calls
          ≡ published_a_of (fulfil_http01 p o csr_pem upstream s).1.calls)
        × ((fulfil_http01 p o csr_pem upstream s).1.edge_running ≡ false)
  unfolding fulfil_http01 connect provider_ready place_order
  fulfil_http01_leaves csr_pem upstream s no_calls no_records stopped =
      Idle-Left_bind _ _ (Keeps-ask_first _ ⨾ λ _. Keeps-or_raise _ _)
        (λ key. Idle-Left_bind _ _ (Keeps-ask_first _ ⨾ λ _. Keeps-require _ _) (λ _.
          Idle-Left_bind _ _ (Keeps-or_raise _ _ ⨾ λ _. Keeps-ask_first _ ⨾ λ _. Keeps-or_raise _ _)
            (λ order.
              Idle-Left_bind _ _ (Keeps-ask_first _) (λ started.
                Idle-Left_bind _ _ (Keeps-require _ _) (λ _ v h. tried key order v h)))))
        s (record { no_calls = no_calls; no_records = no_records; stopped = stopped })
