-- ===== src/Acme/Server/Frame/Orders.antt =====
-- Invariants that do not look at the tables: acme/orders.py.
use acme_lan.Prelude.{refl, ℕ, String, Option, none, some, List, [], ◌∷◌, inl, inr, ◌⊎◌}
use acme_lan.Json.{Fields}
use acme_lan.Platform.{Platform, Csr, ProfileUpstream}
use acme_lan.Exec.Keeps.{
  Keeps, keeps_rules, Keeps-lift, Keeps-or_raise, Keeps-raise, Keeps-pure, ◌⨾◌,
}
use acme_lan.Models.Rows.{World, Order, Account, AcmeProfile}
use acme_lan.Acme.Encoding.{Urls}
use acme_lan.Acme.Common.{Request}
use acme_lan.Acme.Profiles.{row_or_raise, resolve_profile_upstream}
use acme_lan.Acme.Orders.Status.{recompute_order_status}
use acme_lan.Acme.Orders.Create.{
  add_challenges, add_authzs, order_response, insert_order, new_order, owned_order, order_detail,
}
use acme_lan.Acme.Orders.Finalize.{record_issuance, issue, not_ready, require_ready, finalize_order}
use acme_lan.Acme.Server.Frame.{
  Keeps-acme_json_response, Reads, Keeps-authorize_account, Stable, Keeps-now,
}

module _ (p : Platform) {P : World → Type 0} (stable : Stable p P) where
  Keeps-recompute_order_status : (order : Order) → Keeps P (recompute_order_status order)
  unfolding recompute_order_status
  Keeps-recompute_order_status order = search (keeps_rules, stable.writes)

  Keeps-add_challenges :
      (authz_id : String) (kinds : List String) → Keeps P (add_challenges p authz_id kinds)
  unfolding add_challenges
  Keeps-add_challenges authz_id [] = Keeps-pure _
  Keeps-add_challenges authz_id (kind ∷ kinds) = stable.draws ⨾ λ _.
      stable.draws ⨾ λ _. stable.writes _ ⨾ λ _. Keeps-add_challenges authz_id kinds

  Keeps-add_authzs :
      (order_id : String) (expires : ℕ) (values : List String)
      → Keeps P (add_authzs p order_id expires values)
  unfolding add_authzs
  Keeps-add_authzs order_id expires [] = Keeps-pure _
  Keeps-add_authzs order_id expires (value ∷ values) = stable.draws ⨾ λ _. stable.writes _ ⨾ λ _.
      Keeps-add_challenges _ _ ⨾ λ _. Keeps-add_authzs order_id expires values

  Keeps-order_response :
      (status : ℕ) (order : Order) (urls : Urls) (location : Option String)
      → Keeps P (order_response p status order urls location)
  unfolding order_response
  Keeps-order_response status order urls location =
      search (keeps_rules, (Keeps-acme_json_response p stable))

  Keeps-insert_order :
      (account : Account) (payload : Fields) (names : List String)
      → Keeps P (insert_order p account payload names)
  unfolding insert_order
  Keeps-insert_order account payload names = stable.draws ⨾ λ _. Keeps-now ⨾ λ _.
      stable.writes _ ⨾ λ _. Keeps-add_authzs _ _ _ ⨾ λ _. stable.commits ⨾ λ _. Keeps-pure _

  pub Reads-new_order : (request : Request) → (Reads p stable) (new_order p request) request
  unfolding new_order
  Reads-new_order request = record {
    rest = _;
    same = refl;
    keeps = λ verified. (Keeps-authorize_account p stable) _ ⨾ λ _. Keeps-lift _ ⨾ λ _.
        Keeps-lift _ ⨾ λ _. Keeps-insert_order _ _ _ ⨾ λ _. Keeps-order_response _ _ _ _;
  }

  Keeps-owned_order : (id : String) (account : Account) → Keeps P (owned_order p id account)
  unfolding owned_order
  Keeps-owned_order id account = search keeps_rules

  pub Reads-order_detail :
      (id : String) (request : Request) → (Reads p stable) (order_detail p id request) request
  unfolding order_detail
  Reads-order_detail id request = record {
    rest = _;
    same = refl;
    keeps = λ verified. (Keeps-authorize_account p stable) _ ⨾ λ _. Keeps-owned_order _ _ ⨾ λ _.
        Keeps-recompute_order_status _ ⨾ λ _. stable.commits ⨾ λ _. Keeps-order_response _ _ _ _;
  }

  Keeps-row_or_raise :
      (profile : String) (row : Option AcmeProfile) → Keeps P (row_or_raise p profile row)
  unfolding row_or_raise
  Keeps-row_or_raise profile none = search keeps_rules
  Keeps-row_or_raise profile (some row) = search keeps_rules

  Keeps-resolve_profile_upstream : (profile : String) → Keeps P (resolve_profile_upstream p profile)
  unfolding resolve_profile_upstream
  Keeps-resolve_profile_upstream profile = search (keeps_rules, Keeps-row_or_raise)

  Keeps-record_issuance :
      (order : Order) (answer : String ⊎ String) → Keeps P (record_issuance p order answer)
  unfolding record_issuance
  Keeps-record_issuance order (inl detail) =
      stable.writes _ ⨾ λ _. stable.commits ⨾ λ _. Keeps-raise _
  Keeps-record_issuance order (inr chain) = Keeps-or_raise _ _ ⨾ λ _. stable.draws ⨾ λ _.
      Keeps-now ⨾ λ _.
      stable.writes _ ⨾ λ _. stable.writes _ ⨾ λ _. stable.commits ⨾ λ _. Keeps-pure _

  Keeps-issue :
      (order : Order) (csr : Csr) (upstream : ProfileUpstream)
      → Keeps P (issue p order csr upstream)
  unfolding issue
  Keeps-issue order csr upstream =
      stable.writes _ ⨾ λ _. stable.commits ⨾ λ _. stable.draws ⨾ λ _. Keeps-record_issuance _ _

  Keeps-not_ready : (order : Order) → Keeps P (not_ready p order)
  unfolding not_ready
  Keeps-not_ready order = stable.commits ⨾ λ _. Keeps-raise _

  Keeps-require_ready : (order : Order) → Keeps P (require_ready p order)
  unfolding require_ready
  Keeps-require_ready order = search (keeps_rules, Keeps-not_ready)

  pub Reads-finalize_order :
      (id : String) (request : Request) → (Reads p stable) (finalize_order p id request) request
  unfolding finalize_order
  Reads-finalize_order id request = record {
    rest = _;
    same = refl;
    keeps = λ verified. (Keeps-authorize_account p stable) _ ⨾ λ _. Keeps-owned_order _ _ ⨾ λ _.
        Keeps-recompute_order_status _ ⨾ λ _. Keeps-require_ready _ ⨾ λ _. Keeps-lift _ ⨾ λ _.
        Keeps-resolve_profile_upstream _ ⨾ λ _.
        Keeps-issue _ _ _ ⨾ λ _. Keeps-order_response _ _ _ _;
  }
