-- ===== src/Upstream/Fulfil.antt =====
-- upstream/fulfil.py: one upstream order, from the challenges to the chain. The calls to the
-- outside world are recorded, in their order.
pub mod Calls
pub mod CleanUp
pub mod LeaveEdge
use Prim.Native.String.{◌++◌}
use acme_lan.Prelude.{
  ℕ, suc, String, Bool, true, false, not, ◌&&◌, Option, none, some, List, [], ◌∷◌, add_last, ◌==◌,
  eqb, if◌then◌else◌,
}
use acme_lan.Prelude.Text.{is_empty}
use acme_lan.Json.{Fields}
use acme_lan.Platform.{Platform, Bytes, ProfileUpstream}
use acme_lan.Exec.{Exec, pure, raise, gets, or_raise, require, modify, catch, ensure, ◌>>=◌, ◌>>◌}
use acme_lan.Acme.Errors.{Exc, failure, uncaught}
use acme_lan.Upstream.Client.{Connection, client_kwargs, connection}
use acme_lan.Upstream.Edge.{register}

-- A challenge and an authorization of the upstream, as the ACME library gives them.
pub record Offer : Type 0 where
  pub kind : String
  pub token : String

pub record Authz : Type 0 where
  pub domain : String
  pub offers : List Offer

pub record FulfilSettings : Type 0 where
  pub upstream_challenge : String
  pub dns_propagation_seconds : ℕ
  pub upstream_finalize_timeout : ℕ
  pub edge_http_port : ℕ
  pub edge_public_ip : String

-- The ACME client, the DNS provider and the private CAs. `none` and `false` stand for a call that
-- raises; the number is that of the calls before.
pub record Outside : Type 0 where
  pub settings : FulfilSettings
  pub build_client : ℕ → Connection → Option String
  pub get_dns_provider : ℕ → Bool
  pub supports_a : Bool
  pub new_order : ℕ → Bytes → Option (List Authz)
  pub response_and_validation : Offer → String → String × String
  pub publish_txt : ℕ → String → String → Bool
  pub remove_txt : ℕ → String → String → Bool
  pub publish_a : ℕ → String → String → Bool
  pub remove_a : ℕ → String → String → Bool
  pub start_edge : ℕ → ℕ → Bool
  pub answer_challenge : ℕ → Offer → String → Bool
  pub poll : ℕ → Authz → Bool
  pub finalize_order : ℕ → List Authz → ℕ → Option String
  pub enroll : ℕ → String → Fields → String → Option String

pub record Work : Type 0 where
  pub offer : Offer
  pub response : String
  pub record_name : String
  pub validation : String

-- A call that was made. One that publishes is recorded when it returned, and one that removes when
-- it was made.
pub data Request : Type 0 where
  published_txt : String → String → Request
  removed_txt : String → String → Request
  published_a : String → Request
  removed_a : String → Request
  slept : ℕ → Request
  answered : Offer → Request
  finalized : Request
  polled : Request

-- The calls so far, and the local variables of the order that is being fulfilled.
pub record Run : Type 0 where
  pub steps : ℕ
  pub calls : List Request
  pub work : List Work
  pub a_records : List String
  pub tokens : List (String × String)
  pub edge_running : Bool

abbrev pub Step : Type 0 → Type 0
Step A = Exec Run A

-- The next call of the outside world.
unfoldable pub ask : {A : Type 0} → (ℕ → A) → Step A
ask call = do n ← gets (λ s. s.steps); modify (λ s. record s { steps = suc n }); pure (call n)

unfoldable pub note : Request → Step (Unit {0})
unfolding modify
note r = modify (λ s. record s { calls = add_last s.calls r })

unfoldable pub select_challenge : String → String → List Offer → Step Offer
select_challenge kind domain [] =
    raise (failure ("Upstream offered no " ++ (kind ++ (" challenge for " ++ domain))))
select_challenge kind domain (offer ∷ offers) =
    let rest = select_challenge kind domain offers in
    if offer.kind == kind then pure offer else rest

unfoldable pub add_work : Work → Step (Unit {0})
unfolding modify
add_work item = modify (λ s. record s { work = add_last s.work item })

unfoldable pub note_token : String → String → Step (Unit {0})
unfolding modify
note_token token validation = modify (λ s. record s { tokens = register token validation s.tokens })

unfoldable pub note_a : String → Step (Unit {0})
unfolding modify
note_a domain = modify (λ s. record s { a_records = add_last s.a_records domain })

unfoldable pub stop_edge : Step (Unit {0})
unfolding modify
stop_edge = modify (λ s. record s { edge_running = false })

unfoldable pub run_edge : Step (Unit {0})
unfolding modify
run_edge = modify (λ s. record s { edge_running = true })

-- `except Exception`: whatever it was, it is only logged.
unfoldable pub logged : Exc → Step (Unit {0})
logged e = pure tt

module _ (p : Platform) (o : Outside) where
  unfoldable pub connect : Option ProfileUpstream → Step String
  connect upstream = do
    key ← ask (λ n. o.build_client n (connection p (client_kwargs upstream)))
    or_raise key uncaught

  unfoldable pub provider_ready : Step (Unit {0})
  provider_ready = do ready ← ask (λ n. o.get_dns_provider n); require ready uncaught

  unfoldable pub place_order : String → Step (List Authz)
  place_order csr_pem = do
    bytes ← or_raise (p.encode_ascii csr_pem) uncaught
    order ← ask (λ n. o.new_order n bytes)
    or_raise order uncaught

  -- The TXT record of one authorization.
  unfoldable pub publish_one : String → Authz → Step (Unit {0})
  publish_one account_key authz = do
    offer ← select_challenge "dns-01" authz.domain authz.offers
    let (response, validation) = o.response_and_validation offer account_key
    let name = "_acme-challenge." ++ authz.domain
    done ← ask (λ n. o.publish_txt n name validation)
    require done uncaught
    note (published_txt name validation)
    add_work
        (record { offer = offer; response = response; record_name = name; validation = validation })

  unfoldable pub publish_all : String → List Authz → Step (Unit {0})
  publish_all account_key [] = pure tt
  publish_all account_key (authz ∷ authzs) = do
    publish_one account_key authz
    publish_all account_key authzs

  unfoldable pub pause : Step (Unit {0})
  pause =
      if eqb o.settings.dns_propagation_seconds 0
      then pure tt
      else note (slept o.settings.dns_propagation_seconds)

  unfoldable pub answer_all : List Work → Step (Unit {0})
  answer_all [] = pure tt
  answer_all (item ∷ items) = do
    done ← ask (λ n. o.answer_challenge n item.offer item.response)
    require done uncaught
    note (answered item.offer)
    answer_all items

  unfoldable pub poll_all : List Authz → Step (Unit {0})
  poll_all [] = pure tt
  poll_all (authz ∷ authzs) = do
    done ← ask (λ n. o.poll n authz)
    require done uncaught
    note polled
    poll_all authzs

  unfoldable pub log_authz_failures : List Authz → Step (Unit {0})
  log_authz_failures order = catch (poll_all order) logged

  unfoldable pub finalize : List Authz → Step String
  finalize order = do
    chain ← ask (λ n. o.finalize_order n order o.settings.upstream_finalize_timeout)
    fullchain_pem ← or_raise chain uncaught
    note finalized
    pure fullchain_pem

  unfoldable pub log_and_raise : List Authz → Exc → Step String
  log_and_raise order e = do log_authz_failures order; raise e

  unfoldable pub prove_by_dns : String → List Authz → Step String
  prove_by_dns account_key order = do
    publish_all account_key order
    pause
    work ← gets (λ s. s.work)
    answer_all work
    catch (finalize order) (log_and_raise order)

  unfoldable pub remove_one : Work → Step (Unit {0})
  remove_one item = do
    note (removed_txt item.record_name item.validation)
    done ← ask (λ n. o.remove_txt n item.record_name item.validation)
    require done uncaught

  unfoldable pub remove_all : List Work → Step (Unit {0})
  remove_all [] = pure tt
  remove_all (item ∷ items) = do catch (remove_one item) logged; remove_all items

  unfoldable pub remove_published : Step (Unit {0})
  remove_published = do work ← gets (λ s. s.work); remove_all work

  unfoldable pub fulfil_dns01 : String → Option ProfileUpstream → Step String
  fulfil_dns01 csr_pem upstream = do
    account_key ← connect upstream
    provider_ready
    order ← place_order csr_pem
    ensure (prove_by_dns account_key order) remove_published

  -- The A record of a name, where the provider publishes such records.
  unfoldable pub point_at_edge : String → Step (Unit {0})
  point_at_edge domain =
      if not (is_empty o.settings.edge_public_ip) && o.supports_a
      then (do
        done ← ask (λ n. o.publish_a n domain o.settings.edge_public_ip)
        require done uncaught
        note (published_a domain)
        note_a domain)
      else pure tt

  unfoldable pub register_one : String → Authz → Step (Unit {0})
  register_one account_key authz = do
    offer ← select_challenge "http-01" authz.domain authz.offers
    let (response, validation) = o.response_and_validation offer account_key
    note_token offer.token validation
    point_at_edge authz.domain
    add_work
        (record { offer = offer; response = response; record_name = ""; validation = validation })

  unfoldable pub register_all : String → List Authz → Step (Unit {0})
  register_all account_key [] = pure tt
  register_all account_key (authz ∷ authzs) = do
    register_one account_key authz
    register_all account_key authzs

  unfoldable pub prove_by_http : String → List Authz → Step String
  prove_by_http account_key order = do
    register_all account_key order
    work ← gets (λ s. s.work)
    answer_all work
    finalize order

  unfoldable pub remove_a_one : String → Step (Unit {0})
  remove_a_one domain = do
    note (removed_a domain)
    done ← ask (λ n. o.remove_a n domain o.settings.edge_public_ip)
    require done uncaught

  unfoldable pub remove_a_all : List String → Step (Unit {0})
  remove_a_all [] = pure tt
  remove_a_all (domain ∷ domains) = do catch (remove_a_one domain) logged; remove_a_all domains

  unfoldable pub leave_edge : Step (Unit {0})
  leave_edge = do stop_edge; domains ← gets (λ s. s.a_records); remove_a_all domains

  unfoldable pub fulfil_http01 : String → Option ProfileUpstream → Step String
  fulfil_http01 csr_pem upstream = do
    account_key ← connect upstream
    provider_ready
    order ← place_order csr_pem
    started ← ask (λ n. o.start_edge n o.settings.edge_http_port)
    require started uncaught
    run_edge
    ensure (prove_by_http account_key order) leave_edge

  unfoldable pub fulfil_acme : String → Option ProfileUpstream → Step String
  fulfil_acme csr_pem upstream =
      if o.settings.upstream_challenge == "http-01"
      then fulfil_http01 csr_pem upstream
      else fulfil_dns01 csr_pem upstream

  unfoldable pub enroll_at : String → ProfileUpstream → Step String
  enroll_at csr_pem upstream = do
    chain ← ask (λ n. o.enroll n upstream.ca_handler upstream.ca_handler_config csr_pem)
    or_raise chain uncaught

  unfoldable pub fulfil_order : String → Option ProfileUpstream → Step String
  fulfil_order csr_pem none = fulfil_acme csr_pem none
  fulfil_order csr_pem (some upstream) =
      if upstream.upstream_type == "ca_handler"
      then enroll_at csr_pem upstream
      else fulfil_acme csr_pem (some upstream)
