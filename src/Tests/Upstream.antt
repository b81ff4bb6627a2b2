-- ===== src/Tests/Upstream.antt =====
-- The theorems on the upstream's client, its edge and its orders at concrete inputs.
use acme_lan.Prelude.{◌≡◌, refl, true, false, some, none, List, [], ◌∷◌, eqb, not}
use acme_lan.Acme.Profiles.{default_upstream}
use acme_lan.Upstream.Client.{connection, client_kwargs}
use acme_lan.Upstream.Client.Defaults.{connection-default_upstream}
use acme_lan.Upstream.Edge.{do_get}
use acme_lan.Upstream.Edge.Serving.{do_get-register}
use acme_lan.Upstream.Fulfil.{Offer, Authz, Outside, Run, fulfil_dns01, fulfil_http01}
use acme_lan.Upstream.Fulfil.Calls.{published_of, removed_of, published_a_of, removed_a_of}
use acme_lan.Upstream.Fulfil.CleanUp.{fulfil_dns01_cleans}
use acme_lan.Upstream.Fulfil.LeaveEdge.{fulfil_http01_leaves}
use acme_lan.Tests.Sample.{sample}

connection-default_upstream_example :
    connection sample (client_kwargs (some (default_upstream sample)))
    ≡ connection sample (client_kwargs none)
connection-default_upstream_example = connection-default_upstream sample

do_get-register_example : do_get (("t", "v") ∷ []) "/.well-known/acme-challenge/t" ≡ (200, "v")
unfolding acme_lan.Upstream.Edge.register
do_get-register_example = do_get-register "t" "t" "v" []

abbrev dns_offer : Offer
dns_offer = record { kind = "dns-01"; token = "t" }

abbrev two_names : List Authz
two_names =
    record { domain = "x"; offers = dns_offer ∷ [] }
    ∷ record { domain = "y"; offers = dns_offer ∷ [] }
    ∷ []

-- The upstream refuses to finalize, and the removal of one record fails.
abbrev refusing : Outside
refusing = record {
  settings = record {
    upstream_challenge = "dns-01";
    dns_propagation_seconds = 5;
    upstream_finalize_timeout = 60;
    edge_http_port = 80;
    edge_public_ip = "";
  };
  build_client = λ _ _. some "key";
  get_dns_provider = λ _. true;
  supports_a = false;
  new_order = λ _ _. some two_names;
  response_and_validation = λ _ _. ("r", "v");
  publish_txt = λ _ _ _. true;
  remove_txt = λ n _ _. not (eqb n 9);
  publish_a = λ _ _ _. true;
  remove_a = λ _ _ _. true;
  start_edge = λ _ _. true;
  answer_challenge = λ _ _ _. true;
  poll = λ _ _. true;
  finalize_order = λ _ _ _. none;
  enroll = λ _ _ _ _. none;
}

abbrev fresh : Run
fresh = record {
  steps = 0;
  calls = [];
  work = [];
  a_records = [];
  tokens = [];
  edge_running = false;
}

fulfil_dns01_cleans_example :
    removed_of (fulfil_dns01 sample refusing "csr" none fresh).1.calls
    ≡ published_of (fulfil_dns01 sample refusing "csr" none fresh).1.calls
fulfil_dns01_cleans_example = fulfil_dns01_cleans sample refusing "csr" none fresh refl refl

two_removed :
    removed_of (fulfil_dns01 sample refusing "csr" none fresh).1.calls
    ≡ ("_acme-challenge.x", "v") ∷ ("_acme-challenge.y", "v") ∷ []
unfolding fulfil_dns01 acme_lan.Exec.◌>>=◌ acme_lan.Upstream.Fulfil.connect
    acme_lan.Upstream.Fulfil.ask acme_lan.Upstream.Fulfil.provider_ready
    acme_lan.Upstream.Fulfil.place_order acme_lan.Exec.ensure
    acme_lan.Upstream.Fulfil.remove_published acme_lan.Upstream.Fulfil.remove_all
    acme_lan.Upstream.Fulfil.prove_by_dns acme_lan.Upstream.Fulfil.publish_all
    acme_lan.Upstream.Fulfil.publish_one acme_lan.Upstream.Fulfil.select_challenge
    acme_lan.Upstream.Fulfil.note acme_lan.Upstream.Fulfil.add_work acme_lan.Upstream.Fulfil.pause
    acme_lan.Upstream.Fulfil.answer_all acme_lan.Exec.catch acme_lan.Exec.gets acme_lan.Exec.modify
    acme_lan.Exec.or_raise acme_lan.Exec.pure acme_lan.Exec.raise acme_lan.Exec.require
    client_kwargs connection acme_lan.Upstream.Fulfil.finalize
    acme_lan.Upstream.Fulfil.log_and_raise acme_lan.Upstream.Fulfil.log_authz_failures
    acme_lan.Upstream.Fulfil.logged acme_lan.Upstream.Fulfil.poll_all
    acme_lan.Upstream.Fulfil.remove_one
two_removed = refl

-- The same upstream, with a challenge at the edge and a provider that publishes A records.
abbrev at_edge : Outside
at_edge = record refusing {
  settings = record refusing.settings {
    upstream_challenge = "http-01";
    edge_public_ip = "192.0.2.1";
  };
  supports_a = true;
  new_order = λ _ _.
      some (record { domain = "x"; offers = record { kind = "http-01"; token = "t" } ∷ [] } ∷ []);
}

fulfil_http01_leaves_example :
    (removed_a_of (fulfil_http01 sample at_edge "csr" none fresh).1.calls
      ≡ published_a_of (fulfil_http01 sample at_edge "csr" none fresh).1.calls)
    × ((fulfil_http01 sample at_edge "csr" none fresh).1.edge_running ≡ false)
fulfil_http01_leaves_example = fulfil_http01_leaves sample at_edge "csr" none fresh refl refl refl

one_removed : removed_a_of (fulfil_http01 sample at_edge "csr" none fresh).1.calls ≡ "x" ∷ []
unfolding fulfil_http01 acme_lan.Exec.◌>>=◌ acme_lan.Upstream.Fulfil.connect
    acme_lan.Upstream.Fulfil.ask acme_lan.Upstream.Fulfil.provider_ready
    acme_lan.Upstream.Fulfil.place_order acme_lan.Upstream.Fulfil.run_edge acme_lan.Exec.ensure
    acme_lan.Upstream.Fulfil.leave_edge acme_lan.Upstream.Fulfil.stop_edge
    acme_lan.Upstream.Fulfil.remove_a_all acme_lan.Upstream.Fulfil.prove_by_http
    acme_lan.Upstream.Fulfil.register_all acme_lan.Upstream.Fulfil.register_one
    acme_lan.Upstream.Fulfil.select_challenge acme_lan.Upstream.Fulfil.note_token
    acme_lan.Upstream.Fulfil.point_at_edge acme_lan.Upstream.Fulfil.note acme_lan.Exec.catch
    acme_lan.Exec.gets acme_lan.Exec.modify acme_lan.Exec.or_raise acme_lan.Exec.pure
    acme_lan.Exec.raise acme_lan.Exec.require client_kwargs connection
    acme_lan.Upstream.Edge.register acme_lan.Upstream.Fulfil.add_work
    acme_lan.Upstream.Fulfil.answer_all acme_lan.Upstream.Fulfil.finalize
    acme_lan.Upstream.Fulfil.logged acme_lan.Upstream.Fulfil.note_a
    acme_lan.Upstream.Fulfil.remove_a_one
one_removed = refl
