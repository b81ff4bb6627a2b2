-- ===== src/Hosts/Renewal.antt =====
-- Keys and failures in a renewal run (hosts.py and scheduler.py).
use acme_lan.Prelude.{ℕ, String, ◌≡◌, refl, true, false, List, [], ◌∷◌, ◌==◌, map}
use acme_lan.Platform.{Platform}
use acme_lan.Exec.{Result, ok, err, catch, caught, continue, pure, ◌>>=◌}
use acme_lan.Models.Rows.{Certificate, ManagedHost, World}
use acme_lan.Hosts.{
  Outside, context, status_text, DeployResult, load_found, credential_of, issuer, host_certificate,
  key_storage_of, Summary, work, work_on_device, renew_and_deploy, renew_one, renew_each,
  load_credential, record_deployment,
}

module _ (p : Platform) (o : Outside) where
  -- For a host that makes its own CSR, renewal does not depend on key generation: whatever
  -- would be generated, the plugin, the store and the database see the same.
  pub renew_and_deploy_on_device :
      (generate : ℕ → List String → Result (String × String)) (host : ManagedHost) (w : World)
      → host.csr_source == "device" ≡ true
      → renew_and_deploy p (record o { generate = generate }) host w ≡ renew_and_deploy p o host w
  unfolding renew_and_deploy work work_on_device load_credential load_found credential_of issuer
      record_deployment host_certificate key_storage_of context status_text ◌>>=◌
  renew_and_deploy_on_device generate host w e = rw e refl

  answered :
      (host : ManagedHost) (r : Result (Certificate × DeployResult) × World)
      → (s : Summary) × ((caught
            (λ e. pure (record { host = host.name; done = false; detail = o.describe e }))
            (continue r
              (λ x. pure (record { host = host.name; done = x.1.done; detail = x.1.detail })))).0
          ≡ ok s)
        × (s.host ≡ host.name)
  unfolding pure
  answered host (ok (cert, result), w) = (_, refl, refl)
  answered host (err e, w) = (_, refl, refl)

  renew_one_returns :
      (host : ManagedHost) (w : World)
      → (s : Summary) × ((renew_one p o host w).0 ≡ ok s) × (s.host ≡ host.name)
  unfolding renew_one catch ◌>>=◌
  renew_one_returns host w = answered host (renew_and_deploy p o host w)

  -- A run over hosts returns one summary for each, in their order, also where a renewal fails.
  pub renew_each_complete :
      (hosts : List ManagedHost) (w : World)
      → (ss : List (Summary)) × ((renew_each p o hosts w).0 ≡ ok ss)
        × (map (λ s. s.host) ss ≡ map (λ h. h.name) hosts)
  unfolding renew_each ◌>>=◌
  renew_each_complete [] w = ([], refl, refl)
  renew_each_complete (host ∷ hosts) w =
      let (s, e, same) = renew_one_returns host w in
      let (ss, es, sames) = renew_each_complete hosts (renew_one p o host w).1 in
      (s ∷ ss, rw (e, es) refl, rw (same, sames) refl)
