-- ===== src/Deploy/Ios/Closing.antt =====
-- The channel to the device is closed in the end (deploy/cisco_ios.py).
use acme_lan.Prelude.{
  String, ◌≡◌, refl, false, Option, none, some, ◌⊎◌, inl, inr, List, [], ◌∷◌, Bool-cases,
}
use acme_lan.Prelude.Text.{is_empty}
use acme_lan.Platform.{Platform}
use acme_lan.Exec.{ok, pure, lift, modify, catch, ensure, ◌>>=◌}
use acme_lan.Exec.Keeps.{
  Keeps, Keeps-require, Keeps-pure, Keeps-raise, Keeps-catch, Keeps-or_raise, ◌⨾◌, Keeps-lift,
  bind_leads, ensure_state,
}
use acme_lan.Exec.Returns.{bind_ok}
use acme_lan.Hosts.{DeployContext, DeployResult}
use acme_lan.Deploy.Shell.{Device, Shell, Dialog, close, end_config}
use acme_lan.Deploy.Ios.{
  Outside, trustpoint_of, open_session, hang_up, fetch_csr, first_or_raise, int_setting,
}
use acme_lan.Deploy.Ios.Import.{
  Chain, told, prepare_chain, try_open, install_body, install_opened, install_chain, install_cert,
  sealed, prepare_bundle, import_bundle, deploy_opened, deploy_bundle, deploy_key, deploy_with,
  deploy,
}

module _ (p : Platform) (d : Device) (o : Outside) where
  abbrev Closed : Shell → Type 0
  Closed s = s.channel_open ≡ false

  hung_up : (s : Shell) → Closed (hang_up p d o s).1
  unfolding hang_up close modify
  hung_up s = rw (ensure_state (end_config p d) close s) refl

  ensured : {A : Type 0} (m : Dialog A) (s : Shell) → Closed (ensure m (hang_up p d o) s).1
  ensured m s = rw (ensure_state m (hang_up p d o) s) (hung_up (m s).1)

  Keeps-trustpoint_of :
      {P : Shell → Type 0} (ctx : DeployContext) → Keeps P (trustpoint_of p d o ctx)
  unfolding trustpoint_of
  Keeps-trustpoint_of ctx = Keeps-require _ _ ⨾ λ _. Keeps-pure _

  Keeps-prepare_chain :
      {P : Shell → Type 0} (ctx : DeployContext) → Keeps P (prepare_chain p d o ctx)
  unfolding prepare_chain
  Keeps-prepare_chain ctx =
      Keeps-catch _ _ (Keeps-trustpoint_of ctx ⨾ λ _. Keeps-pure _) (λ e. Keeps-pure _)

  Keeps-sealed :
      {P : Shell → Type 0} (ctx : DeployContext) (trustpoint key : String) (certs : List String)
      → Keeps P (sealed p d o ctx trustpoint key certs)
  unfolding sealed
  Keeps-sealed ctx trustpoint key [] = Keeps-raise _
  Keeps-sealed ctx trustpoint key (cert ∷ certs) = Keeps-or_raise _ _

  Keeps-prepare_bundle :
      {P : Shell → Type 0} (ctx : DeployContext) (key : String)
      → Keeps P (prepare_bundle p d o ctx key)
  unfolding prepare_bundle
  Keeps-prepare_bundle ctx key =
      Keeps-catch _ _ (Keeps-trustpoint_of ctx ⨾ λ _. Keeps-sealed ctx _ key _ ⨾ λ _. Keeps-pure _)
        (λ e. Keeps-pure _)

  try_open-ok :
      (ctx : DeployContext) (s : Shell) {out : String}
      → (open_session p d o ctx s).0 ≡ ok out
      → (try_open p d o ctx s).0 ≡ ok none
  unfolding try_open catch pure
  try_open-ok ctx s e = rw (bind_ok (open_session p d o ctx) (λ _. pure none) s e) refl

  install_chain-Closed :
      (ctx : DeployContext) (prepared : DeployResult ⊎ Chain) (s : Shell) {out : String}
      → Closed s
      → (open_session p d o ctx s).0 ≡ ok out
      → Closed (install_chain p d o ctx prepared s).1
  unfolding install_chain install_opened pure
  install_chain-Closed ctx (inl result) s closed e = closed
  install_chain-Closed ctx (inr chain) s closed e =
      rw (bind_ok (try_open p d o ctx) (install_opened p d o ctx chain) s (try_open-ok ctx s e))
        (ensured (catch (install_body p d o ctx chain) (told p d o "cisco_ios install failed: ")) _)

  deploy_bundle-Closed :
      (ctx : DeployContext) (prepared : DeployResult ⊎ (String × String)) (s : Shell) {out : String}
      → Closed s
      → (open_session p d o ctx s).0 ≡ ok out
      → Closed (deploy_bundle p d o ctx prepared s).1
  unfolding deploy_bundle deploy_opened pure
  deploy_bundle-Closed ctx (inl result) s closed e = closed
  deploy_bundle-Closed ctx (inr (trustpoint, bundle)) s closed e =
      rw
        (bind_ok (try_open p d o ctx) (deploy_opened p d o ctx trustpoint bundle) s
          (try_open-ok ctx s e))
        (ensured
          (catch (import_bundle p d o ctx trustpoint bundle)
            (told p d o "cisco_ios deploy failed: "))
          _)

  -- Steps that leave the channel alone, and then one that closes it.
  still_then :
      {A B : Type 0} (m : Dialog A) (f : A → Dialog B) (s : Shell)
      → Closed s
      → Keeps (λ v. v ≡ s) m
      → ((a : A) → Closed (f a s).1)
      → Closed ((m >>= f) s).1
  still_then m f s closed still rest =
      bind_leads {P = λ v. v ≡ s} {Q = Closed} m f still (λ v same. rw same closed)
        (λ a v same. rw same (rest a)) s refl

  install_cert-Closed :
      (ctx : DeployContext) (s : Shell) {out : String}
      → Closed s
      → (open_session p d o ctx s).0 ≡ ok out
      → Closed (install_cert p d o ctx s).1
  unfolding install_cert
  install_cert-Closed ctx s closed e =
      still_then (prepare_chain p d o ctx) (install_chain p d o ctx) s closed
        (Keeps-prepare_chain ctx) (λ prepared. install_chain-Closed ctx prepared s closed e)

  deploy_with-Closed :
      (ctx : DeployContext) (key : Option String) (s : Shell) {out : String}
      → Closed s
      → (open_session p d o ctx s).0 ≡ ok out
      → Closed (deploy_with p d o ctx key s).1
  unfolding deploy_with deploy_key pure
  deploy_with-Closed ctx none s closed e = closed
  deploy_with-Closed ctx (some key) s closed e = elim (Bool-cases (is_empty key)) [
    | inl empty ↦ rw empty closed
    | inr full ↦ rw full (
        still_then (prepare_bundle p d o ctx key) (deploy_bundle p d o ctx) s closed
          (Keeps-prepare_bundle ctx key) (λ prepared. deploy_bundle-Closed ctx prepared s closed e))
  ]

  Keeps-first_or_raise :
      {P : Shell → Type 0} (domains : List String) → Keeps P (first_or_raise p d o domains)
  unfolding first_or_raise
  Keeps-first_or_raise [] = Keeps-raise _
  Keeps-first_or_raise (domain ∷ domains) = Keeps-pure _

  fetch_csr-Closed :
      (ctx : DeployContext) (s : Shell) {out : String}
      → Closed s
      → (open_session p d o ctx s).0 ≡ ok out
      → Closed (fetch_csr p d o ctx s).1
  unfolding fetch_csr
  fetch_csr-Closed ctx s closed e =
      still_then (trustpoint_of p d o ctx) _ s closed (Keeps-trustpoint_of ctx) (λ trustpoint.
        still_then (first_or_raise p d o _) _ s closed (Keeps-first_or_raise _) (λ domain.
          still_then (lift (int_setting p d o ctx.config "key_bits" 2048)) _ s closed (Keeps-lift _)
            (λ bits. rw (bind_ok (open_session p d o ctx) _ s e) (ensured _ _))))

  -- Once the session with the device was opened, its channel is closed at the end of a CSR's
  -- retrieval, of an installation and of an import of a key, whatever the device answers and
  -- whichever exception is raised.
  pub channel_is_closed :
      (ctx : DeployContext) (s : Shell) {out : String}
      → s.channel_open ≡ false
      → (open_session p d o ctx s).0 ≡ ok out
      → ((fetch_csr p d o ctx s).1.channel_open ≡ false)
        × ((install_cert p d o ctx s).1.channel_open ≡ false)
        × ((deploy p d o ctx s).1.channel_open ≡ false)
  unfolding deploy
  channel_is_closed ctx s closed e = (
    fetch_csr-Closed ctx s closed e,
    install_cert-Closed ctx s closed e,
    deploy_with-Closed ctx ctx.key s closed e,
  )
