-- ===== src/Deploy/Ios/Import.antt =====
-- deploy/cisco_ios.py: installing a signed certificate, and importing a key with its chain.
use Prim.Native.String.{◌++◌}
use acme_lan.Prelude.{
  String, true, not, ◌⊎◌, inl, inr, Option, none, some, List, [], ◌∷◌, if◌then◌else◌,
}
use acme_lan.Prelude.Text.{is_empty, last_chars, contains}
use acme_lan.Json.{str}
use acme_lan.Platform.{Platform}
use acme_lan.Exec.{pure, raise, or_raise, catch, ensure, ◌>>=◌, ◌>>◌}
use acme_lan.Acme.Errors.{Exc, failure, uncaught}
use acme_lan.Hosts.{DeployContext, DeployResult}
use acme_lan.Deploy.Shell.{Device, Dialog, send_expect, configure, paste_block}
use acme_lan.Deploy.Ios.{
  Outside, failed, pkcs12_answers, split_pem_certificates, flag, trustpoint_of, open_session,
  hang_up, finish_import,
}

-- The trustpoint, the leaf certificate, its issuer's and the last one of the chain.
pub record Chain : Type 0 where
  pub trustpoint : String
  pub leaf : String
  pub issuer_pem : String
  pub top : String

unfoldable pub last_of : String → List String → String
last_of pem [] = pem
last_of pem (next ∷ rest) = last_of next rest

unfoldable pub chain_of : String → List String → DeployResult ⊎ Chain
chain_of trustpoint [] = inl (failed "the issued chain contained no certificates")
chain_of trustpoint (leaf ∷ []) = inl (
    failed
      "the issued chain has no CA certificate; IOS must authenticate the issuing CA before it will import a device certificate")
chain_of trustpoint (leaf ∷ ca ∷ cas) =
    inr (record { trustpoint = trustpoint; leaf = leaf; issuer_pem = ca; top = last_of ca cas })

module _ (p : Platform) (d : Device) (o : Outside) where
  -- `except Exception`: the failure is a result.
  unfoldable pub told : String → Exc → Dialog DeployResult
  told what e = pure (failed (what ++ o.describe e))

  unfoldable pub prepare_chain : DeployContext → Dialog (DeployResult ⊎ Chain)
  prepare_chain ctx =
      catch
        (trustpoint_of p d o ctx >>= λ trustpoint.
          pure (chain_of trustpoint (split_pem_certificates p d o ctx.fullchain)))
        (λ e. pure (inl (failed ("cisco_ios configuration error: " ++ o.describe e))))

  -- The session, or the result that says why there is none.
  unfoldable pub try_open : DeployContext → Dialog (Option DeployResult)
  try_open ctx =
      catch (open_session p d o ctx >> pure none)
        (λ e. pure (some (failed ("cisco_ios connect failed: " ++ o.describe e))))

  unfoldable pub no_anchor : Chain → String → DeployResult
  no_anchor chain message = failed (
      "IOS refused to trust the issuing CA: it anchors a trustpoint on a self-signed certificate, and this chain contains none (its top CA is "
      ++ (p.repr (str (o.issuer_cn chain.top))
          ++ (", itself issued by another CA). Either switch this host to the 'local' CSR mode, which imports a PKCS#12 carrying the whole chain and needs no CA authentication, or pre-authenticate a trustpoint holding the CA's self-signed root and reference it with 'chain-validation continue'. IOS said: "
              ++ message)))

  -- `except ShellError`: the device takes no intermediate for an anchor.
  unfoldable pub not_trusted : Chain → Exc → Dialog (Option DeployResult)
  not_trusted chain (failure message) =
      if contains "saving certificate" message
      then pure (some (no_anchor chain message))
      else raise (failure message)
  not_trusted chain e = raise e

  unfoldable pub authenticate_ca : Chain → Dialog (Option DeployResult)
  authenticate_ca chain = do
    configure p d
    send_expect p d ("crypto pki authenticate " ++ chain.trustpoint)
        "base 64 encoded CA cert|End with a blank line" 90
    catch (paste_block p d chain.issuer_pem pkcs12_answers 120 >> pure none) (not_trusted chain)

  unfoldable pub confirm_import : DeployContext → Chain → String → Dialog DeployResult
  confirm_import ctx chain out =
      if not (contains "successfully imported" (p.lower out))
      then pure (failed ("certificate import was not confirmed: " ++ last_chars 400 (p.strip out)))
      else finish_import p d o ctx chain.trustpoint
          ("imported into trustpoint " ++ chain.trustpoint)

  unfoldable pub import_leaf : DeployContext → Chain → Option DeployResult → Dialog DeployResult
  import_leaf ctx chain (some result) = pure result
  import_leaf ctx chain none = do
    send_expect p d ("crypto pki import " ++ (chain.trustpoint ++ " certificate"))
        "base 64 encoded certificate|End with a blank line" 90
    out ← paste_block p d chain.leaf [] 180
    confirm_import ctx chain out

  unfoldable pub install_body : DeployContext → Chain → Dialog DeployResult
  install_body ctx chain = do refusal ← authenticate_ca chain; import_leaf ctx chain refusal

  unfoldable pub install_opened : DeployContext → Chain → Option DeployResult → Dialog DeployResult
  install_opened ctx chain (some result) = pure result
  install_opened ctx chain none =
      ensure (catch (install_body ctx chain) (told "cisco_ios install failed: ")) (hang_up p d o)

  unfoldable pub install_chain : DeployContext → DeployResult ⊎ Chain → Dialog DeployResult
  install_chain ctx (inl result) = pure result
  install_chain ctx (inr chain) = do connection ← try_open ctx; install_opened ctx chain connection

  unfoldable pub install_cert : DeployContext → Dialog DeployResult
  install_cert ctx = do prepared ← prepare_chain ctx; install_chain ctx prepared

  -- `build_pkcs12`; sealing and encoding are the library's.
  unfoldable pub sealed : DeployContext → String → String → List String → Dialog String
  sealed ctx trustpoint key [] = raise uncaught
  sealed ctx trustpoint key (cert ∷ certs) =
      or_raise
        (o.pkcs12 trustpoint key (cert ∷ certs)
          (flag p d o ctx.config "pkcs12_legacy_encryption" true) o.token_urlsafe)
        uncaught

  unfoldable pub prepare_bundle : DeployContext → String → Dialog (DeployResult ⊎ (String × String))
  prepare_bundle ctx key =
      catch
        (trustpoint_of p d o ctx >>= λ trustpoint.
          sealed ctx trustpoint key (split_pem_certificates p d o ctx.fullchain) >>= λ bundle.
          pure (inr (trustpoint, bundle)))
        (λ e. pure (inl (failed ("could not build the PKCS#12 bundle: " ++ o.describe e))))

  unfoldable pub confirm_bundle : DeployContext → String → String → Dialog DeployResult
  confirm_bundle ctx trustpoint out =
      if contains "failed" (p.lower out)
      then pure (failed ("PKCS#12 import failed: " ++ last_chars 400 (p.strip out)))
      else if not (contains "imported pkcs12 file successfully" (p.lower out))
      then pure (failed ("PKCS#12 import was not confirmed: " ++ last_chars 400 (p.strip out)))
      else finish_import p d o ctx trustpoint ("PKCS#12 imported into trustpoint " ++ trustpoint)

  unfoldable pub import_bundle : DeployContext → String → String → Dialog DeployResult
  import_bundle ctx trustpoint bundle = do
    configure p d
    send_expect p d
        ("crypto pki import " ++ (trustpoint ++ (" pkcs12 terminal password " ++ o.token_urlsafe)))
        "base 64 encoded pkcs12|End with a blank line" 90
    out ← paste_block p d bundle pkcs12_answers 300
    confirm_bundle ctx trustpoint out

  unfoldable pub deploy_opened :
      DeployContext → String → String → Option DeployResult → Dialog DeployResult
  deploy_opened ctx trustpoint bundle (some result) = pure result
  deploy_opened ctx trustpoint bundle none =
      ensure (catch (import_bundle ctx trustpoint bundle) (told "cisco_ios deploy failed: "))
        (hang_up p d o)

  unfoldable pub deploy_bundle :
      DeployContext → DeployResult ⊎ (String × String) → Dialog DeployResult
  deploy_bundle ctx (inl result) = pure result
  deploy_bundle ctx (inr (trustpoint, bundle)) = do
    connection ← try_open ctx
    deploy_opened ctx trustpoint bundle connection

  unfoldable pub deploy_key : DeployContext → String → Dialog DeployResult
  deploy_key ctx key =
      if is_empty key
      then pure (failed "local mode needs the private key")
      else do prepared ← prepare_bundle ctx key; deploy_bundle ctx prepared

  unfoldable pub deploy_with : DeployContext → Option String → Dialog DeployResult
  deploy_with ctx none = pure (failed "local mode needs the private key")
  deploy_with ctx (some key) = deploy_key ctx key

  unfoldable pub deploy : DeployContext → Dialog DeployResult
  deploy ctx = deploy_with ctx ctx.key
