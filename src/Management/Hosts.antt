-- ===== src/Management/Hosts.antt =====
-- management/hosts_api.py: the administration of managed hosts and of the credentials for devices.
pub mod DeviceMode
use Prim.Native.String.{◌++◌}
use acme_lan.Prelude.{
  ℕ, String, Bool, true, false, not, ◌&&◌, ◌||◌, Option, none, some, List, [], ◌∷◌, ◌==◌, member,
  map, if◌then◌else◌,
}
use acme_lan.Prelude.Text.{is_empty}
use acme_lan.Json.{Fields, str}
use acme_lan.Platform.{Platform}
use acme_lan.Exec.{pure, raise, gets, or_raise, require, ◌>>=◌, ◌>>◌}
use acme_lan.Table.{find, put, remove}
use acme_lan.Models.Rows.{ManagedHost, StoredCredential, Certificate, Tables, World}
use acme_lan.Models.Session.{Handler, commit, now, draw, write}
use acme_lan.Acme.Errors.{http, uncaught}
use acme_lan.Hosts.{Outside, DeployResult, put_host, renew_and_deploy}
use acme_lan.Management.Accounts.{Caller}
use acme_lan.Management.Auth.{require_admin}

pub record HostCreate : Type 0 where
  pub name : String
  pub domains : List String
  pub address : String
  pub port : ℕ
  pub deploy_plugin : String
  pub csr_source : String
  pub credential_id : Option String
  pub config : Fields
  pub enabled : Bool

-- The fields that a request sets; one that is not set is `none`. No field is set to null but that of
-- the credential.
pub record HostUpdate : Type 0 where
  pub name : Option String
  pub domains : Option (List String)
  pub address : Option String
  pub port : Option ℕ
  pub deploy_plugin : Option String
  pub csr_source : Option String
  pub credential_id : Option (Option String)
  pub config : Option Fields
  pub enabled : Option Bool

pub record CredentialCreate : Type 0 where
  pub name : String
  pub kind : String
  pub username : String
  pub provider : String
  pub secret : String
  pub secret_reference : String

-- What is shown of a credential: never its secret.
pub record CredentialView : Type 0 where
  pub id : String
  pub name : String
  pub kind : String
  pub username : String
  pub provider : String
  pub secret_reference : Option String
  pub created_at : String

abbrev pub set {ℓ} : {A : Type ℓ} → Option A → A → A
set none old = old
set (some new) old = new

unfoldable pub updated : HostUpdate → ManagedHost → ManagedHost
updated body host = record host {
  name = set body.name host.name;
  domains = set body.domains host.domains;
  address = set body.address host.address;
  port = set body.port host.port;
  deploy_plugin = set body.deploy_plugin host.deploy_plugin;
  csr_source = set body.csr_source host.csr_source;
  credential_id = set body.credential_id host.credential_id;
  config = set body.config host.config;
  enabled = set body.enabled host.enabled;
}

abbrev pub host_of : String → World → Option ManagedHost
host_of id w = find (λ h. h.id) id w.tx.hosts

abbrev pub remove_host : String → Tables → Tables
remove_host id t = record t { hosts = remove (λ x. x.id) id t.hosts }

abbrev pub put_credential : StoredCredential → Tables → Tables
put_credential c t = record t { credentials = put (λ x. x.id) c t.credentials }

abbrev pub remove_credential : String → Tables → Tables
remove_credential id t = record t { credentials = remove (λ x. x.id) id t.credentials }

abbrev pub is_known : Option Bool → Bool
is_known none = false
is_known (some _) = true

abbrev pub is_capable : Option Bool → Bool
is_capable none = false
is_capable (some b) = b

-- The registry of plugins: for each name, whether the plugin can retrieve a CSR. The encryption of
-- secrets and the names of the secret providers are outside.
module _ (p : Platform) (registry : String → Option Bool) where
  unfoldable pub known_source : String → Bool
  known_source csr_source = member csr_source ("device" ∷ "local" ∷ [])

  -- A host in device mode needs a plugin that retrieves CSRs.
  unfoldable pub device_ready : String → String → Bool
  device_ready csr_source deploy_plugin =
      if csr_source == "device" then is_capable (registry deploy_plugin) else true

  unfoldable pub known_plugin : String → Bool
  known_plugin deploy_plugin = is_known (registry deploy_plugin)

  unfoldable pub unknown_plugin : String → String
  unknown_plugin deploy_plugin = "Unknown deploy plugin " ++ p.repr (str deploy_plugin)

  unfoldable pub no_retrieval : String → String
  no_retrieval deploy_plugin =
      "deploy plugin " ++ (p.repr (str deploy_plugin) ++ " cannot retrieve a CSR from the device")

  unfoldable pub new_host : HostCreate → String → ℕ → ManagedHost
  new_host body id time = record {
    id = id;
    name = body.name;
    domains = body.domains;
    address = body.address;
    port = body.port;
    deploy_plugin = body.deploy_plugin;
    csr_source = body.csr_source;
    credential_id = body.credential_id;
    config = body.config;
    enabled = body.enabled;
    last_deployed_at = none;
    last_status = none;
    created_at = time;
  }

  -- The new host; `create_host` answers with its view.
  unfoldable pub create_host : HostCreate → Caller → Handler ManagedHost
  create_host body caller = do
    require_admin p caller.authorization caller.cookie
    require (known_plugin body.deploy_plugin) (http 400 (unknown_plugin body.deploy_plugin))
    require (known_source body.csr_source) (http 400 "csr_source must be 'device' or 'local'")
    require (device_ready body.csr_source body.deploy_plugin)
        (http 400 (no_retrieval body.deploy_plugin ++ "; use csr_source='local'"))
    n ← draw
    time ← now
    write (put_host (new_host body (p.uuid n) time))
    commit
    pure (new_host body (p.uuid n) time)

  -- The update is checked as a whole and then written; the object that the source changes first is
  -- dropped with the session when a check fails.
  unfoldable pub store_update : HostUpdate → ManagedHost → Handler ManagedHost
  store_update body host = do
    require (known_if body.deploy_plugin) (http 400 (unknown_plugin (set body.deploy_plugin "")))
    require (source_if body.csr_source) (http 400 "csr_source must be 'device' or 'local'")
    let changed = updated body host
    require (known_if (if changed.csr_source == "device" then some changed.deploy_plugin else none))
        uncaught
    require (device_ready changed.csr_source changed.deploy_plugin)
        (http 400 (no_retrieval changed.deploy_plugin))
    write (put_host changed)
    commit
    pure changed
    where
      known_if : Option String → Bool
      known_if none = true
      known_if (some plugin) = known_plugin plugin

      source_if : Option String → Bool
      source_if none = true
      source_if (some source) = known_source source

  unfoldable pub update_host : String → HostUpdate → Caller → Handler ManagedHost
  update_host host_id body caller = do
    require_admin p caller.authorization caller.cookie
    found ← gets (host_of host_id)
    host ← or_raise found (http 404 "Host not found")
    store_update body host

  unfoldable pub get_host : String → Caller → Handler ManagedHost
  get_host host_id caller = do
    require_admin p caller.authorization caller.cookie
    found ← gets (host_of host_id)
    or_raise found (http 404 "Host not found")

  unfoldable pub drop_host : Option ManagedHost → Handler (Unit {0})
  drop_host none = pure tt
  drop_host (some host) = do write (remove_host host.id); commit

  unfoldable pub delete_host : String → Caller → Handler (Unit {0})
  delete_host host_id caller = do
    require_admin p caller.authorization caller.cookie
    found ← gets (host_of host_id)
    drop_host found

  unfoldable pub credential_view : StoredCredential → CredentialView
  credential_view cred = record {
    id = cred.id;
    name = cred.name;
    kind = cred.kind;
    username = cred.username;
    provider = cred.provider;
    secret_reference = if cred.provider == "local" then none else some cred.secret_reference;
    created_at = p.iso_format cred.created_at;
  }

  unfoldable pub list_credentials : Caller → Handler (List CredentialView)
  list_credentials caller = do
    require_admin p caller.authorization caller.cookie
    gets (λ w. map credential_view w.tx.credentials)

  unfoldable pub credential_row : CredentialCreate → String → String → String → ℕ → StoredCredential
  credential_row body secret_encrypted secret_reference id time = record {
    id = id;
    name = body.name;
    kind = body.kind;
    username = body.username;
    provider = body.provider;
    secret_encrypted = secret_encrypted;
    secret_reference = secret_reference;
    created_at = time;
  }

  unfoldable pub add_credential : CredentialCreate → String → String → Handler CredentialView
  add_credential body secret_encrypted secret_reference = do
    n ← draw
    time ← now
    write (put_credential (credential_row body secret_encrypted secret_reference (p.uuid n) time))
    commit
    pure (credential_view (credential_row body secret_encrypted secret_reference (p.uuid n) time))

  unfoldable pub local_credential : (String → String) → CredentialCreate → Handler CredentialView
  local_credential encrypt_secret body = do
    require (not (is_empty body.secret)) (http 400 "local credentials require 'secret'")
    add_credential body (encrypt_secret body.secret) ""

  unfoldable pub remote_credential : List String → CredentialCreate → Handler CredentialView
  remote_credential supported body = do
    require (member body.provider supported)
        (http 400 ("provider must be 'local' or one of " ++ p.repr_names supported))
    require (not (is_empty body.secret_reference))
        (http 400 (body.provider ++ " credentials require 'secret_reference'"))
    add_credential body "" body.secret_reference

  unfoldable pub create_credential :
      (String → String) → List String → CredentialCreate → Caller → Handler CredentialView
  create_credential encrypt_secret supported body caller = do
    require_admin p caller.authorization caller.cookie
    require (member body.kind ("password" ∷ "ssh_key" ∷ []))
        (http 400 "kind must be 'password' or 'ssh_key'")
    if body.provider == "local"
        then local_credential encrypt_secret body
        else remote_credential supported body

  unfoldable pub drop_credential : Option StoredCredential → Handler (Unit {0})
  drop_credential none = pure tt
  drop_credential (some cred) = do write (remove_credential cred.id); commit

  unfoldable pub delete_credential : String → Caller → Handler (Unit {0})
  delete_credential credential_id caller = do
    require_admin p caller.authorization caller.cookie
    found ← gets (λ w. find (λ c. c.id) credential_id w.tx.credentials)
    drop_credential found
