-- ===== src/Hosts.antt =====
-- hosts.py and scheduler.py: certificates for managed hosts that run no ACME client.
pub mod Due
pub mod Renewal
use acme_lan.Prelude.{
  ℕ, String, Bool, true, false, inl, inr, Option, none, some, List, [], ◌∷◌, ◌==◌, ltb, select,
  if◌then◌else◌,
}
use Prim.Native.String.{◌++◌}
use acme_lan.Prelude.Text.{is_empty}
use acme_lan.Json.{Fields}
use acme_lan.Platform.{Platform, ProfileUpstream, Leaf}
use acme_lan.Exec.{Result, ok, err, pure, raise, lift, gets, or_raise, catch, ◌>>=◌, ◌>>◌, ◌>>?◌}
use acme_lan.Table.{find, put}
use acme_lan.Models.Rows.{Certificate, ManagedHost, StoredCredential, Tables, World}
use acme_lan.Models.Session.{Handler, commit, now, draw, write, put_certificate}
use acme_lan.Acme.Errors.{Exc, uncaught}
use acme_lan.Acme.Profiles.{default_upstream}
use acme_lan.Lifecycle.{days_between, at_most}

-- credentials.py: `DecryptedCredential`.
pub record Credential : Type 0 where
  pub kind : String
  pub username : String
  pub secret : String

-- deploy/base.py: what a plugin is given, and what it returns.
pub record DeployContext : Type 0 where
  pub host : ManagedHost
  pub fullchain : String
  pub key : Option String
  pub credential : Option Credential
  pub config : Fields

pub record DeployResult : Type 0 where
  pub done : Bool
  pub detail : String

pub record Plugin : Type 0 where
  pub fetch_csr : ℕ → DeployContext → Result String
  pub install_cert : ℕ → DeployContext → Result DeployResult
  pub deploy : ℕ → DeployContext → Result DeployResult

-- The plugins, secret providers, key generation and certificate store, all outside these files.
-- `generate` makes a key and a CSR for it (the CSR first).
pub record Outside : Type 0 where
  pub plugin : String → Option Plugin
  pub decrypt_secret : String → Result String
  pub get_secret : ℕ → String → String → Result String
  pub generate : ℕ → List String → Result (String × String)
  pub store_name : String
  pub store : ℕ → String → String → Option String → Result (Option String)
  pub describe : Exc → String

-- The certificate of a host that ends last; one without an end comes before all others.
unfoldable pub later : Option ℕ → Option ℕ → Bool
later none y = false
later (some x) none = true
later (some x) (some y) = ltb y x

abbrev pub ends_later : Certificate → Certificate → Bool
ends_later a b = later a.not_after b.not_after

unfoldable pub latest : List Certificate → Option Certificate
latest [] = none
latest (c ∷ certs) = elim (latest certs) [
  | none ↦ some c
  | some d ↦ some (if ends_later d c then d else c)
]

-- `latest is None or latest.not_after is None`, or too few days are left.
unfoldable pub is_due : ℕ → ℕ → Option Certificate → Bool
is_due renew_before_days time none = true
is_due renew_before_days time (some cert) = elim cert.not_after [
  | none ↦ true
  | some not_after ↦ at_most (days_between not_after time) renew_before_days
]

unfoldable pub is_of_host : String → Certificate → Bool
is_of_host id cert = elim cert.host_id [ none ↦ false | some h ↦ h == id ]

unfoldable pub hosts_needing_renewal : ℕ → Handler (List ManagedHost)
hosts_needing_renewal renew_before_days = do
  hosts ← gets (λ w. select (λ h. h.enabled) w.tx.hosts)
  certs ← gets (λ w. w.tx.certificates)
  time ← now
  pure (select (λ h. is_due renew_before_days time (latest (select (is_of_host h.id) certs))) hosts)

abbrev pub put_host : ManagedHost → Tables → Tables
put_host h t = record t { hosts = put (λ x. x.id) h t.hosts }

unfoldable pub first_domain : List String → Result String
first_domain [] = err uncaught
first_domain (d ∷ ds) = ok d

-- `host.name or list(host.domains)[0]`.
unfoldable pub label : ManagedHost → Result String
label host = if is_empty host.name then first_domain host.domains else ok host.name

-- The summary of one host's renewal.
pub record Summary : Type 0 where
  pub host : String
  pub done : Bool
  pub detail : String

module _ (p : Platform) (o : Outside) where
  unfoldable pub credential_of : StoredCredential → Handler (Option Credential)
  credential_of row = do
    n ← draw
    secret ← lift (
        if row.provider == "local"
        then o.decrypt_secret row.secret_encrypted
        else o.get_secret n row.provider row.secret_reference)
    pure (some (record { kind = row.kind; username = row.username; secret = secret }))

  unfoldable pub load_found : Option StoredCredential → Handler (Option Credential)
  load_found none = pure none
  load_found (some row) = credential_of row

  unfoldable pub load_credential : ManagedHost → Handler (Option Credential)
  load_credential host = elim host.credential_id [
    | none ↦ pure none
    | some id ↦
        if is_empty id
        then pure none
        else gets (λ w. find (λ c. c.id) id w.tx.credentials) >>= load_found
  ]

  -- `_default_issuer`: the upstream of the settings.
  unfoldable pub issuer : String → Handler String
  issuer csr_pem = do
    n ← draw
    lift (elim (p.fulfil_order n csr_pem (default_upstream p)) [
      | inl detail ↦ err uncaught
      | inr chain ↦ ok chain
    ])

  unfoldable pub context : ManagedHost → String → Option String → Option Credential → DeployContext
  context host fullchain key credential = record {
    host = host;
    fullchain = fullchain;
    key = key;
    credential = credential;
    config = host.config;
  }

  -- The device makes the CSR: its key is in no context and in no result.
  unfoldable pub work_on_device :
      ManagedHost → Plugin → Option Credential → Handler (String × Option String × DeployResult)
  work_on_device host plugin credential = do
    n ← draw
    csr_pem ← lift (plugin.fetch_csr n (context host "" none credential))
    fullchain ← issuer csr_pem
    k ← draw
    result ← lift (plugin.install_cert k (context host fullchain none credential))
    pure (fullchain, none, result)

  unfoldable pub work_locally :
      ManagedHost → Plugin → Option Credential → Handler (String × Option String × DeployResult)
  work_locally host plugin credential = do
    n ← draw
    (csr_pem, key_pem) ← lift (o.generate n host.domains)
    fullchain ← issuer csr_pem
    k ← draw
    result ← lift (plugin.deploy k (context host fullchain (some key_pem) credential))
    pure (fullchain, some key_pem, result)

  unfoldable pub work :
      ManagedHost → Option Credential → Handler (String × Option String × DeployResult)
  work host credential = do
    plugin ← or_raise (o.plugin host.deploy_plugin) uncaught
    if host.csr_source == "device"
        then work_on_device host plugin credential
        else work_locally host plugin credential

  -- `store.name if key_pem else "none"`.
  unfoldable pub key_storage_of : Option String → String
  key_storage_of none = "none"
  key_storage_of (some key) = if is_empty key then "none" else o.store_name

  unfoldable pub host_certificate :
      ManagedHost → String → Option String → Option String → Leaf → String → ℕ → Certificate
  host_certificate host fullchain key_pem key_reference leaf id time = record {
    id = id;
    order_id = none;
    host_id = some host.id;
    pem_chain = fullchain;
    serial = some leaf.serial;
    subject = some leaf.subject;
    domains = host.domains;
    not_after = some leaf.not_after;
    issued_at = time;
    key_storage = key_storage_of key_pem;
    key_reference = key_reference;
    retired = false;
    retired_at = none;
    retired_reason = none;
    expiry_warned_at = none;
  }

  unfoldable pub status_text : DeployResult → String
  status_text result = if result.done then "deployed" else "error: " ++ result.detail

  -- The certificate is kept in the store, and both rows are committed.
  unfoldable pub record_deployment :
      ManagedHost → String × Option String × DeployResult → Handler (Certificate × DeployResult)
  record_deployment host (fullchain, key_pem, result) = do
    name ← lift (label host)
    n ← draw
    key_reference ← lift (o.store n name fullchain key_pem)
    leaf ← or_raise (p.load_leaf_pem fullchain) uncaught
    k ← draw
    time ← now
    let cert : Certificate =
        host_certificate host fullchain key_pem key_reference leaf (p.uuid k) time
    write (put_certificate cert)
    write (
        put_host
          (record host { last_deployed_at = some time; last_status = some (status_text result) }))
    commit
    pure (cert, result)

  unfoldable pub renew_and_deploy : ManagedHost → Handler (Certificate × DeployResult)
  renew_and_deploy host = do
    credential ← load_credential host
    worked ← work host credential
    record_deployment host worked

  -- One host failing does not stop the rest.
  unfoldable pub renew_one : ManagedHost → Handler Summary
  renew_one host =
      catch
        (do
          (cert, result) ← renew_and_deploy host
          pure (record { host = host.name; done = result.done; detail = result.detail }))
        (λ e. pure (record { host = host.name; done = false; detail = o.describe e }))

  unfoldable pub renew_each : List ManagedHost → Handler (List Summary)
  renew_each [] = pure []
  renew_each (host ∷ hosts) = do
    summary ← renew_one host
    rest ← renew_each hosts
    pure (summary ∷ rest)

  unfoldable pub renew_due_hosts : Handler (List Summary)
  renew_due_hosts = do due ← hosts_needing_renewal p.settings.renew_before_days; renew_each due
