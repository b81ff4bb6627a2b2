-- ===== src/Deploy/Ios.antt =====
-- deploy/cisco_ios.py: certificates over the command line of Cisco IOS. A `ShellError` is a
-- `failure`.
pub mod Import
pub mod Closing
pub mod Confirmed
use Prim.Native.String.{◌++◌, count}
use acme_lan.Prelude.{
  ℕ, ◌+◌, String, Bool, true, false, not, ◌||◌, Option, none, some, List, [], ◌∷◌, ◌==◌,
  ◌++◌ as ◌+++◌, map, select, member, if◌then◌else◌,
}
use acme_lan.Prelude.Text.{is_empty, last_chars, contains, join, before_first, drop_chars}
use acme_lan.Json.{Json, str, num, bool, Fields, get, truthy}
use acme_lan.Platform.{Platform}
use acme_lan.Exec.{
  Exec, Result, ok, err, pure, raise, lift, gets, or_raise, require, catch, ensure, modify, ◌>>=◌,
  ◌>>◌,
}
use acme_lan.Acme.Errors.{Exc, failure, uncaught}
use acme_lan.Oidc.{first_chars, replace_from, first_true, get_or, text_of}
use acme_lan.Hosts.{Credential, DeployContext, DeployResult}
use acme_lan.Deploy.Shell.{
  Device, Shell, Dialog, found, send_expect, run, run_unchecked, login, configure, end_config,
  paste_block, close,
}

-- The SSH transports and the cryptography library. `none` and `false` stand for a call that raises.
pub record Outside : Type 0 where
  pub open_paramiko : String → ℕ → String → Option String → Option String → Bool
  pub open_openssh : String → ℕ → String → Option String → Option String → Bool → List String → Bool
  pub findall : String → String → List String
  pub issuer_cn : String → String
  pub token_urlsafe : String
  pub pkcs12 : String → String → List String → Bool → String → Option String
  pub describe : Exc → String

abbrev pub begin_csr : String
begin_csr = "-----BEGIN CERTIFICATE REQUEST-----"

abbrev pub end_csr : String
end_csr = "-----END CERTIFICATE REQUEST-----"

abbrev pub pkcs12_answers : List (String × String)
pkcs12_answers =
    ("hierarchy\\? \\[yes/no\\]:", "yes") ∷ ("accept this certificate\\? \\[yes/no\\]:", "yes") ∷ []

abbrev pub failed : String → DeployResult
failed detail = record { done = false; detail = detail }

module _ (p : Platform) (d : Device) (o : Outside) where
  unfoldable pub split_pem_certificates : String → List String
  split_pem_certificates pem_text =
      map (λ block. p.strip block ++ "\n")
        (o.findall "-----BEGIN CERTIFICATE-----.*?-----END CERTIFICATE-----" pem_text)

  unfoldable pub trimmed : List String → List String
  trimmed lines = map p.strip (select (λ line. not (is_empty (p.strip line))) lines)

  -- From the first begin of a request to the end of the first end of one.
  unfoldable pub csr_body : String → String
  csr_body output =
      drop_chars (count (before_first begin_csr output))
        (first_chars (count (before_first end_csr output) + count end_csr) output)

  unfoldable pub extract_csr : String → Result String
  extract_csr output =
      if not (contains begin_csr output) || not (contains end_csr output)
      then err (failure ("no CSR found in the enroll output:\n" ++ last_chars 800 (p.strip output)))
      else ok
          (join "\n" (trimmed (d.splitlines (replace_from 0 "\r" "" (csr_body output)))) ++ "\n")

  -- `_bool`.
  unfoldable pub flag : Fields → String → Bool → Bool
  flag config key default = flag_of (get_or (bool default) key config)
    where
      flag_of : Json → Bool
      flag_of (str s) = member (p.lower (p.strip s)) ("1" ∷ "true" ∷ "yes" ∷ "on" ∷ [])
      flag_of j = truthy j

  -- `str(config.get(key) or other).strip()`.
  unfoldable pub text_setting : Fields → String → String → String
  text_setting config key other = p.strip (text_of p (first_true (get key config ∷ str other ∷ [])))

  -- `int(value)`.
  unfoldable pub int_of : Json → Result ℕ
  int_of (num n) = ok n
  int_of (bool true) = ok 1
  int_of (bool false) = ok 0
  int_of (str s) = elim (p.parse_int s) [ none ↦ err uncaught | some n ↦ ok n ]
  int_of _ = err uncaught

  -- `int(config.get(key) or other)`.
  unfoldable pub int_setting : Fields → String → ℕ → Result ℕ
  int_setting config key other =
      if truthy (get key config) then int_of (get key config) else ok other

  unfoldable pub trustpoint_of : DeployContext → Dialog String
  trustpoint_of ctx = do
    let trustpoint = text_setting ctx.config "trustpoint" ""
    require (not (is_empty trustpoint)) (failure "cisco_ios plugin requires 'trustpoint'")
    pure trustpoint

  unfoldable pub key_label : DeployContext → String → String
  key_label ctx trustpoint = text_setting ctx.config "key_label" trustpoint

  unfoldable pub password_of : Credential → Option String
  password_of credential = if credential.kind == "ssh_key" then none else some credential.secret

  unfoldable pub pkey_of : Credential → Option String
  pkey_of credential = if credential.kind == "ssh_key" then some credential.secret else none

  -- Old devices are reached through the system's client.
  unfoldable pub needs_openssh : Bool → List String → Bool
  needs_openssh legacy [] = legacy
  needs_openssh legacy (_ ∷ _) = true

  unfoldable pub connected : DeployContext → Credential → ℕ → Bool
  connected ctx credential port =
      let legacy = flag ctx.config "legacy_ssh" false in
      let extra = d.words (text_of p (first_true (get "ssh_options" ctx.config ∷ []))) in
      if needs_openssh legacy extra
      then o.open_openssh ctx.host.address port credential.username (password_of credential)
          (pkey_of credential) legacy extra
      else o.open_paramiko ctx.host.address port credential.username (password_of credential)
          (pkey_of credential)

  unfoldable pub set_open : Dialog (Unit {0})
  unfolding modify
  set_open = modify (λ s. record s { channel_open = true; in_config = false })

  unfoldable pub open_with : DeployContext → Option Credential → Dialog String
  open_with ctx none = raise (failure "cisco_ios plugin requires a credential (device login)")
  open_with ctx (some credential) = do
    port ← lift (int_setting ctx.config "port" 22)
    require (connected ctx credential port) uncaught
    set_open
    login p d (password_of credential) 40

  unfoldable pub open_session : DeployContext → Dialog String
  open_session ctx = open_with ctx ctx.credential

  -- `finally`: the configuration is left, and the channel is closed whether that works or not.
  unfoldable pub hang_up : Dialog (Unit {0})
  hang_up = ensure (end_config p d) close

  unfoldable pub apply_https : String → Dialog String
  apply_https trustpoint = do
    configure p d
    run p d ("ip http secure-trustpoint " ++ trustpoint) [] 45
    run p d "ip http secure-server" [] 45

  unfoldable pub save : Fields → Dialog String
  save config =
      if flag config "write_memory" false
      then (do
        end_config p d
        run p d "write memory"
            (("\\[confirm\\]", "") ∷ ("Destination filename \\[startup-config\\]\\?", "") ∷ []) 180
        pure " (configuration saved)")
      else pure " (running-config only; not saved to startup-config)"

  unfoldable pub finish_import : DeployContext → String → String → Dialog DeployResult
  finish_import ctx trustpoint detail = do
    https ← apply_if (flag ctx.config "apply_to_https" true)
    saved ← save ctx.config
    pure (record { done = true; detail = detail ++ (https ++ saved) })
    where
      apply_if : Bool → Dialog String
      apply_if true = do apply_https trustpoint; pure "; HTTPS server using it"
      apply_if false = pure ""

  -- The key pair is made unless it is there and may be kept.
  unfoldable pub make_key : DeployContext → String → ℕ → String → Dialog (Unit {0})
  make_key ctx label bits existing =
      if not (found (d.search ("(?m)Key name:\\s*" ++ (d.escape label ++ "\\s*$")) existing))
        || flag ctx.config "regenerate_key" false
      then (do
        run p d
            ("crypto key generate rsa general-keys label "
              ++ (label ++ (" modulus " ++ p.number_text bits)))
            (("want to replace them\\? \\[yes/no\\]:", "yes") ∷ []) 300
        pure tt)
      else pure tt

  unfoldable pub request_csr :
      DeployContext → String → String → String → List String → ℕ → Dialog String
  request_csr ctx trustpoint label domain domains bits = do
    existing ← run_unchecked p d "show crypto key mypubkey rsa | include Key name" [] 45
    configure p d
    make_key ctx label bits existing
    run p d ("crypto pki trustpoint " ++ trustpoint) [] 45
    run p d "enrollment terminal pem" [] 30
    run p d ("hash " ++ text_setting ctx.config "hash_algorithm" "sha256") [] 30
    run p d ("subject-name CN=" ++ domain) [] 30
    run p d ("subject-alt-name " ++ join "," domains) [] 30
    run p d ("rsakeypair " ++ label) [] 30
    run p d "revocation-check none" [] 30
    run_unchecked p d "fqdn none" [] 30
    run p d "exit" [] 30
    out ←
        run p d ("crypto pki enroll " ++ trustpoint)
          (("serial number in the subject name\\? \\[yes/no\\]:", "no")
            ∷ ("IP address in the subject name\\? \\[no\\]:", "no")
            ∷ ("Display Certificate Request to terminal\\? \\[yes/no\\]:", "yes")
            ∷ ("Redisplay enrollment request\\? \\[yes/no\\]:", "no")
            ∷ [])
          240
    lift (extract_csr out)

  unfoldable pub first_or_raise : List String → Dialog String
  first_or_raise [] = raise (failure "the host has no domains to request a certificate for")
  first_or_raise (domain ∷ domains) = pure domain

  unfoldable pub fetch_csr : DeployContext → Dialog String
  fetch_csr ctx = do
    trustpoint ← trustpoint_of ctx
    let domains = select (λ x. not (is_empty x)) ctx.host.domains
    domain ← first_or_raise domains
    bits ← lift (int_setting ctx.config "key_bits" 2048)
    open_session ctx
    ensure (request_csr ctx trustpoint (key_label ctx trustpoint) domain domains bits) hang_up
