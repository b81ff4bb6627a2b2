-- ===== src/Tests/Deploy.antt =====
-- The theorems on the dialogue with a device at a concrete device.
use acme_lan.Prelude.{
  ℕ, String, ◌≡◌, refl, true, false, some, none, inr, List, [], ◌∷◌, ◌==◌, ◌||◌, ◌%◌, eqb,
  starts_with, if◌then◌else◌,
}
use acme_lan.Prelude.Text.{is_empty}
use acme_lan.Json.{str, end, field}
use acme_lan.Exec.{ok}
use acme_lan.Models.Rows.{ManagedHost}
use acme_lan.Hosts.{DeployContext, DeployResult}
use acme_lan.Deploy.Shell.{Device, Shell, prompt, run}
use acme_lan.Deploy.Shell.Dialogue.{Accepted, after_sending, run-Accepted}
use acme_lan.Deploy.Ios.{Outside, trustpoint_of, open_session, fetch_csr, split_pem_certificates}
use acme_lan.Deploy.Ios.Import.{Chain, chain_of, prepare_chain, try_open, install_cert, deploy}
use acme_lan.Deploy.Ios.Closing.{channel_is_closed}
use acme_lan.Deploy.Ios.Confirmed.{Pasted, Leads, install_cert_done}
use acme_lan.Tests.Sample.{sample}

-- A device that takes everything: each second reading gives its answer, which ends at the prompt.
abbrev willing : Device
willing = record {
  read = λ _ n. if eqb (n % 2) 0 then "successfully imported#" else "";
  sends = λ _ _. true;
  search = λ pattern text.
      if is_empty text
      then none
      else if (pattern == prompt)
          || (starts_with pattern "base 64" || starts_with pattern "(?i)password:|")
      then some 0
      else none;
  rounds = λ _. 4;
  escape = λ s. s;
  splitlines = λ s. s ∷ [];
  words = λ _. [];
  rstrip_spaces = λ s. s;
}

abbrev library : Outside
library = record {
  open_paramiko = λ _ _ _ _ _. true;
  open_openssh = λ _ _ _ _ _ _ _. false;
  findall = λ _ _. "L" ∷ "C" ∷ [];
  issuer_cn = λ _. "R";
  token_urlsafe = "t";
  pkcs12 = λ _ _ _ _ _. some "B";
  describe = λ _. "";
}

abbrev switch : ManagedHost
switch = record {
  id = "h";
  name = "switch";
  domains = "x" ∷ [];
  address = "a";
  port = 443;
  deploy_plugin = "cisco_ios";
  csr_source = "device";
  credential_id = none;
  config = field "trustpoint" (str "T") end;
  enabled = true;
  last_deployed_at = none;
  last_status = none;
  created_at = 0;
}

abbrev switch_context : DeployContext
switch_context = record {
  host = switch;
  fullchain = "LC";
  key = some "K";
  credential = some (record { kind = "password"; username = "u"; secret = "pw" });
  config = switch.config;
}

abbrev idle : Shell
idle = record { sent = []; reads = 0; channel_open = false; in_config = false }

ran : (out : String) × ((run sample willing "show clock" [] 60 idle).0 ≡ ok out)
unfolding run acme_lan.Exec.◌>>=◌ acme_lan.Deploy.Shell.run_unchecked acme_lan.Deploy.Shell.send
    acme_lan.Deploy.Shell.drain acme_lan.Deploy.Shell.drain_from acme_lan.Deploy.Shell.read
    acme_lan.Deploy.Shell.question acme_lan.Deploy.Shell.settled acme_lan.Deploy.Shell.found
    acme_lan.Prelude.Text.drop_chars acme_lan.Deploy.Shell.check acme_lan.Deploy.Shell.no_marker
    acme_lan.Deploy.Shell.first_marker acme_lan.Prelude.Text.contains
ran = (_, refl)

run-Accepted_example :
    Accepted sample willing []
      (after_sending "show clock\n" idle)
      (run sample willing "show clock" [] 60 idle).1
      ran.0
run-Accepted_example = run-Accepted sample willing "show clock" [] 60 idle ran.1

session : (out : String) × ((open_session sample willing library switch_context idle).0 ≡ ok out)
unfolding open_session acme_lan.Deploy.Ios.open_with acme_lan.Exec.◌>>=◌
    acme_lan.Deploy.Ios.int_setting acme_lan.Deploy.Ios.connected acme_lan.Deploy.Ios.needs_openssh
    acme_lan.Deploy.Ios.flag acme_lan.Deploy.Ios.set_open acme_lan.Deploy.Shell.login
    acme_lan.Deploy.Shell.expect acme_lan.Deploy.Shell.expect_from acme_lan.Deploy.Shell.read
    acme_lan.Deploy.Shell.found acme_lan.Deploy.Shell.give_password acme_lan.Deploy.Shell.escalate
    acme_lan.Deploy.Shell.is_user_mode acme_lan.Prelude.Text.last_chars
    acme_lan.Deploy.Shell.run_unchecked acme_lan.Deploy.Ios.int_of acme_lan.Deploy.Ios.password_of
    acme_lan.Deploy.Ios.pkey_of acme_lan.Deploy.Shell.drain acme_lan.Deploy.Shell.drain_from
    acme_lan.Deploy.Shell.enable_password acme_lan.Deploy.Shell.password_or_raise
    acme_lan.Deploy.Shell.question acme_lan.Deploy.Shell.send acme_lan.Deploy.Shell.settled
    acme_lan.Deploy.Shell.text_or_empty acme_lan.Exec.gets acme_lan.Exec.lift acme_lan.Exec.modify
    acme_lan.Exec.pure acme_lan.Exec.raise acme_lan.Exec.require acme_lan.Prelude.Text.drop_chars
session = (_, refl)

channel_is_closed_example :
    ((fetch_csr sample willing library switch_context idle).1.channel_open ≡ false)
    × ((install_cert sample willing library switch_context idle).1.channel_open ≡ false)
    × ((deploy sample willing library switch_context idle).1.channel_open ≡ false)
channel_is_closed_example =
    channel_is_closed sample willing library switch_context idle refl session.1

installed :
    (r : DeployResult) × ((install_cert sample willing library switch_context idle).0 ≡ ok r)
    × (r.done ≡ true)
unfolding install_cert acme_lan.Exec.◌>>=◌ acme_lan.Deploy.Ios.Import.prepare_chain
    acme_lan.Exec.catch acme_lan.Deploy.Ios.trustpoint_of acme_lan.Deploy.Ios.text_setting
    acme_lan.Deploy.Ios.Import.install_chain chain_of split_pem_certificates
    acme_lan.Deploy.Ios.Import.try_open open_session acme_lan.Deploy.Ios.open_with
    acme_lan.Deploy.Ios.int_setting acme_lan.Deploy.Ios.connected acme_lan.Deploy.Ios.needs_openssh
    acme_lan.Deploy.Ios.flag acme_lan.Deploy.Ios.set_open acme_lan.Deploy.Shell.login
    acme_lan.Deploy.Ios.Import.authenticate_ca acme_lan.Deploy.Ios.Import.confirm_import
    acme_lan.Deploy.Ios.Import.import_leaf acme_lan.Deploy.Ios.Import.install_body
    acme_lan.Deploy.Ios.Import.install_opened acme_lan.Deploy.Ios.Import.last_of
    acme_lan.Deploy.Ios.Import.no_anchor acme_lan.Deploy.Ios.Import.not_trusted
    acme_lan.Deploy.Ios.Import.told acme_lan.Deploy.Ios.apply_https
    acme_lan.Deploy.Ios.finish_import acme_lan.Deploy.Ios.hang_up acme_lan.Deploy.Ios.int_of
    acme_lan.Deploy.Ios.password_of acme_lan.Deploy.Ios.pkey_of acme_lan.Deploy.Ios.save
    acme_lan.Deploy.Shell.check acme_lan.Deploy.Shell.close acme_lan.Deploy.Shell.configure
    acme_lan.Deploy.Shell.drain acme_lan.Deploy.Shell.drain_from
    acme_lan.Deploy.Shell.enable_password acme_lan.Deploy.Shell.end_config
    acme_lan.Deploy.Shell.escalate acme_lan.Deploy.Shell.expect acme_lan.Deploy.Shell.expect_from
    acme_lan.Deploy.Shell.first_marker acme_lan.Deploy.Shell.found
    acme_lan.Deploy.Shell.give_password acme_lan.Deploy.Shell.is_user_mode
    acme_lan.Deploy.Shell.markers_pattern acme_lan.Deploy.Shell.no_marker
    acme_lan.Deploy.Shell.password_or_raise acme_lan.Deploy.Shell.paste_block
    acme_lan.Deploy.Shell.question acme_lan.Deploy.Shell.read run
    acme_lan.Deploy.Shell.run_unchecked acme_lan.Deploy.Shell.send acme_lan.Deploy.Shell.send_expect
    acme_lan.Deploy.Shell.send_lines acme_lan.Deploy.Shell.set_config acme_lan.Deploy.Shell.settled
    acme_lan.Deploy.Shell.text_or_empty acme_lan.Exec.ensure acme_lan.Exec.gets acme_lan.Exec.lift
    acme_lan.Exec.modify acme_lan.Exec.pure acme_lan.Exec.raise acme_lan.Exec.require
    acme_lan.Prelude.Text.contains acme_lan.Prelude.Text.drop_chars acme_lan.Prelude.Text.last_chars
installed = (_, refl, refl)

install_cert_done_example :
    (chain : Chain) × ((trustpoint : String) × ((trustpoint_of sample willing library switch_context
          idle).0
        ≡ ok trustpoint)
      × Leads sample willing library trustpoint
          (split_pem_certificates sample willing library "LC")
          chain)
    × ((try_open sample willing library switch_context
          (prepare_chain sample willing library switch_context idle).1).0
        ≡ ok none)
    × Pasted sample willing library chain
        (try_open sample willing library switch_context
          (prepare_chain sample willing library switch_context idle).1).1
install_cert_done_example =
    install_cert_done sample willing library switch_context idle installed.1 installed.2
