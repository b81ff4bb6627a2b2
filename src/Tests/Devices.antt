-- ===== src/Tests/Devices.antt =====
-- The theorem on the administration of hosts at a concrete host.
use acme_lan.Prelude.{String, Bool, true, false, Option, some, none, [], ◌∷◌, ◌==◌, if◌then◌else◌}
use acme_lan.Json.{end}
use acme_lan.Table.{find}
use acme_lan.Models.Session.{run}
use acme_lan.Management.Hosts.{HostCreate, create_host}
use acme_lan.Management.Hosts.DeviceMode.{Supported, Administered-Supported, created, start}
use acme_lan.Tests.Sample.{sample}
use acme_lan.Tests.Login.{office, caller}

abbrev plugins : String → Option Bool
plugins name =
    if name == "cisco_ios" then some true else if name == "local" then some false else none

abbrev router : HostCreate
router = record {
  name = "router";
  domains = "x" ∷ [];
  address = "a";
  port = 443;
  deploy_plugin = "cisco_ios";
  csr_source = "device";
  credential_id = none;
  config = end;
  enabled = true;
}

no_hosts : Supported sample plugins office.db.hosts
unfolding Supported find
no_hosts id h e = cc e

Administered-Supported_example :
    Supported sample plugins (run (create_host sample plugins router caller) office).1.db.hosts
Administered-Supported_example =
    Administered-Supported sample plugins office
      (run (create_host sample plugins router caller) office).1 no_hosts
      (created router caller start)
