-- ===== src/Provision/Environment/Examples.antt =====
-- The environment of a client on Linux and of a gateway.
use wsn.Prelude.{[], ◌∷◌, ◌≡◌, refl, some, none, nat_eq, bytes_key}
use wsn.Protocol.{codes}
use wsn.Provision.Plan.{State, ProvisionedClient, linux, gateway_role}
use wsn.Provision.Render.{join, network_environment}
use wsn.Provision.Environment.{read_settings, read_from}
use wsn.Provision.Environment.Lines.{network_settings}

abbrev state : State
state = record {
  version = 1;
  public_ip = codes "192.0.2.1";
  overlay = codes "10.0.0.0/24";
  gateway = codes "10.0.0.1";
  dns = codes "172.16.0.53";
  search = codes "corp.example" ∷ [];
  clients = [];
}

abbrev client : ProvisionedClient
client = record {
  id = codes "gw";
  os = linux;
  role = gateway_role;
  address = codes "10.0.0.1/24";
  mac = codes "02:00:00:00:00:01";
  key = codes "key";
  device = codes "wsn0";
  routes = codes "172.16.0.0/12" ∷ codes "192.168.0.0/16" ∷ [];
  egress = codes "eth0";
}

test_network :
    read_settings (network_environment state client) ≡ some (network_settings state client)
unfolding read_settings read_from network_environment join
test_network = refl

-- A quote in a value ends it, and the shell reads on behind it.
test_quote : read_settings (codes "A='b'; reboot'\n") ≡ none
unfolding read_settings read_from
test_quote = refl
