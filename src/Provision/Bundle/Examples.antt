-- ===== src/Provision/Bundle/Examples.antt =====
-- The bundle of one client from a deployment with it alone and from one with a second client.
use wsn.Provision.Plan.{ProvisionedClient, State, linux}
use wsn.Provision.Bundle.Private.{bundle-public}
use wsn.Provision.Bundle.{bundle, elf_header, find_client}
use wsn.Provision.{Disk, load_state}
use wsn.Protocol.{Bytes, codes}
use wsn.Prelude.{List, Result, [], err, none, ok, refl, replicate, some, true, ◌++◌, ◌∷◌, ◌≡◌}
use wsn.Provision.Render.{BundleOptions, Host, File}
use wsn.Provision.Examples.{state}

abbrev newcomer : ProvisionedClient
newcomer = record {
  id = codes "new";
  os = linux;
  role = codes "client";
  address = 10 ∷ 0 ∷ 0 ∷ 4 ∷ 24 ∷ [];
  mac = 2 ∷ 0 ∷ 0 ∷ 0 ∷ 0 ∷ 4 ∷ [];
  key = replicate 32 50;
  device = codes "wsn0";
  routes = [];
  egress = [];
}

abbrev larger : State
larger = record state { clients = newcomer ∷ state.clients }

abbrev on_disk : State → Disk
on_disk s = record { state_file = some s; relay_file = none; writes = [] }

abbrev host : Host
host = record {
  read_file = λ path. some elf_header;
  ca_certificate = some (codes "ca");
  relay_certificate = none;
  relay_key = none;
  asset = λ name. some (name ++ codes "\n");
  sha256_hex = λ contents. contents;
  fingerprint = λ certificate. some certificate;
  stages = true;
  archives = true;
}

abbrev options : BundleOptions
options = record {
  id = codes "two";
  client_binary = codes "wsn-client";
  tap_installer = [];
  tapctl = [];
  output = [];
}

-- A directory with a certificate and a key of the relay.
abbrev host_with_relay : Host
host_with_relay = record host {
  relay_certificate = some (codes "certificate");
  relay_key = some (codes "key");
}

bundle-public_example :
    bundle host options (on_disk state) ≡ bundle host_with_relay options (on_disk larger)
unfolding load_state find_client
bundle-public_example =
    bundle-public host host_with_relay options (on_disk state) (on_disk larger) state larger refl
      refl (refl, refl, refl, refl, refl) refl refl

abbrev name_of : {E : Type 0} → Result E (Bytes × List File) → Bytes
name_of (ok (name, files)) = name
name_of (err e) = []

test_name : name_of (bundle host options (on_disk larger)) ≡ codes "two-linux.tar.gz"
unfolding bundle
test_name = refl
