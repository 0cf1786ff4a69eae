-- ===== src/Provision/Examples.antt =====
-- A deployment with one client, a second that is added, a resolver, in the formats of Formats.Raw.
use wsn.Provision.Init.Sound.{init_deployment-ok}
use wsn.Provision.Init.{InitHost, InitOptions, init_deployment}
use wsn.Prelude.{
  false, ok, ◌*◌, ◌+◌, ◌^◌, nat_eq, bytes_key, ◌≡◌, refl, true, some, none, [], ◌∷◌, replicate,
  arith, subst,
}
use wsn.Protocol.{Bytes, codes}
use wsn.Text.{trim_space, trim_dots, to_lower}
use wsn.Netip.{masked, usable_address, Prefix, contains}
use wsn.Config.{validate_id, first_byte}
use wsn.Formats.Raw.{raw-ReadsBack, raw}
use wsn.Provision.Names.{safe_domain_name}
use wsn.Provision.Plan.{ProvisionedClient, State, AddOptions, linux, client_role, is_empty}
use wsn.Text.Sets.{add_text}
use wsn.Provision.{load_state, relay_config, Disk}
use wsn.Provision.Resolver.{resolver_for, normalize_resolver, normalize_search_domains, domain_of}
use wsn.Provision.Resolver.Normal.{AreDomainsOf, IsResolver, normalize_resolver-IsResolver}
use wsn.Provision.Deployment.{IsNetwork, IsProvisioned, IsDeployment, IsSound}

abbrev six : Bytes
six = 255 ∷ 1 ∷ 2 ∷ 3 ∷ 4 ∷ 5 ∷ []

abbrev overlay : Prefix
overlay = record { addr = 0; bits = 8 }

normalize_resolver-IsResolver_example :
    AreDomainsOf (codes "Corp.Example." ∷ []) (codes "corp.example" ∷ [])
    × IsResolver raw (codes "49.5") overlay (codes "49.5") (codes "corp.example" ∷ [])
unfolding normalize_resolver normalize_search_domains domain_of trim_space trim_dots to_lower
    safe_domain_name contains is_empty add_text
normalize_resolver-IsResolver_example =
    normalize_resolver-IsResolver raw (codes "49.5") (codes "Corp.Example." ∷ []) overlay
      (codes "49.5") (codes "corp.example" ∷ []) refl

abbrev resident : ProvisionedClient
resident = record {
  id = codes "two";
  os = linux;
  role = client_role;
  address = 10 ∷ 0 ∷ 0 ∷ 3 ∷ 24 ∷ [];
  mac = 2 ∷ 0 ∷ 0 ∷ 0 ∷ 0 ∷ 2 ∷ [];
  key = replicate 32 41;
  device = codes "wsn0";
  routes = [];
  egress = [];
}

resident-IsProvisioned : IsProvisioned raw resident
unfolding validate_id first_byte
resident-IsProvisioned = record {
  id_valid = refl;
  key = replicate 32 8;
  key_printed = refl;
  key_size = refl;
  mac = 2 ∷ 0 ∷ 0 ∷ 0 ∷ 0 ∷ 2 ∷ [];
  mac_printed = refl;
  mac_six = refl;
  mac_bytes = ground arith;
  mac_unicast = refl;
}

abbrev pub state : State
state = record {
  version = 1;
  public_ip = codes "192.0.2.1";
  overlay = 10 ∷ 0 ∷ 0 ∷ 0 ∷ 24 ∷ [];
  gateway = 10 ∷ 0 ∷ 0 ∷ 1 ∷ [];
  dns = [];
  search = [];
  clients = resident ∷ [];
}

state-IsNetwork : IsNetwork raw state
unfolding masked usable_address
state-IsNetwork = record {
  overlay = record { addr = 10 * 2 ^ 24; bits = 24 };
  overlay_parsed = refl;
  canonical = refl;
  gateway = 10 * 2 ^ 24 + 1;
  gateway_parsed = refl;
  gateway_usable = refl;
}

pub state-IsDeployment : IsDeployment raw state
state-IsDeployment = record {
  network = state-IsNetwork;
  rising = (tt, tt);
  addresses_differ = (tt, tt);
  one_gateway = (tt, tt);
  provisioned = (resident-IsProvisioned, tt);
}

abbrev disk : Disk
disk = record { state_file = some state; relay_file = none; writes = true ∷ true ∷ [] }

disk-IsSound : IsSound raw disk
disk-IsSound state' e =
    let same : state ≡ state' = ground arith in subst (IsDeployment raw) same state-IsDeployment

abbrev options : AddOptions
options = record {
  id = codes "one";
  os = linux;
  role = [];
  address = 10 ∷ 0 ∷ 0 ∷ 2 ∷ [];
  device = [];
  routes = [];
  egress = [];
}

abbrev init_host : InitHost
init_host = record { exists = false; makes_directory = true; makes_certificates = true }

abbrev init_options : InitOptions
init_options = record {
  public_ip = 192 ∷ 0 ∷ 2 ∷ 1 ∷ [];
  overlay = 10 ∷ 0 ∷ 0 ∷ 0 ∷ 24 ∷ [];
  gateway = 10 ∷ 0 ∷ 0 ∷ 1 ∷ [];
  dns = [];
  search = [];
}

abbrev bare_disk : Disk
bare_disk = record { state_file = none; relay_file = none; writes = true ∷ true ∷ [] }

abbrev first_disk : Disk
first_disk = (init_deployment raw init_host init_options bare_disk).1

was_initialized : init_deployment raw init_host init_options bare_disk ≡ (ok tt, first_disk)
unfolding init_deployment normalize_resolver normalize_search_domains resolver_for trim_space masked
    usable_address
was_initialized = refl

init_deployment-ok_example :
    (first : State) × (load_state first_disk ≡ ok first)
    × (first.clients ≡ [])
    × IsDeployment raw first
    × (first_disk.relay_file ≡ some (relay_config []))
init_deployment-ok_example =
    init_deployment-ok raw raw-ReadsBack init_host init_options bare_disk first_disk was_initialized
