-- ===== src/Provision/Plan/Paper.antt =====
-- A gateway that is added to a deployment, in formats that know the few texts that it needs.
use wsn.Text.Sets.{add_text}
use wsn.Text.{to_lower, trim_dots, trim_space}
use wsn.Provision.Resolver.{domain_of, normalize_resolver, normalize_search_domains, resolver_for}
use wsn.Provision.Render.{gateway_environment, network_environment}
use wsn.Provision.Names.Quotes.{IsPlain}
use wsn.Provision.Names.{safe_domain_name, safe_interface_name}
use wsn.Provision.Environment.Planned.{PrintsPlain, environment-prepare}
use wsn.Provision.Environment.Lines.{gateway_settings, network_settings}
use wsn.Provision.Environment.{read_settings}
use wsn.Provision.Deployment.{IsNetwork}
use wsn.Provision.{Disk, load_state, prepare, random_mac}
use wsn.Protocol.{Bytes, codes}
use wsn.Netip.{Prefix, contains, masked, prefixes_overlap, usable_address}
use wsn.Formats.{Formats}
use wsn.Config.{validate_id}
use wsn.Provision.Plan.{is_empty}
use wsn.Provision.Plan.{
  ProvisionedClient, State, AddOptions, linux, plan_client, of_config, role_or_client,
  check_existing, same_address, device_or_default, prefix_eq, check_options, check_device,
  normalize_address, overlaps_overlay, normalize_routes, route_contains, is_reachable, check_place,
  check_reach, gateway_role,
}
use wsn.Prelude.{
  All, Bool, Bool-cases, List, Map, Result, [], arith, bytes_eq, bytes_eq_iff, false, if◌then◌else◌,
  inl, inr, lookup, none, ok, refl, some, subst, true, ℕ, ◌*◌, ◌+◌, ◌==◌, ◌^◌, ◌∷◌, ◌≡◌, nat_eq,
  bytes_key,
}
use wsn.Provision.Resolver.{ResolverError}

abbrev addresses : Map Bytes ℕ
addresses =
    (codes "10.0.0.1", 10 * 2 ^ 24 + 1)
    ∷ (codes "172.16.0.53", 172 * 2 ^ 24 + 16 * 2 ^ 16 + 53)
    ∷ []

abbrev prefixes : Map Bytes Prefix
prefixes =
    (codes "10.0.0.0/24", record { addr = 10 * 2 ^ 24; bits = 24 })
    ∷ (codes "172.16.0.0/12", record { addr = 172 * 2 ^ 24 + 16 * 2 ^ 16; bits = 12 })
    ∷ []

abbrev paper : Formats
paper = record {
  parse_addr = λ s. lookup s addresses;
  print_addr = λ a. codes "172.16.0.53";
  parse_prefix = λ s. lookup s prefixes;
  print_prefix = λ p. if p.bits == 24 then codes "10.0.0.1/24" else codes "172.16.0.0/12";
  parse_mac = λ s. none;
  print_mac = λ m. codes "02:00:00:00:00:01";
  decode_base64 = λ s. none;
  encode_base64 = λ k. codes "key";
}

key-IsPlain :
    {A : Type 0} (m : Map Bytes A)
    → All (λ (e : Bytes × A). IsPlain e.0) m
    → (s : Bytes) (a : A) → lookup s m ≡ some a
    → IsPlain s
key-IsPlain [] h s a e = cc
key-IsPlain ((k, v) ∷ m) h s a e = elim (Bool-cases (bytes_eq k s)) [
  | inl same ↦ subst IsPlain ((bytes_eq_iff k s).0 same) h.0
  | inr other ↦ key-IsPlain m h.1 s a (rw other at e)
]

prefix-IsPlain : (b : Bool) → IsPlain (if b then codes "10.0.0.1/24" else codes "172.16.0.0/12")
prefix-IsPlain true = ground arith
prefix-IsPlain false = ground arith

paper-PrintsPlain : PrintsPlain paper
paper-PrintsPlain = record {
  addr_printed = λ a. ground arith;
  addr_parsed = λ s a e. key-IsPlain addresses (ground arith, (ground arith, tt)) s a e;
  prefix_printed = λ p. prefix-IsPlain (p.bits == 24);
  prefix_parsed = λ s p e. key-IsPlain prefixes (ground arith, (ground arith, tt)) s p e;
  mac_printed = λ m. ground arith;
}

abbrev office : State
office = record {
  version = 1;
  public_ip = codes "192.0.2.1";
  overlay = codes "10.0.0.0/24";
  gateway = codes "10.0.0.1";
  dns = codes "172.16.0.53";
  search = codes "corp.example" ∷ [];
  clients = [];
}

office-IsNetwork : IsNetwork paper office
unfolding masked usable_address
office-IsNetwork = record {
  overlay = record { addr = 10 * 2 ^ 24; bits = 24 };
  overlay_parsed = refl;
  canonical = refl;
  gateway = 10 * 2 ^ 24 + 1;
  gateway_parsed = refl;
  gateway_usable = refl;
}

abbrev office_options : AddOptions
office_options = record {
  id = codes "gw";
  os = linux;
  role = gateway_role;
  address = codes "10.0.0.1";
  device = [];
  routes = codes "172.16.0.0/12" ∷ [];
  egress = codes "eth0";
}

abbrev office_overlay : Prefix
office_overlay = record { addr = 10 * 2 ^ 24; bits = 24 }

abbrev resolved : Result ResolverError (Bytes × List Bytes)
resolved =
    normalize_resolver paper (codes "172.16.0.53") (codes "Corp.Example." ∷ []) office_overlay

was_resolved : resolved ≡ ok (office.dns, office.search)
unfolding normalize_resolver normalize_search_domains domain_of trim_space trim_dots to_lower
    safe_domain_name contains is_empty add_text resolver_for
was_resolved = refl

abbrev gateway_client : ProvisionedClient
gateway_client = record {
  id = codes "gw";
  os = linux;
  role = gateway_role;
  address = codes "10.0.0.1/24";
  mac = codes "02:00:00:00:00:01";
  key = codes "key";
  device = codes "wsn0";
  routes = codes "172.16.0.0/12" ∷ [];
  egress = codes "eth0";
}

abbrev office_disk : Disk
office_disk = record { state_file = some office; relay_file = none; writes = [] }

gateway_prepared :
    prepare paper office_options (some []) (some []) office_disk ≡ ok (office, gateway_client)
unfolding prepare load_state random_mac plan_client of_config role_or_client check_existing
    same_address device_or_default is_empty prefix_eq check_options check_device normalize_address
    overlaps_overlay normalize_routes route_contains is_reachable check_place check_reach trim_space
    usable_address masked prefixes_overlap contains validate_id safe_interface_name add_text
gateway_prepared = refl

environment-prepare_example :
    (read_settings (network_environment office gateway_client)
      ≡ some (network_settings office gateway_client))
    × (read_settings (gateway_environment office gateway_client)
        ≡ some (gateway_settings office gateway_client))
environment-prepare_example =
    environment-prepare paper paper-PrintsPlain office_options (some []) (some []) office_disk
      office gateway_client (codes "172.16.0.53") (codes "Corp.Example." ∷ []) office_overlay
      office-IsNetwork was_resolved gateway_prepared
