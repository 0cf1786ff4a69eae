-- ===== src/Provision/Plan/Examples.antt =====
-- A client that is planned for an empty deployment, in the formats of Formats.Raw.
use wsn.Provision.Render.{Host, client_config}
use wsn.Provision.Bundle.{bundle, find_client}
use wsn.Text.Order.{sort_by}
use wsn.Provision.Enroll.Rollback.{added_disk, enroll-rolls_back}
use wsn.Provision.Enroll.{EnrollOptions, bundle_options, enroll}
use wsn.Provision.Deployment.Commands.{IsFilled}
use wsn.Provision.Deployment.{IsDeployment, IsNetwork, IsSound}
use wsn.Provision.Bundle.Loads.{client_config-load_client}
use wsn.Provision.{Disk, load_state, local_mac, prepare, random_mac, relay_config, with_client}
use wsn.Config.Client.{load_client}
use wsn.Prelude.{
  All, Bool, arith, length, none, replicate, some, subst, true, ◌*◌, ◌+◌, ◌^◌, nat_eq, bytes_key,
  ◌≡◌, refl, ok, err, [], ◌∷◌, Result,
}
use wsn.Protocol.{Bytes, IsByte, codes}
use wsn.Text.{trim_space}
use wsn.Netip.{usable_address, masked, prefixes_overlap, contains}
use wsn.Config.{validate_id}
use wsn.Formats.Raw.{raw-ReadsBack, raw}
use wsn.Provision.Names.{safe_interface_name}
use wsn.Provision.Plan.{
  io_failed, ProvisionedClient, State, AddOptions, linux, plan_client, of_config, role_or_client,
  check_existing, same_address, device_or_default, is_empty, prefix_eq, check_options, check_device,
  normalize_address, overlaps_overlay, normalize_routes, route_contains, is_reachable, check_place,
  check_reach,
}
use wsn.Provision.Plan.Checked.{IsPlanned, plan_client-IsPlanned}

abbrev pub state : State
state = record {
  version = 1;
  public_ip = codes "192.0.2.1";
  overlay = 10 ∷ 0 ∷ 0 ∷ 0 ∷ 24 ∷ [];
  gateway = 10 ∷ 0 ∷ 0 ∷ 1 ∷ [];
  dns = [];
  search = [];
  clients = [];
}

abbrev pub options : AddOptions
options = record {
  id = codes "one";
  os = linux;
  role = [];
  address = 10 ∷ 0 ∷ 0 ∷ 2 ∷ [];
  device = [];
  routes = (172 ∷ 16 ∷ 0 ∷ 0 ∷ 24 ∷ []) ∷ [];
  egress = [];
}

abbrev no_client : ProvisionedClient
no_client = record {
  id = [];
  os = [];
  role = [];
  address = [];
  mac = [];
  key = [];
  device = [];
  routes = [];
  egress = [];
}

abbrev result_or {ℓ} : {E : Type 0} {A : Type ℓ} → A → Result E A → A
result_or a (ok b) = b
result_or a (err e) = a

abbrev pub planned : ProvisionedClient
planned = result_or no_client (plan_client raw options state)

was_planned : plan_client raw options state ≡ ok planned
unfolding plan_client of_config role_or_client check_existing same_address device_or_default
    is_empty prefix_eq check_options check_device normalize_address overlaps_overlay
    normalize_routes route_contains is_reachable check_place check_reach trim_space usable_address
    masked prefixes_overlap contains validate_id safe_interface_name
was_planned = refl

test_device : planned.device ≡ codes "wsn0"
unfolding plan_client of_config role_or_client check_existing same_address device_or_default
    is_empty prefix_eq check_options check_device normalize_address overlaps_overlay
    normalize_routes route_contains is_reachable check_place check_reach trim_space usable_address
    masked prefixes_overlap contains validate_id safe_interface_name
test_device = refl

plan_client-IsPlanned_example : IsPlanned raw state planned
plan_client-IsPlanned_example = plan_client-IsPlanned raw options state planned was_planned

abbrev pub six : Bytes
six = 255 ∷ 1 ∷ 2 ∷ 3 ∷ 4 ∷ 5 ∷ []

abbrev pub key_bytes : Bytes
key_bytes = replicate 32 7

pub key-IsFilled : IsFilled 32 (some key_bytes)
key-IsFilled b e =
    let same : key_bytes ≡ b = ground arith in
    subst (λ (x : Bytes). (length x ≡ 32) × All IsByte x) same (refl, ground arith)

pub six-IsFilled : IsFilled 6 (some six)
six-IsFilled b e =
    let same : six ≡ b = ground arith in
    subst (λ (x : Bytes). (length x ≡ 6) × All IsByte x) same (refl, ground arith)

abbrev pub client : ProvisionedClient
client = record planned { mac = raw.print_mac (local_mac six); key = raw.encode_base64 key_bytes }

abbrev pub disk : Disk
disk = record {
  state_file = some state;
  relay_file = none;
  writes = true ∷ true ∷ true ∷ true ∷ [];
}

pub was_prepared : prepare raw options (some key_bytes) (some six) disk ≡ ok (state, client)
unfolding prepare load_state random_mac
was_prepared = rw was_planned refl

state-IsNetwork : IsNetwork raw state
unfolding masked usable_address
state-IsNetwork = record {
  overlay = record { addr = 10 * 2 ^ 24; bits = 24 };
  overlay_parsed = refl;
  canonical = refl;
  gateway = 10 * 2 ^ 24 + 1;
  gateway_parsed = refl;
  gateway_usable = refl;
}

pub state-IsDeployment : IsDeployment raw state
state-IsDeployment = record {
  network = state-IsNetwork;
  rising = tt;
  addresses_differ = tt;
  one_gateway = tt;
  provisioned = tt;
}

abbrev is_abs : Bytes → Bool
is_abs _ = true

client_config-load_client_example :
    load_client raw is_abs (client_config state client) ≡ ok (client_config state client)
client_config-load_client_example =
    client_config-load_client raw raw-ReadsBack is_abs state client options (some key_bytes)
      (some six) disk key-IsFilled six-IsFilled state-IsNetwork was_prepared refl refl

-- No file can be read.
abbrev pub bare_host : Host
bare_host = record {
  read_file = λ _. none;
  ca_certificate = none;
  relay_certificate = none;
  relay_key = none;
  asset = λ _. none;
  sha256_hex = λ s. s;
  fingerprint = λ _. none;
  stages = true;
  archives = true;
}

abbrev enroll_options : EnrollOptions
enroll_options = record {
  add_options = options;
  client_binary = codes "wsn-client";
  tap_installer = [];
  tapctl = [];
  output = [];
  server_output = [];
}

bundle_failed :
    bundle bare_host
      (bundle_options enroll_options client)
      (added_disk bare_host raw state client (true ∷ true ∷ []))
    ≡ err io_failed
unfolding plan_client of_config role_or_client check_existing same_address device_or_default
    is_empty prefix_eq check_options check_device normalize_address overlaps_overlay
    normalize_routes route_contains is_reachable check_place check_reach trim_space usable_address
    masked prefixes_overlap contains validate_id safe_interface_name bundle load_state find_client
    with_client sort_by
bundle_failed = refl

disk-IsSound : IsSound raw disk
disk-IsSound state' e =
    let same : state ≡ state' = ground arith in subst (IsDeployment raw) same state-IsDeployment

enroll-rolls_back_example : enroll bare_host raw enroll_options (some key_bytes) (some six) disk ≡ (
  err io_failed,
  record { state_file = some state; relay_file = some (relay_config []); writes = [] },
)
enroll-rolls_back_example =
    enroll-rolls_back bare_host raw enroll_options (some key_bytes) (some six) disk state client []
      io_failed key-IsFilled six-IsFilled disk-IsSound was_prepared refl bundle_failed
