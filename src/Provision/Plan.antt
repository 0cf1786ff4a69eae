-- ===== src/Provision/Plan.antt =====
-- The checks of `AddClient` of internal/provision/provision.go, in their order, and the client that
-- they lead to.
pub mod Checked
pub mod Device
pub mod Examples
mod Paper
use wsn.Prelude.{
  ltb, leb, ◌==◌, if◌then◌else◌, ltb→lt, leb→le, ==_iff, Bool-cases, Option-cases, bytes_eq,
  bytes_eq_iff, bytes_eq_refl, among, Eq, nat_eq, bytes_key, length, take, drop, Elem,
  length-append, take-append-drop, length-take, length-drop, All, All-append, Map, lookup, insert,
  remove, Distinct, Entry, lookup-insert, lookup-remove, insert-Distinct, remove-Distinct,
  Entry-of_lookup, lookup-of_Entry, Result, ◌>>=◌, ◌>>◌, refuse_if, or_err, Result-cases, ok, err,
  ℕ, zero, suc, ◌+◌, ◌-◌, ◌*◌, ◌/◌, ◌%◌, ◌^◌, ◌≤◌, ◌<◌, ◌≡◌, refl, sym, ap, subst, ◌∙◌, ◌≢◌, ◌↔◌,
  ◌⊎◌, inl, inr, Bool, true, false, not, ◌&&◌, ◌||◌, Option, none, some, List, [], ◌∷◌, ◌++◌, map,
  append_assoc, append-nil, arith,
}
use wsn.Protocol.{Bytes, codes}
use wsn.Text.Sets.{add_text}
use wsn.Text.{trim_space, sort_by, bytes_lt}
use wsn.Formats.{Formats}
use wsn.Netip.{Prefix, contains, masked, prefixes_overlap, usable_address}
use wsn.Config.{ConfigError, validate_id}
use wsn.Provision.Names.{safe_interface_name}

pub record ProvisionedClient : Type 0 where
  pub id : Bytes
  pub os : Bytes
  pub role : Bytes
  pub address : Bytes
  pub mac : Bytes
  pub key : Bytes
  pub device : Bytes
  pub routes : List Bytes
  pub egress : Bytes

pub record State : Type 0 where
  pub version : ℕ
  pub public_ip : Bytes
  pub overlay : Bytes
  pub gateway : Bytes
  pub dns : Bytes
  pub search : List Bytes
  pub clients : List ProvisionedClient

pub record AddOptions : Type 0 where
  pub id : Bytes
  pub os : Bytes
  pub role : Bytes
  pub address : Bytes
  pub device : Bytes
  pub routes : List Bytes
  pub egress : Bytes

pub data ProvisionError : Type 0 where
  no_state unsupported_version unknown_client random_failed write_failed : ProvisionError
  bad_os bad_role gateway_os gateway_egress bad_address client_exists address_taken : ProvisionError
  second_gateway gateway_address reserved_address bad_route route_overlaps no_routes :
      ProvisionError
  dns_unreachable bad_device long_device bad_egress : ProvisionError
  client_binary_required tap_required wrong_binary io_failed : ProvisionError
  bad_id : ConfigError → ProvisionError
  bundle_error : ProvisionError → ProvisionError → ProvisionError

abbrev pub linux : Bytes
linux = codes "linux"

abbrev pub windows : Bytes
windows = codes "windows"

abbrev pub client_role : Bytes
client_role = codes "client"

abbrev pub gateway_role : Bytes
gateway_role = codes "gateway"

of_config {ℓ} : {A : Type ℓ} → Result ConfigError A → Result ProvisionError A
of_config (ok a) = ok a
of_config (err e) = err (bad_id e)

role_or_client : Bytes → Bytes
role_or_client [] = client_role
role_or_client (c ∷ s) = c ∷ s

-- The loop over the clients that are there.
check_existing : Bytes → Bytes → Bool → List ProvisionedClient → Result ProvisionError (Unit {0})
check_existing id address is_gateway [] = ok tt
check_existing id address is_gateway (existing ∷ rest) = do
  refuse_if (bytes_eq existing.id id) client_exists
  refuse_if (bytes_eq existing.address address) address_taken
  refuse_if (is_gateway && bytes_eq existing.role gateway_role) second_gateway
  check_existing id address is_gateway rest

pub same_address : Option ℕ → ℕ → Bool
same_address none a = false
same_address (some b) a = a == b

-- The device that is used where none is given.
device_or_default : Bytes → Bytes → Bytes → Bytes
device_or_default os id [] = if bytes_eq os windows then codes "WSN-" ++ id else codes "wsn0"
device_or_default os id (c ∷ s) = c ∷ s

unfoldable pub is_empty {ℓ} : {A : Type ℓ} → List A → Bool
is_empty [] = true
is_empty (x ∷ xs) = false

unfoldable pub prefix_eq : Prefix → Prefix → Bool
prefix_eq a b = (a.addr == b.addr) && (a.bits == b.bits)

-- The checks of the identity, the operating system and the role.
check_options : AddOptions → Bytes → Result ProvisionError (Unit {0})
unfolding of_config
check_options options role = do
  of_config (validate_id options.id)
  refuse_if (not (bytes_eq options.os linux || bytes_eq options.os windows)) bad_os
  refuse_if (not (bytes_eq role client_role || bytes_eq role gateway_role)) bad_role
  refuse_if (bytes_eq role gateway_role && not (bytes_eq options.os linux)) gateway_os
  refuse_if (bytes_eq role gateway_role && is_empty options.egress) gateway_egress

-- The checks of the interface names.
check_device : AddOptions → Bytes → Result ProvisionError (Unit {0})
check_device options device = do
  refuse_if (not (safe_interface_name device)) bad_device
  refuse_if (bytes_eq options.os linux && not (ltb (length device) 16)) long_device
  refuse_if (not (is_empty options.egress) && not (safe_interface_name options.egress)) bad_egress

module _ (f : Formats) where
  -- `usableAddress` in an overlay that did not parse is false.
  normalize_address : Bytes → Option Prefix → Result ProvisionError Prefix
  normalize_address value none = err bad_address
  normalize_address value (some overlay) = do
    address ← or_err (f.parse_addr value) bad_address
    refuse_if (not (usable_address overlay address)) bad_address
    ok (record { addr = address; bits = overlay.bits })

  overlaps_overlay : Prefix → Option Prefix → Bool
  overlaps_overlay prefix none = false
  overlaps_overlay prefix (some overlay) = prefixes_overlap prefix overlay

  normalize_routes : List Bytes → Option Prefix → Result ProvisionError (List Bytes)
  unfolding overlaps_overlay
  normalize_routes [] overlay = ok []
  normalize_routes (value ∷ values) overlay = do
    prefix ← or_err (f.parse_prefix (trim_space value)) bad_route
    refuse_if (not (prefix_eq prefix (masked prefix))) bad_route
    refuse_if (overlaps_overlay prefix overlay) route_overlaps
    routes ← normalize_routes values overlay
    ok (add_text (f.print_prefix prefix) routes)

  route_contains : Option ℕ → Option Prefix → Bool
  route_contains (some resolver) (some prefix) = contains prefix resolver
  route_contains _ _ = false

  pub is_reachable : Option ℕ → List Bytes → Bool
  unfolding route_contains
  is_reachable resolver [] = false
  is_reachable resolver (route ∷ routes) =
      route_contains resolver (f.parse_prefix route) || is_reachable resolver routes

  -- The deployment's gateway address and the role go together.
  check_place : Bool → Option ℕ → ℕ → Result ProvisionError (Unit {0})
  check_place is_gateway gateway address = do
    refuse_if (is_gateway && not (same_address gateway address)) gateway_address
    refuse_if (not is_gateway && same_address gateway address) reserved_address

  check_reach : Bool → State → List Bytes → Result ProvisionError (Unit {0})
  check_reach is_gateway state routes = do
    refuse_if (is_gateway && is_empty routes) no_routes
    refuse_if
        (not (is_empty state.dns)
          && not is_gateway
          && not (is_reachable (f.parse_addr state.dns) routes))
        dns_unreachable

  -- `AddClient` from the check of the identity to the check of the egress; the key and the address
  -- are filled in afterwards.
  pub plan_client : AddOptions → State → Result ProvisionError ProvisionedClient
  plan_client options state = do
    let role = role_or_client options.role
    let is_gateway = bytes_eq role gateway_role
    check_options options role
    let overlay = f.parse_prefix state.overlay
    address ← normalize_address options.address overlay
    check_existing options.id (f.print_prefix address) is_gateway state.clients
    check_place is_gateway (f.parse_addr state.gateway) address.addr
    routes ← normalize_routes options.routes overlay
    check_reach is_gateway state routes
    let device = device_or_default options.os options.id options.device
    check_device options device
    ok (record {
      id = options.id;
      os = options.os;
      role = role;
      address = f.print_prefix address;
      mac = [];
      key = [];
      device = device;
      routes = routes;
      egress = options.egress;
    })
