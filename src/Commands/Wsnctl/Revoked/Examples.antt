-- ===== src/Commands/Wsnctl/Revoked/Examples.antt =====
-- A deployment with two clients, both connected, whose first is revoked.
use wsn.Relay.Server.Reloads.{IsReachable}
use wsn.Prelude.{◌⊎◌}
use wsn.Relay.Hub.{add, stop_peer}
use wsn.Relay.Server.{Status, reload}
use wsn.Relay.Auth.{authenticate, unknown_client}
use wsn.Commands.Wsnctl.{success}
use wsn.Conn.{binary}
use wsn.Text.{trim_space}
use wsn.Handshake.{fresh}
use wsn.Conn.{Conn}
use wsn.Commands.Wsnctl.Revoked.{signalled, wsnctl-revoke-cuts_off, wsnctl-revoke-spares}
use wsn.Relay.Hub.Registry.{IsRegistry, add-IsRegistry}
use wsn.Relay.Hub.{retain_authorized, stale_peers, still_authorized, AuthorizedClient, Hub, new_hub}
use wsn.Provision.Plan.{ProvisionedClient, State, client_role, linux}
use wsn.Provision.Deployment.{IsDeployment, IsProvisioned}
use wsn.Provision.{load_state, relay_config, revoke_client, revoke_loaded, Disk}
use wsn.Protocol.{Bytes, parse_hello, codes, mac_key}
use wsn.Prelude.{
  err, ◌++◌, [], arith, none, ok, refl, replicate, some, true, ℕ, ◌*◌, ◌+◌, ◌<◌, ◌^◌, ◌∷◌, ◌≡◌,
}
use wsn.Netip.{masked, usable_address}
use wsn.Commands.Wsnctl.{command_of, wsnctl, Around, Flags}
use wsn.Relay.Server.{authorized_clients, watch_reload, Server, serve_loop, running}
use wsn.Formats.Raw.{raw, raw-ReadsBack}
use wsn.Relay.Hub.Examples.{mac_of, empty, hub_of, empty-IsRegistry}
use wsn.Provision.Plan.Examples.{bare_host}
use wsn.Config.{check_clients, decode_key, load_relay, parse_mac, first_byte, validate_id, pos}

abbrev client_named : ℕ → ProvisionedClient
client_named n = record {
  id = n ∷ [];
  os = linux;
  role = client_role;
  address = 10 ∷ 0 ∷ 0 ∷ n ∷ 24 ∷ [];
  mac = mac_of n;
  key = replicate 32 (n + 33);
  device = codes "wsn0";
  routes = [];
  egress = [];
}

client_named-IsProvisioned :
    (n : ℕ) → validate_id (n ∷ []) ≡ ok tt → n < 256 → IsProvisioned raw (client_named n)
unfolding first_byte
client_named-IsProvisioned n valid small = record {
  id_valid = valid;
  key = replicate 32 n;
  key_printed = refl;
  key_size = refl;
  mac = mac_of n;
  mac_printed = refl;
  mac_six = refl;
  mac_bytes = ground arith;
  mac_unicast = refl;
}

abbrev state : State
state = record {
  version = 1;
  public_ip = codes "192.0.2.1";
  overlay = 10 ∷ 0 ∷ 0 ∷ 0 ∷ 24 ∷ [];
  gateway = 10 ∷ 0 ∷ 0 ∷ 1 ∷ [];
  dns = [];
  search = [];
  clients = client_named 48 ∷ client_named 49 ∷ [];
}

state-IsDeployment : IsDeployment raw state
unfolding masked usable_address validate_id
state-IsDeployment = record {
  network = record {
    overlay = record { addr = 10 * 2 ^ 24; bits = 24 };
    overlay_parsed = refl;
    canonical = refl;
    gateway = 10 * 2 ^ 24 + 1;
    gateway_parsed = refl;
    gateway_usable = refl;
  };
  rising = ((refl, tt), (tt, tt));
  addresses_differ = ((refl, tt), (tt, tt));
  one_gateway = ((λ h. refl, tt), (tt, tt));
  provisioned = (
    client_named-IsProvisioned 48 refl (omega arith),
    (client_named-IsProvisioned 49 refl (omega arith), tt),
  );
}

abbrev disk : Disk
disk = record { state_file = some state; relay_file = none; writes = true ∷ true ∷ [] }

abbrev flags : Flags
flags name = some (48 ∷ [])

abbrev around : Around
around = record {
  parse = λ args. some flags;
  host = bare_host;
  init_host = record { exists = true; makes_directory = true; makes_certificates = true };
  key = none;
  mac = none;
  rotates = true;
}

abbrev first : Hub
first = hub_of (add 48 empty)

abbrev pair : Hub
pair = hub_of (add 49 first)

first_added : add 48 empty ≡ some first
unfolding add mac_key new_hub
first_added = refl

pair_added : add 49 first ≡ some pair
unfolding add mac_key new_hub
pair_added = refl

pair-IsRegistry : IsRegistry pair
pair-IsRegistry =
    add-IsRegistry 49 first pair (add-IsRegistry 48 empty first empty-IsRegistry first_added)
      pair_added

abbrev authorized : ℕ → AuthorizedClient
authorized n = record { id = n ∷ []; key = replicate 32 n; mac = mac_of n }

abbrev server : Server
server = record {
  clients = (48 ∷ [], authorized 48) ∷ (49 ∷ [], authorized 49) ∷ [];
  hub = pair;
  handshake = pos 10000;
  idle = pos 90000;
  auth_slots = 2;
  max_frame_size = pos 2048;
  client_queue_size = pos 4;
}

abbrev hello : Bytes
hello = 2 ∷ 0 ∷ 1 ∷ 48 ∷ []

abbrev conn : Conn
conn = fresh (binary hello ∷ [])

abbrev toy_hmac : Bytes → Bytes → Bytes
toy_hmac k message = k ++ message

was_done : (wsnctl raw around (codes "revoke-client" ∷ []) disk).0 ≡ success
unfolding wsnctl command_of revoke_client revoke_loaded
was_done = refl

abbrev relay_told : Status × Server
relay_told = signalled raw (wsnctl raw around (codes "revoke-client" ∷ []) disk).1 server

wsnctl-revoke-cuts_off_example :
    (relay_told.0 ≡ running)
    × ((authenticate toy_hmac relay_told.1.clients none 2048 conn).0 ≡ err unknown_client)
    × ((authenticate toy_hmac relay_told.1.clients none 2048 conn).1.sent ≡ [])
    × (((relay_told.1.hub.peers 48).stopped ≡ true)
        ⊎ ¬ (IsReachable relay_told.1.hub 48 × ((relay_told.1.hub.peers 48).id ≡ 48 ∷ [])))
unfolding wsnctl command_of revoke_client revoke_loaded relay_config serve_loop watch_reload
    load_relay authorized_clients parse_hello check_clients validate_id decode_key parse_mac
    trim_space retain_authorized reload stale_peers still_authorized add mac_key new_hub stop_peer
wsnctl-revoke-cuts_off_example =
    wsnctl-revoke-cuts_off raw raw-ReadsBack around [] flags disk state server refl refl
      state-IsDeployment ((refl, tt), (tt, tt)) pair-IsRegistry was_done toy_hmac none 2048 conn
      hello [] 48 refl refl

wsnctl-revoke-spares_example : relay_told.1.hub.peers 49 ≡ pair.peers 49
unfolding relay_config authorized_clients add mac_key new_hub decode_key parse_mac trim_space
    load_state
wsnctl-revoke-spares_example =
    wsnctl-revoke-spares raw raw-ReadsBack around [] flags disk state server refl refl
      state-IsDeployment ((refl, tt), (tt, tt)) pair-IsRegistry was_done (49 ∷ []) 49 refl refl refl
      (authorized 49, refl, refl)

test_cut_off : (relay_told.1.hub.peers 48).stopped ≡ true
unfolding wsnctl command_of revoke_client revoke_loaded relay_config serve_loop watch_reload
    load_relay authorized_clients parse_hello check_clients validate_id decode_key parse_mac
    trim_space retain_authorized reload stale_peers still_authorized add mac_key new_hub stop_peer
test_cut_off = refl
