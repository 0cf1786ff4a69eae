-- ===== src/Relay/Connections/Examples.antt =====
-- Three requests on a relay with two places: one is refused, one serves, one is in its handshake.
use wsn.Relay.Slots.Bounded.{count_pending}
use wsn.Relay.Peer.{Peer}
use wsn.Relay.Hub.Authorized.{IsAuthorized}
use wsn.Relay.Connections.Coupled.{connections_coupled, is_undisturbed}
use wsn.Relay.Connections.{Relay, RelayEvent, arrives, new_relay, refuses, run_relay, session}
use wsn.Protocol.{Bytes, mac_key}
use wsn.Relay.Hub.{AuthorizedClient, still_authorized, list_at, replaced_at}
use wsn.Prelude.{
  ◌↔◌, List, Map, Option, [], get_elem?, none, refl, some, true, ℕ, ◌∷◌, ◌≡◌, ◌≤◌, All, ◌⊎◌, false,
  nat_eq, bytes_key,
}
use mathlib.Core.Option
use wsn.Relay.Schedule.{step, Settings, look_up, accept, register, recheck}
use wsn.Relay.Slots.{arrive_step, service_unavailable, slot_step, serving}

abbrev settings : Settings
settings = record { max_frame_size = 2048; client_queue_size = 4; idle_timeout = 90000 }

abbrev nobody : ℕ → Peer
nobody _ = record {
  id = [];
  mac = [];
  queue = [];
  capacity = 0;
  stopped = true;
  idle = 0;
  dropped = 0;
  last_drop_report = 0;
}

abbrev clients : Map Bytes AuthorizedClient
clients = (97 ∷ [], record { id = 97 ∷ []; key = []; mac = 2 ∷ 0 ∷ 0 ∷ 0 ∷ 0 ∷ 97 ∷ [] }) ∷ []

abbrev events : List RelayEvent
events =
    arrives
    ∷ refuses 0
    ∷ arrives
    ∷ arrives
    ∷ session (look_up 1 (97 ∷ []))
    ∷ session (accept 1)
    ∷ session (register 1)
    ∷ session (recheck 1)
    ∷ []

abbrev reached : Option Relay → Relay
reached none = new_relay [] nobody 0
reached (some r) = r

abbrev last : Relay
last = reached (run_relay settings events (new_relay clients nobody 2))

last_reached : run_relay settings events (new_relay clients nobody 2) ≡ some last
unfolding run_relay Option.bind slot_step step list_at replaced_at mac_key still_authorized
last_reached = refl

test_occupied : last.slots.occupied ≡ 1
unfolding run_relay Option.bind slot_step step list_at replaced_at mac_key still_authorized
test_occupied = refl

connections_coupled_example :
    (count_pending last.slots.handlers ≤ 2)
    × (last.slots.occupied ≡ count_pending last.slots.handlers)
    × (((arrive_step last.slots).1 ≡ service_unavailable) ↔ (count_pending last.slots.handlers ≡ 2))
    × All
        (λ (e : Bytes × ℕ).
          (get_elem? last.slots.handlers e.1 ≡ some serving)
          × ((is_undisturbed last.world e.1 ≡ false)
              ⊎ IsAuthorized last.world.clients
                  (last.world.hub.peers e.1).id
                  (last.world.hub.peers e.1).mac))
        last.world.hub.by_id
connections_coupled_example = connections_coupled 2 settings clients nobody events last last_reached

test_hub : last.world.hub.by_id ≡ (97 ∷ [], 1) ∷ []
unfolding run_relay Option.bind slot_step step list_at replaced_at mac_key still_authorized
test_hub = refl

test_undisturbed : is_undisturbed last.world 1 ≡ true
unfolding run_relay Option.bind slot_step step list_at replaced_at mac_key still_authorized
test_undisturbed = refl
