-- ===== src/Relay/Schedule/Examples.antt =====
-- Two clients that connect, and one of them that a reload leaves out.
use wsn.Relay.Hub.Authorized.{IsAuthorized}
use mathlib.Core.Option
use wsn.Prelude.{
  nat_eq, bytes_key, inr, ℕ, ◌≡◌, refl, true, Option, none, some, List, [], ◌∷◌, Map, ◌*◌, ◌^◌, ◌+◌,
}
use wsn.Protocol.{Bytes, mac_key, source_mac, destination_mac, is_group_mac}
use wsn.Conn.{binary}
use wsn.Relay.Peer.{Peer}
use wsn.Relay.Hub.{AuthorizedClient, list_at, replaced_at, still_authorized, forward, stale_peers}
use wsn.Relay.Session.{ticked, read_step, write_step, is_valid_frame}
use wsn.Relay.Hub.{replaced_by_id, replaced_by_mac, stop_peer}
use wsn.Prelude.{false}
use wsn.Relay.Schedule.{
  stop_replaced, is_doomed, World, Event, look_up, accept, register, recheck, receive, write,
  reload, scan, stop_next, Settings, step, run, init,
}
use wsn.Relay.Schedule.Revocation.{serving-IsAuthorized, active_is_unique}

abbrev settings : Settings
settings = record { max_frame_size = 2048; client_queue_size = 4; idle_timeout = 90000 }

abbrev nobody : ℕ → Peer
nobody _ = record {
  id = [];
  mac = [];
  queue = [];
  capacity = 0;
  stopped = true;
  idle = 0;
  dropped = 0;
  last_drop_report = 0;
}

abbrev mac_of : ℕ → Bytes
mac_of n = 2 ∷ 0 ∷ 0 ∷ 0 ∷ 0 ∷ n ∷ []

abbrev client : ℕ → AuthorizedClient
client n = record { id = n ∷ []; key = []; mac = mac_of n }

abbrev both : Map Bytes AuthorizedClient
both = (97 ∷ [], client 97) ∷ (98 ∷ [], client 98) ∷ []

abbrev only_a : Map Bytes AuthorizedClient
only_a = (97 ∷ [], client 97) ∷ []

-- A frame from `b` to `a`.
abbrev frame : Bytes
frame = 2 ∷ 0 ∷ 0 ∷ 0 ∷ 0 ∷ 97 ∷ 2 ∷ 0 ∷ 0 ∷ 0 ∷ 0 ∷ 98 ∷ 8 ∷ 0 ∷ []

abbrev connect : ℕ → Bytes → List Event → List Event
connect p id es = look_up p id ∷ accept p ∷ register p ∷ recheck p ∷ es

-- Both connect, `b` sends a frame, and a reload leaves `b` out.
abbrev events : List Event
events = connect 0 (97 ∷ []) (
    connect 1 (98 ∷ []) (
      receive 1 (λ _. 7) (binary frame)
      ∷ write 0 (ticked true)
      ∷ reload only_a
      ∷ scan
      ∷ stop_next
      ∷ stop_next
      ∷ []))

abbrev reached_world : Option World → World
reached_world none = init [] nobody
reached_world (some w) = w

abbrev last : World
last = reached_world (run settings events (init both nobody))

last_reached : run settings events (init both nobody) ≡ some last
unfolding run step list_at replaced_at stop_peer read_step write_step Option.bind mac_key
    still_authorized source_mac forward stale_peers is_group_mac destination_mac is_valid_frame
last_reached = refl

test_queue : (last.hub.peers 0).queue ≡ frame ∷ []
unfolding run step list_at replaced_at stop_peer read_step write_step Option.bind mac_key
    still_authorized source_mac forward stale_peers is_group_mac destination_mac is_valid_frame
test_queue = refl

test_stopped : (last.hub.peers 1).stopped ≡ true
unfolding run step list_at replaced_at stop_peer read_step write_step Option.bind mac_key
    still_authorized source_mac forward stale_peers is_group_mac destination_mac is_valid_frame
test_stopped = refl

serving-IsAuthorized_example :
    IsAuthorized last.clients (last.hub.peers 0).id (last.hub.peers 0).mac
unfolding run step list_at replaced_at stop_peer read_step write_step Option.bind mac_key
    still_authorized source_mac forward stale_peers is_group_mac destination_mac is_valid_frame
serving-IsAuthorized_example =
    serving-IsAuthorized settings both nobody events last last_reached 0 refl refl refl refl

-- Both are connected and no reload has begun.
abbrev meeting : List Event
meeting = connect 0 (97 ∷ []) (connect 1 (98 ∷ []) [])

abbrev meeting_world : World
meeting_world = reached_world (run settings meeting (init both nobody))

meeting_reached : run settings meeting (init both nobody) ≡ some meeting_world
unfolding run step list_at replaced_at stop_peer Option.bind mac_key still_authorized
meeting_reached = refl

active_is_unique_example : ◌≡◌ {A = ℕ} 1 1
unfolding run step list_at replaced_at stop_peer Option.bind mac_key still_authorized
active_is_unique_example =
    active_is_unique settings both nobody meeting meeting_world meeting_reached 1 1 refl refl refl
      refl refl refl (inr (2 * 2 ^ 40 + 98, refl, refl))

-- A second connection of `a` is held up after `hub.add` releases the mutex, while a reload that leaves
-- `a` out runs to its end: the first connection serves on until the second one stops it.
abbrev held_up : List Event
held_up =
    connect 0 (97 ∷ [])
      (look_up 1 (97 ∷ []) ∷ accept 1 ∷ register 1 ∷ reload [] ∷ scan ∷ stop_next ∷ stop_next ∷ [])

abbrev held_up_world : World
held_up_world = reached_world (run settings held_up (init both nobody))

test_held_up : (held_up_world.hub.peers 0).stopped ≡ false
unfolding run step list_at replaced_at stop_peer Option.bind mac_key still_authorized stale_peers
    replaced_by_id replaced_by_mac
test_held_up = refl

test_doomed : is_doomed 0 held_up_world.owed ≡ true
unfolding run step list_at replaced_at stop_peer Option.bind mac_key still_authorized stale_peers
    replaced_by_id replaced_by_mac
test_doomed = refl

abbrev stopped_world : World
stopped_world = reached_world (step settings (stop_replaced 1) held_up_world)

test_stop_replaced : (stopped_world.hub.peers 0).stopped ≡ true
unfolding run step list_at replaced_at stop_peer Option.bind mac_key still_authorized stale_peers
    replaced_by_id replaced_by_mac
test_stop_replaced = refl
