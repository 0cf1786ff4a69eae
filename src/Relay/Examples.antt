-- ===== src/Relay/Examples.antt =====
-- Two places for handshakes, a configuration that is read twice, and one connection's loops.
use wsn.Prelude.{
  nat_eq, bytes_key, ℕ, ◌≡◌, refl, true, false, none, some, ok, List, [], ◌∷◌, replicate, Bool,
  Option,
}
use wsn.Protocol.{Bytes, codes}
use wsn.Text.{trim_space}
use wsn.Formats.Raw.{raw, raw-ReadsBack}
use wsn.Config.{
  RelayClient, RelayConfig, pos, validate_id, load_relay, check_clients, decode_key, parse_mac,
}
use wsn.Conn.{binary, text}
use wsn.Relay.Peer.{Peer}
use wsn.Relay.Hub.{Hub, new_hub}
use wsn.Relay.Hub.Registry.{IsRegistry, new_hub-IsRegistry}
use wsn.Relay.Session.{read_loop, read_step, Wakeup, frame_ready, ticked}
use wsn.Relay.Session.Authentic.{IsAuthentic, read_step-IsAuthentic, read_loop-IsRegistry}
use wsn.Relay.Slots.{
  Slots, SlotEvent, arrive, authenticated, pending, serving, returned, run_slots, fresh_slots,
}
use wsn.Prelude.{false}
use wsn.Relay.Server.{WatchEvent, sighup, ready, taken_files}
use wsn.Relay.Server.{Server, serve_loop, watch_reload, running}
use wsn.Relay.Server.Reloads.{watch_reload-Serves, Serves, last_loaded}

abbrev slot_events : List SlotEvent
slot_events = arrive ∷ arrive ∷ arrive ∷ authenticated 0 ∷ []

abbrev slots_or : Slots → Option Slots → Slots
slots_or s none = s
slots_or s (some s') = s'

abbrev slots : Slots
slots = slots_or (fresh_slots 2) (run_slots slot_events (fresh_slots 2))

test_slots : slots.handlers ≡ serving ∷ pending ∷ returned ∷ []
unfolding run_slots
test_slots = refl

abbrev one : RelayClient
one = record { id = codes "one"; key = replicate 32 40; mac = 2 ∷ 0 ∷ 0 ∷ 0 ∷ 0 ∷ 1 ∷ [] }

abbrev written : RelayConfig
written = record {
  listen = codes ":1";
  path = codes "/wsn";
  health_path = codes "/healthz";
  max_frame_size = pos 2048;
  client_queue_size = pos 4;
  handshake_timeout_ms = pos 10000;
  idle_timeout_ms = pos 90000;
  max_pending_handshakes = pos 2;
  clients = one ∷ [];
}

was_loaded : load_relay raw written ≡ ok written
unfolding load_relay check_clients validate_id decode_key parse_mac trim_space
was_loaded = refl

abbrev peer : ℕ → Peer
peer n = record {
  id = n ∷ [];
  mac = 2 ∷ 0 ∷ 0 ∷ 0 ∷ 0 ∷ n ∷ [];
  queue = (7 ∷ []) ∷ (8 ∷ []) ∷ [];
  capacity = 4;
  stopped = false;
  idle = 90000;
  dropped = 0;
  last_drop_report = 0;
}

abbrev server : Server
server = record {
  clients = [];
  hub = new_hub peer;
  handshake = pos 10000;
  idle = pos 90000;
  auth_slots = 2;
  max_frame_size = pos 2048;
  client_queue_size = pos 4;
}

-- Two SIGHUPs that the loop takes as one, and one whose file is not there.
abbrev signals : List WatchEvent
signals = sighup ∷ sighup ∷ ready (some written) ∷ ready none ∷ sighup ∷ ready none ∷ []

watch_reload-Serves_example :
    ((serve_loop raw (watch_reload raw (taken_files false signals)) server).0 ≡ running)
    × Serves raw server
        (serve_loop raw (watch_reload raw (taken_files false signals)) server).1
        (last_loaded raw (taken_files false signals))
watch_reload-Serves_example =
    watch_reload-Serves raw raw-ReadsBack signals server (new_hub-IsRegistry peer)

test_signals : taken_files false signals ≡ some written ∷ none ∷ []
unfolding taken_files
test_signals = refl

abbrev frame : Bytes
frame = 255 ∷ 0 ∷ 0 ∷ 0 ∷ 0 ∷ 0 ∷ 2 ∷ 0 ∷ 0 ∷ 0 ∷ 0 ∷ 3 ∷ 8 ∷ 0 ∷ []

read_step-IsAuthentic_example :
    (r : Hub × Bool) × (read_step 2048 3 (λ _. 5) (binary frame) (new_hub peer) ≡ some r)
    × IsAuthentic 2048 3 (λ _. 5) (binary frame) (new_hub peer) r
read_step-IsAuthentic_example =
    read_step-IsAuthentic 2048 3 (λ _. 5) (binary frame) (new_hub peer) (new_hub-IsRegistry peer)

read_loop-IsRegistry_example :
    (h' : Hub) × (read_loop 2048 3 ((λ _. 5, binary frame) ∷ (λ _. 6, text []) ∷ []) (new_hub peer)
      ≡ some h')
    × IsRegistry h'
read_loop-IsRegistry_example =
    read_loop-IsRegistry 2048 3 ((λ _. 5, binary frame) ∷ (λ _. 6, text []) ∷ []) (new_hub peer)
      (new_hub-IsRegistry peer)

abbrev wakeups : List Wakeup
wakeups = ticked true ∷ frame_ready true ∷ frame_ready false ∷ []
