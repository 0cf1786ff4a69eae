-- ===== src/Commands/Server/Examples.antt =====
-- A relay that starts from a file without paths, under a multiplexer that is a function.
use wsn.Prelude.{
  if◌then◌else◌, bytes_eq, nat_eq, bytes_key, Bool, true, false, Result, ok, err, ℕ, ◌≡◌, refl,
  Option, none, some, List, [], ◌∷◌, replicate,
}
use wsn.Protocol.{Bytes, codes}
use wsn.Text.{trim_space}
use wsn.Formats.Raw.{raw, raw-ReadsBack}
use wsn.Config.{
  pos, RelayClient, RelayConfig, validate_id, decode_key, parse_mac, check_clients, load_relay,
}
use wsn.Relay.Peer.{Peer}
use wsn.Relay.Http.{Endpoint, ServeMux, IsServeMux, is_plain, get_status, handler}
use wsn.Relay.Server.{cancelled, watch_reload}
use wsn.Commands.Server.{serving, success, fatal, ServerFlags, healthcheck, server_main}
use wsn.Commands.Server.Starts.{endpoint_of, server_main-starts}

abbrev Table : Type 0
Table = Bytes → Option Endpoint

abbrev add_if : Bool → Bytes → Endpoint → Table → Option Endpoint → Option Table
add_if true path e table none =
    some (λ (other : Bytes). if bytes_eq other path then some e else table other)
add_if true path e table (some old) = none
add_if false path e table old = none

abbrev mux : ServeMux
mux = record {
  Mux = Table;
  new = λ path. none;
  handle_func = λ path e table. add_if (is_plain path) path e table (table path);
  find = λ table path. table path;
}

mux-IsServeMux : IsServeMux mux
mux-IsServeMux = record {
  empty = λ path. refl;
  registers = λ path e table plain free. (
    λ (other : Bytes). if bytes_eq other path then some e else table other,
    record { registered = rw plain (rw free refl); finds = λ other. refl },
  );
}

abbrev one : RelayClient
one = record { id = codes "one"; key = replicate 32 40; mac = 2 ∷ 0 ∷ 0 ∷ 0 ∷ 0 ∷ 1 ∷ [] }

abbrev file : RelayConfig
file = record {
  listen = [];
  path = [];
  health_path = [];
  max_frame_size = pos 0;
  client_queue_size = pos 0;
  handshake_timeout_ms = pos 0;
  idle_timeout_ms = pos 0;
  max_pending_handshakes = pos 0;
  clients = one ∷ [];
}

abbrev result_or : {E : Type 0} {A : Type 0} → A → Result E A → A
result_or a (ok b) = b
result_or a (err e) = a

abbrev cfg : RelayConfig
cfg = result_or file (load_relay raw file)

was_loaded : load_relay raw file ≡ ok cfg
unfolding load_relay check_clients validate_id decode_key parse_mac trim_space
was_loaded = refl

path-plain : is_plain cfg.path ≡ true
unfolding is_plain load_relay check_clients validate_id decode_key parse_mac trim_space
path-plain = refl

health_path-plain : is_plain cfg.health_path ≡ true
unfolding is_plain load_relay check_clients validate_id decode_key parse_mac trim_space
health_path-plain = refl

abbrev peers : ℕ → Peer
peers n = record {
  id = [];
  mac = [];
  queue = [];
  capacity = 4;
  stopped = false;
  idle = 90000;
  dropped = 0;
  last_drop_report = 0;
}

abbrev flags : ServerFlags
flags = record { config = codes "server.json"; url = codes "http://127.0.0.1:8080/healthz" }

abbrev get : Bytes → Result (Unit {0}) ℕ
get url = err tt

abbrev read : Bytes → Option RelayConfig
read path = some file

abbrev path_of : Bytes → Bytes
path_of url = codes "/healthz"

asked : path_of flags.url ≡ cfg.health_path
unfolding load_relay check_clients validate_id decode_key parse_mac trim_space
asked = refl

server_main-starts_example :
    (made : Table) × (handler mux cfg ≡ some made)
    × ((path : Bytes) → made path ≡ endpoint_of cfg path)
    × ((files : List (Option RelayConfig))
        → server_main raw mux peers get read [] flags (watch_reload raw files) ≡ serving)
    × (server_main raw mux peers {E = Unit {0}}
          (λ url. get_status (ok 400) (made (path_of url)))
          read
          (codes "healthcheck" ∷ [])
          flags
          []
        ≡ success)
server_main-starts_example =
    server_main-starts raw raw-ReadsBack mux mux-IsServeMux peers get read (ok 400) path_of flags
      file cfg refl was_loaded path-plain health_path-plain asked

-- No file, no server.
test_no_file : server_main raw mux peers get (λ path. none) [] flags (cancelled true ∷ []) ≡ fatal
unfolding server_main
test_no_file = refl

-- A relay that does not answer is not healthy.
test_no_answer : server_main raw mux peers get read (codes "healthcheck" ∷ []) flags [] ≡ fatal
unfolding server_main healthcheck
test_no_answer = refl
