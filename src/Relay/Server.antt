-- ===== src/Relay/Server.antt =====
-- `authorizedClients`, `New`, `Reload` and `ListenAndServe` of internal/relay/relay.go, and
-- `watchReload` of cmd/wsn-server/main.go, where one reload runs with no other handler in between;
-- Relay/Schedule.antt has the interleavings. Durations are in nanoseconds.
pub mod Table
pub mod Reloads
pub mod Spared
use wsn.Prelude.{
  if◌then◌else◌, nat_eq, bytes_key, Map, insert, Result, ◌>>=◌, ok, err, ℕ, ◌+◌, ◌-◌, ◌*◌, Bool,
  List, [], ◌∷◌, Option, none, some, true, false,
}
use wsn.Protocol.{Bytes}
use wsn.Formats.{Formats}
use wsn.Config.{
  ConfigError, ℤ, pos, negsuc, RelayClient, RelayConfig, or_default, decode_key, parse_mac,
  load_relay,
}
use wsn.Relay.Peer.{Peer}
use wsn.Relay.Hub.{Hub, AuthorizedClient, new_hub, retain_authorized}

abbrev pub Clients : Type 0
Clients = Map Bytes AuthorizedClient

-- What `New` fixes at startup, and what `Reload` changes: the table and the hub.
pub record Server : Type 0 where
  pub clients : Clients
  pub hub : Hub
  pub handshake : ℤ
  pub idle : ℤ
  pub auth_slots : ℕ
  pub max_frame_size : ℤ
  pub client_queue_size : ℤ

-- `panics` is `make(chan, n)` for a negative `n`.
pub data ServerError : Type 0 where
  of_config : ConfigError → ServerError
  panics : ServerError

-- `time.Duration(ms) * time.Millisecond`.
abbrev pub milliseconds : ℤ → ℤ
milliseconds (pos n) = pos (n * 1_000_000)
milliseconds (negsuc n) = negsuc ((n + 1) * 1_000_000 - 1)

abbrev pub channel_size : ℤ → Result ServerError ℕ
channel_size (pos n) = ok n
channel_size (negsuc n) = err panics

abbrev pub of_config_error {ℓ} : {A : Type ℓ} → Result ConfigError A → Result ServerError A
of_config_error (ok a) = ok a
of_config_error (err e) = err (of_config e)

-- What the `select` of `ListenAndServe` finds: the listener's end, an updated configuration, or a
-- cancelled context with what `Shutdown` returns.
pub data LoopEvent : Type 0 where
  listener_closed listener_failed : LoopEvent
  updated : RelayConfig → LoopEvent
  cancelled : Bool → LoopEvent

-- Whether `ListenAndServe` returned, and without an error.
pub data Status : Type 0 where
  running returned_nil returned_error : Status

-- At the channel of one place of `watchReload`: a SIGHUP comes, which joins one that waits there; or the
-- loop is ready for a signal, and finds this configuration file if it takes one.
pub data WatchEvent : Type 0 where
  sighup : WatchEvent
  ready : Option RelayConfig → WatchEvent

-- The files that the loop reads, where a signal waits or not.
unfoldable pub taken_files : Bool → List WatchEvent → List (Option RelayConfig)
taken_files waiting [] = []
taken_files waiting (sighup ∷ es) = taken_files true es
taken_files true (ready file ∷ es) = file ∷ taken_files false es
taken_files false (ready file ∷ es) = taken_files false es

module _ (f : Formats) where
  -- The loop of `authorizedClients`, from the table so far.
  pub authorized_from : Clients → List RelayClient → Result ConfigError Clients
  authorized_from clients [] = ok clients
  authorized_from clients (item ∷ rest) = do
    key ← decode_key f item.key
    mac ← parse_mac f item.mac
    authorized_from (insert item.id (record { id = item.id; key = key; mac = mac }) clients) rest

  unfoldable pub authorized_clients : RelayConfig → Result ConfigError Clients
  unfolding authorized_from
  authorized_clients cfg = authorized_from [] cfg.clients

  -- `peers` is the memory in which the peers will be made.
  unfoldable pub new_server : (ℕ → Peer) → RelayConfig → Result ServerError Server
  unfolding new_hub
  new_server peers cfg = do
    clients ← of_config_error (authorized_clients cfg)
    auth_slots ← channel_size (or_default cfg.max_pending_handshakes 32)
    ok (record {
      clients = clients;
      hub = new_hub peers;
      handshake = milliseconds cfg.handshake_timeout_ms;
      idle = milliseconds cfg.idle_timeout_ms;
      auth_slots = auth_slots;
      max_frame_size = cfg.max_frame_size;
      client_queue_size = cfg.client_queue_size;
    })

  reload_to : Server → Result ConfigError Clients → Result ConfigError ℕ × Server
  unfolding retain_authorized
  reload_to s (err e) = (err e, s)
  reload_to s (ok clients) =
      let (hub, disconnected) = retain_authorized clients s.hub in
      (ok disconnected, record s { clients = clients; hub = hub })

  -- The number of peers that are disconnected is what the source logs.
  unfoldable pub reload : RelayConfig → Server → Result ConfigError ℕ × Server
  unfolding reload_to
  reload cfg s = reload_to s (authorized_clients cfg)

  unfoldable pub serve_loop : List LoopEvent → Server → Status × Server
  unfolding reload
  serve_loop [] s = (running, s)
  serve_loop (listener_closed ∷ es) s = (returned_nil, s)
  serve_loop (listener_failed ∷ es) s = (returned_error, s)
  serve_loop (updated cfg ∷ es) s = serve_loop es (reload cfg s).1
  serve_loop (cancelled clean ∷ es) s = (if clean then returned_nil else returned_error, s)

  offered : Result ConfigError RelayConfig → List LoopEvent → List LoopEvent
  offered (ok cfg) es = updated cfg ∷ es
  offered (err e) es = es

  -- `watchReload`: for each signal that it takes from its channel, what `loadJSON` makes of the
  -- configuration file as it is then, `none` if it cannot. A file that `LoadRelay` refuses is skipped.
  unfoldable pub watch_reload : List (Option RelayConfig) → List LoopEvent
  unfolding offered load_relay
  watch_reload [] = []
  watch_reload (none ∷ files) = watch_reload files
  watch_reload (some cfg ∷ files) = offered (load_relay f cfg) (watch_reload files)
