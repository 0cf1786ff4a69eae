-- ===== src/Relay/Schedule.antt =====
-- Sessions and reloads of internal/relay/relay.go as they interleave. Every connection runs
-- `handleWebSocket` in a goroutine of its own, and `Reload` runs in the server's loop; an event is
-- what one of them does up to the next point where another may run. An event that is not enabled, or
-- that panics, gives `none`.
pub mod Invariant
pub mod Fading
pub mod Safe
pub mod Settled
pub mod Revocation
mod Examples
use mathlib.Core.Option
use wsn.Prelude.{
  ltb, leb, ◌==◌, if◌then◌else◌, ltb→lt, leb→le, ==_iff, Bool-cases, Option-cases, bytes_eq,
  bytes_eq_iff, bytes_eq_refl, among, Eq, nat_eq, bytes_key, length, take, drop, Elem,
  length-append, take-append-drop, length-take, length-drop, All, All-append, Map, lookup, insert,
  remove, Distinct, Entry, lookup-insert, lookup-remove, insert-Distinct, remove-Distinct,
  Entry-of_lookup, lookup-of_Entry, Result, refuse_if, or_err, Result-cases, ok, err, ℕ, zero, suc,
  ◌+◌, ◌-◌, ◌*◌, ◌/◌, ◌%◌, ◌^◌, ◌≤◌, ◌<◌, ◌≡◌, refl, sym, ap, subst, ◌∙◌, ◌≢◌, ◌↔◌, ◌⊎◌, inl, inr,
  Bool, true, false, not, ◌&&◌, ◌||◌, Option, none, some, List, [], ◌∷◌, ◌++◌, map, append_assoc,
  append-nil, arith,
}
use wsn.Protocol.{Bytes, mac_key}
use wsn.Conn.{Incoming}
use wsn.Relay.Peer.{Peer}
use wsn.Relay.Hub.{
  Hub, AuthorizedClient, update, list_at, replaced_at, remove_peer, stop_peer, still_authorized,
  stale_peers,
}
use wsn.Relay.Session.{Wakeup, read_step, write_step}

-- Where the handler of a connection stands: it has found its client in the table, has finished the
-- handshake and made its peer, has released the mutex in `hub.add`, has passed the check that follows,
-- is about to call `hub.remove`, has returned.
pub data Phase : Type 0 where
  idle accepted registered serving leaving closed : Phase
  looked_up : AuthorizedClient → Phase

-- Where `Reload` stands: the table is swapped; `retainAuthorized` has these peers still to stop.
pub data Reload : Type 0 where
  quiet swapped : Reload
  stopping : List ℕ → Reload

-- `owed` are the calls of `stop` that handlers in `hub.add` have yet to make, after the mutex is
-- released: the handler and the peer that its own replaced.
pub record World : Type 0 where
  pub clients : Map Bytes AuthorizedClient
  pub hub : Hub
  pub phase : ℕ → Phase
  pub reloading : Reload
  pub owed : List (ℕ × ℕ)

pub data Event : Type 0 where
  look_up : ℕ → Bytes → Event
  accept register stop_replaced recheck leave : ℕ → Event
  write : ℕ → Wakeup → Event
  receive : ℕ → (ℕ → ℕ) → Incoming → Event
  reload : Map Bytes AuthorizedClient → Event
  scan stop_next : Event

abbrev pub is_idle : Phase → Bool
is_idle idle = true
is_idle _ = false

abbrev pub client_of : Phase → Option AuthorizedClient
client_of (looked_up client) = some client
client_of _ = none

abbrev pub is_accepted : Phase → Bool
is_accepted accepted = true
is_accepted _ = false

abbrev pub is_registered : Phase → Bool
is_registered registered = true
is_registered _ = false

abbrev pub is_serving : Phase → Bool
is_serving serving = true
is_serving _ = false

abbrev pub is_leaving : Phase → Bool
is_leaving leaving = true
is_leaving _ = false

abbrev pub is_quiet : Reload → Bool
is_quiet quiet = true
is_quiet _ = false

abbrev pub is_swapped : Reload → Bool
is_swapped swapped = true
is_swapped _ = false

-- The settings of the relay that a session reads.
pub record Settings : Type 0 where
  pub max_frame_size : ℕ
  pub client_queue_size : ℕ
  pub idle_timeout : ℕ

abbrev pub new_peer : Settings → AuthorizedClient → Peer
new_peer s client = record {
  id = client.id;
  mac = client.mac;
  queue = [];
  capacity = s.client_queue_size;
  stopped = false;
  idle = s.idle_timeout;
  dropped = 0;
  last_drop_report = 0;
}

abbrev pub set_phase : ℕ → Phase → World → World
set_phase p phase w = record w { phase = update w.phase p phase }

abbrev pub set_hub : World → Hub → World
set_hub w hub = record w { hub = hub }

abbrev pub accept_at : Settings → ℕ → World → AuthorizedClient → World
accept_at s p w client =
    set_phase p accepted
      (set_hub w (record w.hub { peers = update w.hub.peers p (new_peer s client) }))

-- A round of `writeLoop`, which runs beside the handler; what it writes leaves the model.
abbrev pub write_at : ℕ → Wakeup → Hub → Hub
write_at p wakeup h = record h { peers = update h.peers p (write_step wakeup (h.peers p)).0 }

abbrev pub serves_or_leaves : Bool → Phase
serves_or_leaves true = serving
serves_or_leaves false = leaving

abbrev pub is_listed : World → ℕ → Bool
is_listed w p = still_authorized (lookup (w.hub.peers p).id w.clients) (w.hub.peers p).mac

abbrev pub stop_head : World → Reload → Option World
stop_head w quiet = none
stop_head w swapped = none
stop_head w (stopping []) = some (record w { reloading = quiet })
stop_head w (stopping (p ∷ ps)) =
    some (record w { hub = stop_peer p w.hub; reloading = stopping ps })

abbrev pub owe : ℕ → List ℕ → List (ℕ × ℕ) → List (ℕ × ℕ)
owe p [] owed = owed
owe p (q ∷ qs) owed = (p, q) ∷ owe p qs owed

-- `hub.add` up to the release of the mutex.
abbrev pub register_at : ℕ → World → ℕ → World
register_at p w key = record (set_phase p registered (set_hub w (list_at key p w.hub))) {
  owed = owe p (replaced_at key p w.hub) w.owed;
}

-- The next call of `stop` that a handler makes, and the others.
abbrev pub next_owed : ℕ → List (ℕ × ℕ) → Option (ℕ × List (ℕ × ℕ))
next_owed p [] = none
next_owed p ((r, q) ∷ owed) =
    let more = next_owed p owed in
    if r == p
    then some (q, owed)
    else Option.map (λ (m : ℕ × List (ℕ × ℕ)). (m.0, (r, q) ∷ m.1)) more

abbrev pub owes : ℕ → List (ℕ × ℕ) → Bool
owes p [] = false
owes p ((r, q) ∷ owed) = (r == p) || owes p owed

-- Some handler has yet to stop the peer.
abbrev pub is_doomed : ℕ → List (ℕ × ℕ) → Bool
is_doomed q [] = false
is_doomed q ((r, a) ∷ owed) = (a == q) || is_doomed q owed

abbrev pub stop_owed : World → ℕ × List (ℕ × ℕ) → World
stop_owed w (q, owed) = record w { hub = stop_peer q w.hub; owed = owed }

unfoldable pub step : Settings → Event → World → Option World
step s (look_up p id) w =
    if is_idle (w.phase p)
    then Option.map (λ client. set_phase p (looked_up client) w) (lookup id w.clients)
    else none
step s (accept p) w = Option.map (accept_at s p w) (client_of (w.phase p))
step s (register p) w =
    if is_accepted (w.phase p)
    then Option.map (register_at p w) (mac_key (w.hub.peers p).mac)
    else none
step s (stop_replaced p) w = Option.map (stop_owed w) (next_owed p w.owed)
step s (recheck p) w =
    if is_registered (w.phase p) && not (owes p w.owed)
    then some (set_phase p (serves_or_leaves (is_listed w p)) w)
    else none
step s (receive p times message) w =
    if is_serving (w.phase p)
    then Option.map (λ (r : Hub × Bool). set_phase p (serves_or_leaves r.1) (set_hub w r.0))
        (read_step s.max_frame_size p times message w.hub)
    else none
step s (write p wakeup) w =
    if is_serving (w.phase p) || is_leaving (w.phase p)
    then some (set_hub w (write_at p wakeup w.hub))
    else none
step s (leave p) w =
    if is_leaving (w.phase p)
    then Option.map (λ hub. set_phase p closed (set_hub w (stop_peer p hub))) (remove_peer p w.hub)
    else none
step s (reload clients) w =
    if is_quiet w.reloading
    then some (record w { clients = clients; reloading = swapped })
    else none
step s scan w =
    if is_swapped w.reloading
    then some (record w { reloading = stopping (stale_peers w.clients w.hub.peers w.hub.by_id) })
    else none
step s stop_next w = stop_head w w.reloading

unfoldable pub run : Settings → List Event → World → Option World
run s [] w = some w
run s (e ∷ es) w = Option.bind (step s e w) (run s es)

-- The relay as `New` leaves it: nobody is connected.
abbrev pub init : Map Bytes AuthorizedClient → (ℕ → Peer) → World
init clients peers = record {
  clients = clients;
  hub = record { by_id = []; by_mac = []; peers = peers };
  phase = λ _. idle;
  reloading = quiet;
  owed = [];
}
