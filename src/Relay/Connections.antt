-- ===== src/Relay/Connections.antt =====
-- `handleWebSocket` of internal/relay/relay.go with all that it shares: the places of pending handshakes
-- of Relay/Slots.antt and the sessions and reloads of Relay/Schedule.antt, one machine. A handler is
-- the number of its request.
pub mod Agree
pub mod Coupled
mod Examples
use mathlib.Core.Option
use wsn.Relay.Peer.{Peer}
use wsn.Relay.Hub.{AuthorizedClient}
use wsn.Protocol.{Bytes}
use wsn.Prelude.{
  Bool, List, Map, Option, [], false, get_elem?, if◌then◌else◌, none, some, true, ℕ, ◌∷◌,
}
use wsn.Relay.Slots.{
  refused, pending, finished, arrive_step, authenticated, fresh_slots, slot_step, Slots, Handler,
}
use wsn.Relay.Schedule.{
  closed, Settings, init, Event, accept, leave, look_up, set_phase, step, World,
}

pub record Relay : Type 0 where
  pub world : World
  pub slots : Slots

-- A request arrives. The upgrade, the subprotocol test or `authenticate` fails. Everything else is an
-- event of the sessions or of a reload.
pub data RelayEvent : Type 0 where
  arrives : RelayEvent
  refuses : ℕ → RelayEvent
  session : Event → RelayEvent

abbrev holds_place : Option Handler → Bool
holds_place (some pending) = true
holds_place _ = false

-- An event of a session, with what it does to the places: `authenticate` looks its client up while the
-- handler holds a place, gives the place back where it succeeds, and the handler returns where it
-- leaves the hub.
abbrev places : Event → Slots → Option Slots
places (look_up p id) slots = if holds_place (get_elem? slots.handlers p) then some slots else none
places (accept p) slots = slot_step (authenticated p) slots
places (leave p) slots = slot_step (finished p) slots
places e slots = some slots

abbrev both : Option World → Option Slots → Option Relay
both (some world) (some slots) = some (record { world = world; slots = slots })
both _ _ = none

unfoldable pub relay_step : Settings → RelayEvent → Relay → Option Relay
relay_step s arrives r = some (record r { slots = (arrive_step r.slots).0 })
relay_step s (refuses p) r =
    both (some (set_phase p closed r.world)) (slot_step (refused p) r.slots)
relay_step s (session e) r = both (step s e r.world) (places e r.slots)

unfoldable pub run_relay : Settings → List RelayEvent → Relay → Option Relay
unfolding relay_step
run_relay s [] r = some r
run_relay s (e ∷ es) r = Option.bind (relay_step s e r) (run_relay s es)

-- The relay as `New` leaves it.
abbrev pub new_relay : Map Bytes AuthorizedClient → (ℕ → Peer) → ℕ → Relay
new_relay clients peers capacity = record {
  world = init clients peers;
  slots = fresh_slots capacity;
}
