-- ===== src/Relay/Slots.antt =====
-- The channel `authSlots` of `handleWebSocket` of internal/relay/relay.go, which bounds the handshakes
-- that are pending. Every request runs the handler in a goroutine of its own; an event is one handler
-- passing one of the points where it takes or gives back a place. An event that is not enabled, or
-- that would block for ever, gives `none`.
pub mod Bounded
use wsn.Prelude.{
  ltb, ◌==◌, if◌then◌else◌, get_elem?, set, length, ℕ, zero, suc, ◌+◌, ◌-◌, Bool, true, false, ◌++◌,
  Option, none, some, List, [], ◌∷◌,
}

-- A handler before its handshake has ended, while it serves (`authSlotReleased` is true), and
-- after it returned.
pub data Handler : Type 0 where
  pending serving returned : Handler

pub data Answer : Type 0 where
  proceeds service_unavailable : Answer

-- `occupied` is the number of values in the channel.
pub record Slots : Type 0 where
  pub capacity : ℕ
  pub occupied : ℕ
  pub handlers : List Handler

-- A request arrives; the upgrade, the subprotocol test or `authenticate` fails; `authenticate`
-- succeeds; the session ends.
pub data SlotEvent : Type 0 where
  arrive : SlotEvent
  refused authenticated finished : ℕ → SlotEvent

-- `<-s.authSlots`, which blocks on an empty channel.
abbrev pub receive_slot : Slots → Option Slots
receive_slot s = if ltb 0 s.occupied then some (record s { occupied = s.occupied - 1 }) else none

abbrev pub set_handler : ℕ → Handler → Slots → Slots
set_handler i h s = record s { handlers = set s.handlers i h }

abbrev then_set : ℕ → Handler → Option Slots → Option Slots
then_set i h none = none
then_set i h (some s) = some (set_handler i h s)

-- The `select` at the start of the handler.
unfoldable pub arrive_step : Slots → Slots × Answer
arrive_step s =
    if ltb s.occupied s.capacity
    then (record s { occupied = s.occupied + 1; handlers = s.handlers ++ pending ∷ [] }, proceeds)
    else (record s { handlers = s.handlers ++ returned ∷ [] }, service_unavailable)

-- The deferred function runs where the handler returns: it gives the place back unless
-- `authSlotReleased` is set.
abbrev refuse_at : ℕ → Option Handler → Slots → Option Slots
refuse_at i (some pending) s = then_set i returned (receive_slot s)
refuse_at i _ s = none

abbrev authenticate_at : ℕ → Option Handler → Slots → Option Slots
authenticate_at i (some pending) s = then_set i serving (receive_slot s)
authenticate_at i _ s = none

abbrev finish_at : ℕ → Option Handler → Slots → Option Slots
finish_at i (some serving) s = some (set_handler i returned s)
finish_at i _ s = none

unfoldable pub slot_step : SlotEvent → Slots → Option Slots
unfolding arrive_step
slot_step arrive s = some (arrive_step s).0
slot_step (refused i) s = refuse_at i (get_elem? s.handlers i) s
slot_step (authenticated i) s = authenticate_at i (get_elem? s.handlers i) s
slot_step (finished i) s = finish_at i (get_elem? s.handlers i) s

abbrev and_run : (Slots → Option Slots) → Option Slots → Option Slots
and_run rest none = none
and_run rest (some s) = rest s

unfoldable pub run_slots : List SlotEvent → Slots → Option Slots
unfolding slot_step
run_slots [] s = some s
run_slots (e ∷ es) s = and_run (run_slots es) (slot_step e s)

-- The channel as `New` makes it.
abbrev pub fresh_slots : ℕ → Slots
fresh_slots capacity = record { capacity = capacity; occupied = 0; handlers = [] }
