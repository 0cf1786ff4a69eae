-- ===== src/Relay/Session.antt =====
-- `readLoop` and `writeLoop` of internal/relay/relay.go. `none` is a panic.
pub mod Authentic
pub mod Writer
use mathlib.Core.Option
use wsn.Prelude.{
  ltb, leb, ◌==◌, if◌then◌else◌, ltb→lt, leb→le, ==_iff, Bool-cases, Option-cases, bytes_eq,
  bytes_eq_iff, bytes_eq_refl, among, Eq, nat_eq, bytes_key, length, take, drop, Elem,
  length-append, take-append-drop, length-take, length-drop, All, All-append, Map, lookup, insert,
  remove, Distinct, Entry, lookup-insert, lookup-remove, insert-Distinct, remove-Distinct,
  Entry-of_lookup, lookup-of_Entry, Result, refuse_if, or_err, Result-cases, ok, err, ℕ, zero, suc,
  ◌+◌, ◌-◌, ◌*◌, ◌/◌, ◌%◌, ◌^◌, ◌≤◌, ◌<◌, ◌≡◌, refl, sym, ap, subst, ◌∙◌, ◌≢◌, ◌↔◌, ◌⊎◌, inl, inr,
  Bool, true, false, not, ◌&&◌, ◌||◌, Option, none, some, List, [], ◌∷◌, ◌++◌, map, append_assoc,
  append-nil, arith,
}
use wsn.Protocol.{Bytes, minimum_frame_size, source_mac}
use wsn.Conn.{Incoming, payload_of}
use wsn.Relay.Peer.{Peer}
use wsn.Relay.Hub.{Hub, forward, stop_peer, update}

-- The two tests that a frame has to pass.
unfoldable pub is_valid_frame : ℕ → Bytes → Bytes → Bool
is_valid_frame max_frame_size mac frame =
    not (ltb (length frame) minimum_frame_size || ltb max_frame_size (length frame))
    && bytes_eq (source_mac frame) mac

-- One round of `readLoop`, for a message read at the times `times`: the hub after it, and whether
-- the loop goes on.
unfoldable pub read_step : ℕ → ℕ → (ℕ → ℕ) → Incoming → Hub → Option (Hub × Bool)
unfolding is_valid_frame
read_step max_frame_size p times message h = elim (payload_of message) [
  | none ↦ some (h, false)
  | some frame ↦
      if is_valid_frame max_frame_size (h.peers p).mac frame
      then Option.map (λ after. (after, true)) (forward times p frame h)
      else some (h, false)
]

-- `readLoop` on the messages that arrive. A read on a connection at its end fails.
abbrev resume : Option (Hub × Bool) → (Hub → Option Hub) → Option Hub
resume none rest = none
resume (some (h, true)) rest = rest h
resume (some (h, false)) rest = some h

pub read_loop : ℕ → ℕ → List ((ℕ → ℕ) × Incoming) → Hub → Option Hub
read_loop max_frame_size p [] h = some h
read_loop max_frame_size p ((times, message) ∷ rest) h =
    resume (read_step max_frame_size p times message h) (λ h'. read_loop max_frame_size p rest h')

-- What the `select` of `writeLoop` finds, with what the write that follows returns.
pub data Wakeup : Type 0 where
  done_closed : Wakeup
  frame_ready : Bool → Wakeup
  ticked : Bool → Wakeup

-- One round: the peer after it, what it wrote, and whether the loop goes on. A `frame_ready` with
-- no frame in the channel does not happen.
abbrev pub rest_of : List Bytes → List Bytes
rest_of [] = []
rest_of (frame ∷ rest) = rest

abbrev pub first_of_queue : List Bytes → List Bytes
first_of_queue [] = []
first_of_queue (frame ∷ rest) = frame ∷ []

unfoldable pub write_step : Wakeup → Peer → Peer × List Bytes × Bool
write_step done_closed p = (p, [], false)
write_step (frame_ready true) p =
    (record p { queue = rest_of p.queue }, first_of_queue p.queue, true)
write_step (frame_ready false) p = (record p { queue = rest_of p.queue; stopped = true }, [], false)
write_step (ticked true) p = (p, [], true)
write_step (ticked false) p = (record p { stopped = true }, [], false)

abbrev continue_writing : Peer × List Bytes × Bool → (Peer → Peer × List Bytes) → Peer × List Bytes
continue_writing (p, out, true) rest = let (p', more) = rest p in (p', out ++ more)
continue_writing (p, out, false) rest = (p, out)

unfoldable pub write_loop : List Wakeup → Peer → Peer × List Bytes
write_loop [] p = (p, [])
write_loop (w ∷ ws) p = continue_writing (write_step w p) (λ p'. write_loop ws p')
