-- ===== src/Client/Tunnel.antt =====
-- `tapToWebSocket`, `webSocketToTap` and `writeFull` of internal/client/client.go. What the TAP
-- device and the connection return is given call by call; a list that ends stands for a failed call.
pub mod Frames
use wsn.Prelude.{
  ltb, leb, ◌==◌, if◌then◌else◌, ltb→lt, leb→le, ==_iff, Bool-cases, Option-cases, bytes_eq,
  bytes_eq_iff, bytes_eq_refl, among, Eq, nat_eq, bytes_key, length, take, drop, Elem,
  length-append, take-append-drop, length-take, length-drop, All, All-append, Map, lookup, insert,
  remove, Distinct, Entry, lookup-insert, lookup-remove, insert-Distinct, remove-Distinct,
  Entry-of_lookup, lookup-of_Entry, Result, refuse_if, or_err, Result-cases, ok, err, ℕ, zero, suc,
  ◌+◌, ◌-◌, ◌*◌, ◌/◌, ◌%◌, ◌^◌, ◌≤◌, ◌<◌, ◌≡◌, refl, sym, ap, subst, ◌∙◌, ◌≢◌, ◌↔◌, ◌⊎◌, inl, inr,
  Bool, true, false, not, ◌&&◌, ◌||◌, Option, none, some, List, [], ◌∷◌, ◌++◌, map, append_assoc,
  append-nil, arith,
}
use wsn.Protocol.{minimum_frame_size, source_mac, Bytes}
use wsn.Conn.{Incoming}
use wsn.Client.Mac.{equal_mac}

pub data TunnelError : Type 0 where
  read_tap frame_size source_differs write_relay read_relay invalid_frame write_tap : TunnelError

pub data WriteError : Type 0 where
  write_failed short_write : WriteError

-- `writeFull`: what it returns and the bytes that the writer took. An outcome is the number of bytes
-- that a call of `Write` took, or none for an error; `io.Writer` takes no more than it is given.
unfoldable pub write_full : List (Option ℕ) → Bytes → Result WriteError (Unit {0}) × Bytes
write_full outcomes [] = (ok tt, [])
write_full [] (b ∷ value) = (err write_failed, [])
write_full (none ∷ outcomes) (b ∷ value) = (err write_failed, [])
write_full (some n ∷ outcomes) (b ∷ value) =
    let (result, written) = write_full outcomes (drop n (b ∷ value)) in
    if n == 0 then (err short_write, []) else (result, take n (b ∷ value) ++ written)

-- The tests of a frame that the device gave.
unfoldable pub check_tap_frame : ℕ → Bytes → Bytes → Result TunnelError (Unit {0})
unfolding equal_mac
check_tap_frame max_frame_size mac frame =
    if ltb (length frame) minimum_frame_size || ltb max_frame_size (length frame)
    then err frame_size
    else refuse_if (not (equal_mac (source_mac frame) mac)) source_differs

abbrev and_then :
    Result TunnelError (Unit {0}) → TunnelError × List Bytes → TunnelError × List Bytes
and_then (err e) rest = (e, [])
and_then (ok t) rest = rest

abbrev sent_before : Bytes → TunnelError × List Bytes → TunnelError × List Bytes
sent_before frame (e, frames) = (e, frame ∷ frames)

-- `tapToWebSocket`: the error that it ends with and the frames that it sent. A round is what `Read`
-- returned and whether the write succeeded.
unfoldable pub tap_to_web_socket : ℕ → Bytes → List (Option Bytes × Bool) → TunnelError × List Bytes
unfolding check_tap_frame
tap_to_web_socket max_frame_size mac [] = (read_tap, [])
tap_to_web_socket max_frame_size mac ((none, written) ∷ rounds) = (read_tap, [])
tap_to_web_socket max_frame_size mac ((some frame, written) ∷ rounds) =
    let rest = tap_to_web_socket max_frame_size mac rounds in
    and_then (check_tap_frame max_frame_size mac frame)
      (if written then sent_before frame rest else (write_relay, []))

unfoldable pub is_relay_frame : ℕ → Bytes → Bool
is_relay_frame max_frame_size frame =
    not (ltb (length frame) minimum_frame_size || ltb max_frame_size (length frame))

abbrev pub to_device :
    Result WriteError (Unit {0}) × Bytes → TunnelError × List Bytes → TunnelError × List Bytes
to_device (ok t, written) rest = sent_before written rest
to_device (err e, written) rest = (write_tap, written ∷ [])

-- `webSocketToTap`: the error that it ends with and what the device took for each message. A round is
-- the message and the outcomes of the writes to the device.
unfoldable pub web_socket_to_tap : ℕ → List (Incoming × List (Option ℕ)) → TunnelError × List Bytes
unfolding write_full is_relay_frame
web_socket_to_tap max_frame_size [] = (read_relay, [])
web_socket_to_tap max_frame_size ((Incoming.failed, outcomes) ∷ rounds) = (read_relay, [])
web_socket_to_tap max_frame_size ((Incoming.text frame, outcomes) ∷ rounds) = (invalid_frame, [])
web_socket_to_tap max_frame_size ((Incoming.binary frame, outcomes) ∷ rounds) =
    let rest = web_socket_to_tap max_frame_size rounds in
    if is_relay_frame max_frame_size frame
    then to_device (write_full outcomes frame) rest
    else (invalid_frame, [])
