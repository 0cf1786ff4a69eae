-- ===== src/Segment.antt =====
-- A frame on its way through internal/client/client.go and internal/relay/relay.go: from the device of
-- one client through the relay to the device of another.
mod Examples
use wsn.Client.Mac.{equal_mac-bytes_eq}
use wsn.Prelude.{
  ℕ, zero, suc, List, [], ◌∷◌, ◌++◌, map, length, replicate, Bool, true, false, Option, none, some,
  Result, ok, err, All, All-append, ◌≡◌, refl, sym, ap, ◌∙◌, ◌≤◌, ◌<◌, inl, inr, arith, nat_eq,
  bytes_key, Bool-cases, ltb, not, ◌||◌, bytes_eq,
}
use wsn.Protocol.{Bytes, minimum_frame_size, source_mac}
use wsn.Conn.{Incoming, binary}
use wsn.Client.Tunnel.{
  check_tap_frame, is_relay_frame, web_socket_to_tap, to_device, write_full, TunnelError,
  read_relay,
}
use wsn.Client.Tunnel.Frames.{Takes, write_full-Takes}
use wsn.Relay.Peer.{Peer, offer}
use wsn.Relay.Peer.Queue.{offer_lem}
use wsn.Relay.Hub.{Hub}
use wsn.Relay.Hub.Registry.{IsRegistry}
use wsn.Relay.Hub.Forwarding.{Receives, IsForwarded, forward-IsForwarded}
use wsn.Relay.Session.{
  is_valid_frame, read_step, Wakeup, frame_ready, write_step, write_loop, rest_of, first_of_queue,
}

-- What the client takes from its device, the relay takes from the client, and every client from the
-- relay, where all have the same limit.
check_tap_frame-is_valid_frame :
    (max_frame_size : ℕ) (mac frame : Bytes)
    → check_tap_frame max_frame_size mac frame ≡ ok tt
    → (is_valid_frame max_frame_size mac frame ≡ true)
      × (is_relay_frame max_frame_size frame ≡ true)
      × (14 ≤ length frame)
unfolding check_tap_frame is_valid_frame is_relay_frame
check_tap_frame-is_valid_frame max_frame_size mac frame h =
    (ground (arith, equal_mac-bytes_eq (source_mac frame) mac), ground arith, ground arith)

-- As many wakeups as the queue has frames, none of whose writes fails.
abbrev pub wakeups : Peer → List Wakeup
wakeups p = replicate (length p.queue) (frame_ready true)

write_loop-wakeups :
    (q : List Bytes) (p : Peer)
    → p.queue ≡ q
    → (write_loop (replicate (length q) (frame_ready true)) p).1 ≡ q
unfolding write_loop write_step
write_loop-wakeups [] p e = refl
write_loop-wakeups (frame ∷ q) p e =
    let rest = write_loop-wakeups q (record p { queue = rest_of p.queue }) (ap rest_of e) in
    ap
      (λ (x : List Bytes).
        first_of_queue x
        ++ (write_loop (replicate (length q) (frame_ready true))
            (record p { queue = rest_of p.queue })).1)
      e
    ∙ ap (◌∷◌ frame) rest

module _ (max_frame_size : ℕ) (outcomes : Bytes → List (Option ℕ)) where
  -- The messages as the client reads them, with the writes to its device.
  abbrev pub messages : List Bytes → List (Incoming × List (Option ℕ))
  messages frames = map (λ (frame : Bytes). (binary frame, outcomes frame)) frames

  -- Every write to the device takes at least a byte, and there are enough of them.
  abbrev pub TakesAll : Type 0
  TakesAll = (frame : Bytes) → All Takes (outcomes frame) × (length frame ≤ length (outcomes frame))

  web_socket_to_tap-messages :
      (frames : List Bytes)
      → TakesAll
      → All (λ frame. is_relay_frame max_frame_size frame ≡ true) frames
      → (web_socket_to_tap max_frame_size (messages frames)).1 ≡ frames
  unfolding web_socket_to_tap
  web_socket_to_tap-messages [] takes h = refl
  web_socket_to_tap-messages (frame ∷ frames) takes h =
      let rest = web_socket_to_tap-messages frames takes h.1 in
      let written = write_full-Takes (outcomes frame) frame (takes frame).0 (takes frame).1 in
      rw (h.0, written) (ap (◌∷◌ frame) rest)

  -- The path of a frame: where the client whose peer is `sender` takes a frame from its device, and the
  -- peer `q` is one that a switch sends it to and has room in its queue, the relay goes on reading from
  -- the sender, and what the client of `q` has written to its device, once the relay has emptied the
  -- queue without a failed write, is what was queued before and then the frame, whole and in order;
  -- given one limit on both sides, frames within it in the queue, and a device that takes at least a
  -- byte of each write.
  pub frame_crosses :
      (times : ℕ → ℕ) (h : Hub) (sender q : ℕ) (frame : Bytes)
      → IsRegistry h
      → check_tap_frame max_frame_size (h.peers sender).mac frame ≡ ok tt
      → Receives h sender frame q
      → length (h.peers q).queue < (h.peers q).capacity
      → All (λ queued. is_relay_frame max_frame_size queued ≡ true) (h.peers q).queue
      → TakesAll
      → (h' : Hub) × (read_step max_frame_size sender times (binary frame) h ≡ some (h', true))
        × ((web_socket_to_tap max_frame_size
              (messages (write_loop (wakeups (h'.peers q)) (h'.peers q)).1)).1
            ≡ (h.peers q).queue ++ frame ∷ [])
  unfolding read_step
  frame_crosses times h sender q frame r accepted receives room sizes takes =
      let (valid, fits, long) =
        check_tap_frame-is_valid_frame max_frame_size (h.peers sender).mac frame accepted in
      let (h', e, _, all) = forward-IsForwarded times h sender frame r long in
      let queued : (h'.peers q).queue ≡ (h.peers q).queue ++ frame ∷ [] = offered h' (all q) in
      let written : (write_loop (wakeups (h'.peers q)) (h'.peers q)).1 ≡ (h'.peers q).queue =
        write_loop-wakeups (h'.peers q).queue (h'.peers q) refl in
      (
        h',
        ground arith,
        ap (λ frames. (web_socket_to_tap max_frame_size (messages frames)).1) (written ∙ queued)
            ∙ web_socket_to_tap-messages ((h.peers q).queue ++ frame ∷ []) takes (
                All-append (λ f. is_relay_frame max_frame_size f ≡ true) (h.peers q).queue
                  (frame ∷ []) sizes (fits, tt)),
      )
    where
      offered :
          (h' : Hub)
          → IsForwarded times h sender frame h' q
          → (h'.peers q).queue ≡ (h.peers q).queue ++ frame ∷ []
      offered h' (inr (not_sent, same)) = absurd (not_sent receives)
      offered h' (inl (sent, p)) = elim (offer_lem (times q) frame (h.peers q)) [
        | inl (free, offered_to) ↦ ap (λ (x : Peer). x.queue) (p ∙ offered_to)
        | inr (full, kept, dropped, same) ↦ absurd (omega arith)
      ]
