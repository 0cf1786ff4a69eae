-- ===== src/Segment/Examples.antt =====
-- A frame from the client `b` to the client `a`, whose device takes every frame in one write.
use wsn.Prelude.{
  ℕ, List, [], ◌∷◌, ◌++◌, Option, some, ok, true, ◌≡◌, refl, length, inl, arith, nat_eq, bytes_key,
  All, ◌≤◌,
}
use wsn.Protocol.{Bytes, mac_key, destination_mac, is_group_mac, source_mac}
use wsn.Conn.{binary}
use wsn.Client.Tunnel.{check_tap_frame, web_socket_to_tap}
use wsn.Client.Tunnel.Frames.{Takes}
use wsn.Relay.Hub.{Hub, add, new_hub}
use wsn.Relay.Hub.Forwarding.{Receives}
use wsn.Relay.Hub.Examples.{two, two-IsRegistry, frame, times}
use wsn.Relay.Session.{read_step, write_loop}
use wsn.Segment.{messages, wakeups, frame_crosses}

-- One byte after the other.
abbrev bytewise : Bytes → List (Option ℕ)
bytewise [] = []
bytewise (b ∷ s) = some 1 ∷ bytewise s

bytewise-Takes : (s : Bytes) → All Takes (bytewise s) × (length s ≤ length (bytewise s))
bytewise-Takes [] = (tt, omega arith)
bytewise-Takes (b ∷ s) =
    let (takes, enough) = bytewise-Takes s in (((0, refl), takes), omega (arith, enough))

two-Receives : Receives two 1 frame 0
unfolding add mac_key new_hub destination_mac is_group_mac
two-Receives = (λ e. omega (arith, e), inl (refl, (2199023255552, refl, refl)))

was_accepted : check_tap_frame 2048 (two.peers 1).mac frame ≡ ok tt
unfolding check_tap_frame add mac_key new_hub source_mac
was_accepted = refl

frame_crosses_example :
    (h' : Hub) × (read_step 2048 1 times (binary frame) two ≡ some (h', true))
    × ((web_socket_to_tap 2048
          (messages 2048 bytewise (write_loop (wakeups (h'.peers 0)) (h'.peers 0)).1)).1
        ≡ (two.peers 0).queue ++ frame ∷ [])
unfolding add mac_key new_hub
frame_crosses_example =
    frame_crosses 2048 bytewise times two 1 0 frame two-IsRegistry was_accepted two-Receives
      (omega arith) tt bytewise-Takes
