-- ===== src/Relay/Schedule/Fading.antt =====
-- What the events of the sessions of internal/relay/relay.go that only stop peers leave of a hub.
use wsn.Relay.Session.{Wakeup, done_closed, frame_ready, ticked, write_step}
use wsn.Prelude.{nat_eq, bytes_key, ℕ, ◌≡◌, refl, true, false, arith}
use wsn.Relay.Hub.{Hub, stop_peer, deliver, update, forward, recipients}
use wsn.Relay.Peer.{offer}
use wsn.Relay.Peer.Queue.{offer_keeps}
use wsn.Conn.{Incoming, text, binary, failed}
use wsn.Protocol.{Bytes}
use wsn.Relay.Session.{read_step, is_valid_frame}
use wsn.Prelude.{subst, ◌∙◌, List, [], ◌∷◌, Bool, some, Option-cases, Bool-cases, inl, inr}
use wsn.Relay.Hub.Removal.{Fades}
use wsn.Relay.Schedule.{write_at, World, is_listed}

pub Fades-refl : (h : Hub) → Fades h h
Fades-refl h = record {
  by_id_same = refl;
  by_mac_same = refl;
  id_same = λ q. refl;
  mac_same = λ q. refl;
  live_before = λ q live. live;
}

pub stop_peer-Fades : (p : ℕ) (h : Hub) → Fades h (stop_peer p h)
unfolding stop_peer
stop_peer-Fades p h = record {
  by_id_same = refl;
  by_mac_same = refl;
  id_same = λ q. ground arith;
  mac_same = λ q. ground arith;
  live_before = λ q live. ground arith;
}

pub write_at-Fades : (p : ℕ) (wakeup : Wakeup) (h : Hub) → Fades h (write_at p wakeup h)
unfolding write_step
write_at-Fades p wakeup h = record {
  by_id_same = refl;
  by_mac_same = refl;
  id_same = λ q. ground (arith, kept wakeup);
  mac_same = λ q. ground (arith, kept wakeup);
  live_before = λ q live. ground (arith, kept wakeup);
}
  where
    kept :
        (x : Wakeup)
        → ((write_step x (h.peers p)).0.id ≡ (h.peers p).id)
          × ((write_step x (h.peers p)).0.mac ≡ (h.peers p).mac)
          × ((write_step x (h.peers p)).0.stopped ≡ false → (h.peers p).stopped ≡ false)
    kept done_closed = (refl, refl, λ live. live)
    kept (frame_ready true) = (refl, refl, λ live. live)
    kept (frame_ready false) = (refl, refl, λ live. cc)
    kept (ticked true) = (refl, refl, λ live. live)
    kept (ticked false) = (refl, refl, λ live. cc)

-- What a fading hub leaves of the check.
pub is_listed-Fades :
    (w w' : World) (q : ℕ)
    → Fades w.hub w'.hub
    → w'.clients ≡ w.clients
    → is_listed w' q ≡ is_listed w q
is_listed-Fades w w' q f c = rw (f.id_same q, f.mac_same q, c)

Fades-trans : (h k l : Hub) → Fades h k → Fades k l → Fades h l
Fades-trans h k l f g = record {
  by_id_same = g.by_id_same ∙ f.by_id_same;
  by_mac_same = g.by_mac_same ∙ f.by_mac_same;
  id_same = λ q. g.id_same q ∙ f.id_same q;
  mac_same = λ q. g.mac_same q ∙ f.mac_same q;
  live_before = λ q live. f.live_before q (g.live_before q live);
}

deliver-Fades :
    (times : ℕ → ℕ) (frame : Bytes) (targets : List ℕ) (h : Hub)
    → Fades h (deliver times frame targets h)
unfolding deliver
deliver-Fades times frame [] h = Fades-refl h
deliver-Fades times frame (p ∷ ps) h =
    let offered : Hub = record h { peers = update h.peers p (offer (times p) frame (h.peers p)) } in
    let first : Fades h offered = record {
      by_id_same = refl;
      by_mac_same = refl;
      id_same = λ q. ground (arith, offer_keeps (times p) frame (h.peers p));
      mac_same = λ q. ground (arith, offer_keeps (times p) frame (h.peers p));
      live_before = λ q live. ground (arith, offer_keeps (times p) frame (h.peers p));
    } in
    Fades-trans h offered _ first (deliver-Fades times frame ps offered)

-- A round of `readLoop`, on any hub.
pub read_step-Fades :
    (max_frame_size p : ℕ) (times : ℕ → ℕ) (message : Incoming) (h : Hub) (r : Hub × Bool)
    → read_step max_frame_size p times message h ≡ some r
    → Fades h r.0
unfolding read_step forward
read_step-Fades max_frame_size p times (text payload) h r e =
    let out : (h, false) ≡ r = ground arith in
    subst (λ (x : Hub × Bool). Fades h x.0) out (Fades-refl h)
read_step-Fades max_frame_size p times failed h r e =
    let out : (h, false) ≡ r = ground arith in
    subst (λ (x : Hub × Bool). Fades h x.0) out (Fades-refl h)
read_step-Fades max_frame_size p times (binary frame) h r e =
    elim (Bool-cases (is_valid_frame max_frame_size (h.peers p).mac frame)) [
      | inl valid ↦ elim (Option-cases (recipients p frame h)) [
        | inl missing ↦ ground arith
        | inr (targets, found) ↦
            let out : (deliver times frame targets h, true) ≡ r = ground arith in
            subst (λ (x : Hub × Bool). Fades h x.0) out (deliver-Fades times frame targets h)
      ]
      | inr invalid ↦
          let out : (h, false) ≡ r = ground arith in
          subst (λ (x : Hub × Bool). Fades h x.0) out (Fades-refl h)
    ]
