-- ===== src/Relay/Connections/Agree.antt =====
-- Each handler of internal/relay/relay.go stands where its place among the pending handshakes says.
use wsn.Relay.Session.{read_step}
use wsn.Relay.Schedule.{
  Reload, accept_at, client_of, is_idle, is_listed, is_quiet, is_swapped, quiet, serves_or_leaves,
  set_hub, set_phase, stop_head, stopping, swapped, receive, write, reload, is_serving,
}
use wsn.Relay.Hub.{AuthorizedClient, Hub, remove_peer, stop_peer, update}
use wsn.Relay.Connections.{holds_place, Relay, both, places}
use wsn.Relay.Schedule.Invariant.{is_known}
use wsn.Relay.Hub.{update}
use wsn.Prelude.{not, ◌&&◌}
use wsn.Protocol.{mac_key}
use wsn.Relay.Schedule.{register_at, stop_replaced, stop_owed, next_owed, owes}
use wsn.Prelude.{
  nat_eq, bytes_key, Bool-cases, inl, inr, ltb, lookup, Bool, List, Option, [], arith, false,
  get_elem?, if◌then◌else◌, none, refl, set, some, suc, true, zero, ℕ, ◌++◌, ◌==◌, ◌||◌, ◌∷◌, ◌≡◌,
}
use wsn.Prelude.{nat_eq, bytes_key, get_elem?, set}
use wsn.Prelude.{gated-eq_some, if-eq_some, map-eq_some}
use wsn.Relay.Slots.{
  arrive_step, slot_step, pending, finished, refused, serving, returned, authenticated, Handler,
  Slots,
}
use wsn.Relay.Schedule.{
  accept, leave, look_up, recheck, register, scan, step, stop_next, is_registered, is_accepted,
  is_leaving, Phase, idle, accepted, registered, leaving, closed, looked_up, Settings, World, Event,
}

-- Where a handler with a place, without one and at its end may stand; `Relay.Schedule` has a phase for
-- the requests to come too.
abbrev pub agrees : Option Handler → Phase → Bool
agrees none idle = true
agrees (some pending) idle = true
agrees (some pending) (looked_up client) = true
agrees (some serving) accepted = true
agrees (some serving) registered = true
agrees (some serving) Phase.serving = true
agrees (some serving) leaving = true
agrees (some returned) idle = true
agrees (some returned) closed = true
agrees _ _ = false

abbrev pub Agree : List Handler → (ℕ → Phase) → Type 0
Agree hs phase = (q : ℕ) → agrees (get_elem? hs q) (phase q) ≡ true

get_elem?-set :
    (hs : List Handler) (p q : ℕ) (g h : Handler)
    → get_elem? hs p ≡ some g
    → get_elem? (set hs p h) q ≡ (if p == q then some h else get_elem? hs q)
get_elem?-set [] p q g h e = cc
get_elem?-set (x ∷ hs) zero zero g h e = refl
get_elem?-set (x ∷ hs) zero (suc q) g h e = ground arith
get_elem?-set (x ∷ hs) (suc p) zero g h e = ground arith
get_elem?-set (x ∷ hs) (suc p) (suc q) g h e = ground (arith, get_elem?-set hs p q g h)

module _ (hs : List Handler) (phase : ℕ → Phase) (agree : Agree hs phase) (p : ℕ) where
  -- One handler goes on to the next phase.
  Agree-phase : (ph : Phase) → agrees (get_elem? hs p) ph ≡ true → Agree hs (update phase p ph)
  Agree-phase ph h q = ground (arith, agree q)

  -- One handler changes its state too.
  pub Agree-set :
      (ph : Phase) (g h : Handler)
      → get_elem? hs p ≡ some g
      → agrees (some h) ph ≡ true
      → Agree (set hs p h) (update phase p ph)
  Agree-set ph g h e fits q = ground (arith, agree q, get_elem?-set hs p q g h)

-- A handler whose peer is made has given its place back.
abbrev pub has_peer : Phase → Bool
has_peer ph = is_accepted ph || (is_registered ph || (is_serving ph || is_leaving ph))

pub agrees-serving :
    (o : Option Handler) (ph : Phase) → agrees o ph ≡ true → has_peer ph ≡ true → o ≡ some serving
agrees-serving (some serving) ph e h = refl
agrees-serving none idle e h = cc
agrees-serving (some pending) idle e h = cc
agrees-serving (some returned) idle e h = cc
agrees-serving _ _ e h = cc

-- A handler with a place has no peer.
pub agrees-pending : (ph : Phase) → agrees (some pending) ph ≡ true → is_known ph ≡ false
agrees-pending idle e = refl
agrees-pending (looked_up client) e = refl
agrees-pending _ e = cc

holds_place-agrees :
    (o : Option Handler) (client : AuthorizedClient)
    → holds_place o ≡ true
    → agrees o (looked_up client) ≡ true
holds_place-agrees (some pending) client h = refl
holds_place-agrees none client h = cc
holds_place-agrees _ client h = cc

agrees-serves_or_leaves : (b : Bool) → agrees (some serving) (serves_or_leaves b) ≡ true
agrees-serves_or_leaves true = refl
agrees-serves_or_leaves false = refl

agrees-new :
    (h : Handler) (ph : Phase)
    → agrees (some h) idle ≡ true
    → agrees none ph ≡ true
    → agrees (some h) ph ≡ true
agrees-new h idle fits e = fits
agrees-new h _ fits e = cc

arrived :
    (hs : List Handler) (h : Handler) (q : ℕ) (ph : Phase)
    → agrees (some h) idle ≡ true
    → agrees (get_elem? hs q) ph ≡ true
    → agrees (get_elem? (hs ++ h ∷ []) q) ph ≡ true
arrived [] h zero ph fits e = agrees-new h ph fits e
arrived [] h (suc q) ph fits e = e
arrived (x ∷ hs) h zero ph fits e = e
arrived (x ∷ hs) h (suc q) ph fits e = arrived hs h q ph fits e

pub both-eq_some :
    (w : Option World) (sl : Option Slots) {r : Relay}
    → both w sl ≡ some r
    → (w ≡ some r.world) × (sl ≡ some r.slots)
both-eq_some none sl e = cc
both-eq_some (some w) none e = cc
both-eq_some (some w) (some sl) e = (ground arith, ground arith)

-- What the three events of a place ask for and change.
pub refused-eq_some :
    (p : ℕ) (sl sl' : Slots)
    → slot_step (refused p) sl ≡ some sl'
    → (get_elem? sl.handlers p ≡ some pending) × (sl'.handlers ≡ set sl.handlers p returned)
unfolding slot_step
refused-eq_some p sl sl' e = (ground arith, ground arith)

authenticated-eq_some :
    (p : ℕ) (sl sl' : Slots)
    → slot_step (authenticated p) sl ≡ some sl'
    → (get_elem? sl.handlers p ≡ some pending) × (sl'.handlers ≡ set sl.handlers p serving)
unfolding slot_step
authenticated-eq_some p sl sl' e = (ground arith, ground arith)

finished-eq_some :
    (p : ℕ) (sl sl' : Slots)
    → slot_step (finished p) sl ≡ some sl'
    → (get_elem? sl.handlers p ≡ some serving) × (sl'.handlers ≡ set sl.handlers p returned)
unfolding slot_step
finished-eq_some p sl sl' e = (ground arith, ground arith)

stop_head-phase : (w w' : World) (r : Reload) → stop_head w r ≡ some w' → w'.phase ≡ w.phase
stop_head-phase w w' quiet e = cc
stop_head-phase w w' swapped e = cc
stop_head-phase w w' (stopping []) e = ground arith
stop_head-phase w w' (stopping (p ∷ ps)) e = ground arith

module _ (s : Settings) where
  module _ (w w' : World) (sl sl' : Slots) (agree : Agree sl.handlers w.phase) where
    -- A handler with a peer goes on to a phase of such a handler.
    onward :
        (p : ℕ) (ph : Phase)
        → has_peer (w.phase p) ≡ true
        → agrees (some serving) ph ≡ true
        → Agree sl.handlers (update w.phase p ph)
    onward p ph h fits =
        let held = agrees-serving (get_elem? sl.handlers p) (w.phase p) (agree p) h in
        Agree-phase sl.handlers w.phase agree p ph (rw held fits)

    pub session-Agree :
        (e : Event) → step s e w ≡ some w' → places e sl ≡ some sl' → Agree sl'.handlers w'.phase
    unfolding step
    session-Agree (look_up p id) e h =
        let (i, client, found, same) =
          gated-eq_some (is_idle (w.phase p)) (λ client. set_phase p (looked_up client) w)
            (lookup id w.clients) e in
        let (held, kept) = if-eq_some (holds_place (get_elem? sl.handlers p)) sl h in
        rw (same, kept)
          (Agree-phase sl.handlers w.phase agree p (looked_up client)
            (holds_place-agrees (get_elem? sl.handlers p) client held))
    session-Agree (accept p) e h =
        let (client, found, same) = map-eq_some (accept_at s p w) (client_of (w.phase p)) e in
        let (held, changed) = authenticated-eq_some p sl sl' h in
        rw (same, changed)
          (Agree-set sl.handlers w.phase agree p accepted pending serving held refl)
    session-Agree (register p) e h =
        let (i, key, keyed, same) =
          gated-eq_some (is_accepted (w.phase p)) (register_at p w) (mac_key (w.hub.peers p).mac)
            e in
        let kept : sl' ≡ sl = ground arith in
        rw (same, kept) (onward p registered (ground arith) refl)
    session-Agree (stop_replaced p) e h =
        let (m, next, same) = map-eq_some (stop_owed w) (next_owed p w.owed) e in
        let kept : sl' ≡ sl = ground arith in rw (same, kept) agree
    session-Agree (recheck p) e h =
        let (i, same) = if-eq_some (is_registered (w.phase p) && not (owes p w.owed)) _ e in
        let kept : sl' ≡ sl = ground arith in
        rw (same, kept)
          (onward p (serves_or_leaves (is_listed w p)) (ground arith)
            (agrees-serves_or_leaves (is_listed w p)))
    session-Agree (receive p times message) e h =
        let (i, r, read, same) =
          gated-eq_some (is_serving (w.phase p))
            (λ (r : Hub × Bool). set_phase p (serves_or_leaves r.1) (set_hub w r.0))
            (read_step s.max_frame_size p times message w.hub) e in
        let kept : sl' ≡ sl = ground arith in
        rw (same, kept)
          (onward p (serves_or_leaves r.1) (ground arith) (agrees-serves_or_leaves r.1))
    session-Agree (write p wakeup) e h =
        let (i, same) = if-eq_some (is_serving (w.phase p) || is_leaving (w.phase p)) _ e in
        let kept : sl' ≡ sl = ground arith in rw (same, kept) agree
    session-Agree (leave p) e h =
        let (i, hub, removed, same) =
          gated-eq_some (is_leaving (w.phase p))
            (λ hub. set_phase p closed (set_hub w (stop_peer p hub))) (remove_peer p w.hub) e in
        let (held, changed) = finished-eq_some p sl sl' h in
        rw (same, changed) (Agree-set sl.handlers w.phase agree p closed serving returned held refl)
    session-Agree (reload clients) e h =
        let (i, same) = if-eq_some (is_quiet w.reloading) _ e in
        let kept : sl' ≡ sl = ground arith in rw (same, kept) agree
    session-Agree scan e h =
        let (i, same) = if-eq_some (is_swapped w.reloading) _ e in
        let kept : sl' ≡ sl = ground arith in rw (same, kept) agree
    session-Agree stop_next e h =
        let kept : sl' ≡ sl = ground arith in rw (stop_head-phase w w' w.reloading e, kept) agree

pub arrives-Agree :
    (sl : Slots) (phase : ℕ → Phase)
    → Agree sl.handlers phase
    → Agree (arrive_step sl).0.handlers phase
unfolding arrive_step
arrives-Agree sl phase agree q = elim (Bool-cases (ltb sl.occupied sl.capacity)) [
  | inl free ↦ rw free (arrived sl.handlers pending q (phase q) refl (agree q))
  | inr full ↦ rw full (arrived sl.handlers returned q (phase q) refl (agree q))
]
