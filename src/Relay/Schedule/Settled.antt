-- ===== src/Relay/Schedule/Settled.antt =====
-- The sessions of internal/relay/relay.go as they will be once the handlers in `hub.add` have stopped
-- the peers that theirs replaced.
use wsn.Relay.Hub.Authorized.{IsAuthorized, still_authorized_iff}
use wsn.Relay.Hub.Registry.{among-replaced_at, by_id-add_at, by_mac-add_at, displaced, peers-add_at}
use wsn.Relay.Schedule.Invariant.{IsSafe, IsSafe-Fades}
use wsn.Relay.Schedule.Fading.{is_listed-Fades}
use wsn.Relay.Schedule.{
  is_listed, is_serving, quiet, World, accept_at, is_doomed, next_owed, owe, register_at, stop_owed,
}
use wsn.Relay.Hub.Removal.{Fades}
use wsn.Relay.Hub.{
  replaced_at, same_peer, AuthorizedClient, Hub, add_at, list_at, remove_at, stale_peers, stop_peer,
}
use wsn.Protocol.{Bytes}
use wsn.Prelude.{
  false, true, ap, insert, lookup, not, sym, ◌&&◌, ◌∙◌, List, Map, Option-cases, [], among, arith,
  if◌then◌else◌, inl, inr, refl, some, ℕ, ◌==◌, ◌||◌, ◌∷◌, ◌≡◌,
}
use wsn.Prelude.{nat_eq, bytes_key}
use wsn.Relay.Peer.{stop}
use wsn.Relay.Schedule.{Settings}

abbrev pub settle : List (ℕ × ℕ) → Hub → Hub
settle owed h = record h { peers = λ q. if is_doomed q owed then stop (h.peers q) else h.peers q }

abbrev pub settled : World → World
settled w = record w { hub = settle w.owed w.hub }

pub settle-Fades :
    (owed : List (ℕ × ℕ)) (h h' : Hub) → Fades h h' → Fades (settle owed h) (settle owed h')
settle-Fades owed h h' f = record {
  by_id_same = f.by_id_same;
  by_mac_same = f.by_mac_same;
  id_same = λ q. ground (arith, f.id_same q);
  mac_same = λ q. ground (arith, f.mac_same q);
  live_before = λ q live. ground (arith, f.live_before q);
}

pub accept-Fades :
    (s : Settings) (p : ℕ) (w : World) (client : AuthorizedClient)
    → Fades (accept_at s p (settled w) client).hub (settled (accept_at s p w client)).hub
accept-Fades s p w client = record {
  by_id_same = refl;
  by_mac_same = refl;
  id_same = λ q. ground arith;
  mac_same = λ q. ground arith;
  live_before = λ q live. ground arith;
}

is_doomed-owe :
    (p q : ℕ) (qs : List ℕ) (owed : List (ℕ × ℕ))
    → is_doomed q (owe p qs owed) ≡ (among q qs || is_doomed q owed)
is_doomed-owe p q [] owed = refl
is_doomed-owe p q (a ∷ qs) owed = ground (arith, is_doomed-owe p q qs owed)

id-settle : (owed : List (ℕ × ℕ)) (h : Hub) (q : ℕ) → ((settle owed h).peers q).id ≡ (h.peers q).id
id-settle owed h q = ground arith

displaced-settle :
    (owed : List (ℕ × ℕ)) (key p : ℕ) (h : Hub) (q : ℕ)
    → displaced key p (settle owed h) q ≡ displaced key p h q
displaced-settle owed key p h q =
    ap
      (λ id. not (q == p) && (same_peer (lookup id h.by_id) q || same_peer (lookup key h.by_mac) q))
      (id-settle owed h p)

-- To register and stop later comes to the same as to do both at once.
pub register-Fades :
    (p key : ℕ) (w : World)
    → Fades (add_at key p (settled w).hub) (settled (register_at p w key)).hub
unfolding list_at
register-Fades p key w = record {
  by_id_same =
      ap (λ id. insert id p w.hub.by_id) (sym (id-settle w.owed w.hub p))
      ∙ sym (by_id-add_at key p (settle w.owed w.hub));
  by_mac_same = sym (by_mac-add_at key p (settle w.owed w.hub));
  id_same = λ q. ground (arith, peers-add_at key p (settle w.owed w.hub) q);
  mac_same = λ q. ground (arith, peers-add_at key p (settle w.owed w.hub) q);
  live_before = λ q live. ground (
    arith,
    peers-add_at key p (settle w.owed w.hub) q,
    displaced-settle w.owed key p w.hub q,
    among-replaced_at key p w.hub q,
    is_doomed-owe p q (replaced_at key p w.hub) w.owed,
  );
}

pub leave-Fades :
    (p key : ℕ) (w : World)
    → Fades
        (stop_peer p (remove_at key p (settled w).hub))
        (settle w.owed (stop_peer p (remove_at key p w.hub)))
unfolding remove_at stop_peer
leave-Fades p key w = record {
  by_id_same = ground arith;
  by_mac_same = ground arith;
  id_same = λ q. ground arith;
  mac_same = λ q. ground arith;
  live_before = λ q live. ground arith;
}

-- The next peer that a handler stops.
next_owed-doomed :
    (p : ℕ) (owed : List (ℕ × ℕ)) (m : ℕ × List (ℕ × ℕ)) (r : ℕ)
    → next_owed p owed ≡ some m
    → is_doomed r owed ≡ ((m.0 == r) || is_doomed r m.1)
next_owed-doomed p [] m r e = cc
next_owed-doomed p ((a, q) ∷ owed) m r e = elim (Option-cases (next_owed p owed)) [
  | inl missing ↦ ground arith
  | inr (n, found) ↦ ground (arith, next_owed-doomed p owed n r found)
]

pub stop_owed-Fades :
    (p : ℕ) (w : World) (m : ℕ × List (ℕ × ℕ))
    → next_owed p w.owed ≡ some m
    → Fades (settled w).hub (settled (stop_owed w m)).hub
unfolding stop_peer
stop_owed-Fades p w m e = record {
  by_id_same = refl;
  by_mac_same = refl;
  id_same = λ q. ground arith;
  mac_same = λ q. ground arith;
  live_before = λ q live. ground (arith, next_owed-doomed p w.owed m q e);
}

pub stale_peers-settle :
    (clients : Map Bytes AuthorizedClient) (owed : List (ℕ × ℕ)) (h : Hub) (m : Map Bytes ℕ)
    → stale_peers clients (settle owed h).peers m ≡ stale_peers clients h.peers m
unfolding stale_peers
stale_peers-settle clients owed h [] = refl
stale_peers-settle clients owed h ((id, p) ∷ m) =
    let rest = stale_peers-settle clients owed h m in ground arith

-- An event that changes nothing but the peers, and only ages these.
pub IsSafe-Faded :
    (w w' : World)
    → IsSafe w
    → Fades w.hub w'.hub
    → w'.clients ≡ w.clients
    → w'.phase ≡ w.phase
    → w'.reloading ≡ w.reloading
    → IsSafe w'
IsSafe-Faded w w' v f same_clients same_phase same_reloading =
    IsSafe-Fades w w' v f (λ q k. rw same_phase k) (λ q a. rw same_phase at a)
      (λ q c live.
        let before = v.checked q (rw same_phase at c) (f.live_before q live) in
        rw (is_listed-Fades w w' q f same_clients, same_reloading) before)

pub mac-settle :
    (owed : List (ℕ × ℕ)) (h : Hub) (q : ℕ) → ((settle owed h).peers q).mac ≡ (h.peers q).mac
mac-settle owed h q = ground arith

pub is_listed-settled : (w : World) (q : ℕ) → is_listed (settled w) q ≡ is_listed w q
is_listed-settled w q = rw (id-settle w.owed w.hub q, mac-settle w.owed w.hub q) refl

pub stop_head-Fades :
    (p : ℕ) (w : World) → Fades (stop_peer p (settled w).hub) (settle w.owed (stop_peer p w.hub))
unfolding stop_peer
stop_head-Fades p w = record {
  by_id_same = refl;
  by_mac_same = refl;
  id_same = λ q. ground arith;
  mac_same = λ q. ground arith;
  live_before = λ q live. ground arith;
}

-- What the invariant says of a peer that nobody is to stop.
pub settled-IsAuthorized :
    (w : World) (q : ℕ)
    → IsSafe (settled w)
    → w.reloading ≡ quiet
    → is_serving (w.phase q) ≡ true
    → (w.hub.peers q).stopped ≡ false
    → is_doomed q w.owed ≡ false
    → IsAuthorized w.clients (w.hub.peers q).id (w.hub.peers q).mac
settled-IsAuthorized w q v still serves live spared =
    (still_authorized_iff w.clients _ _).0 (ground (arith, v.checked q, is_listed-settled w q))
