-- ===== src/Relay/Hub/Registry.antt =====
-- The registry that `add`, `remove` and `retainAuthorized` of internal/relay/relay.go maintain.
use wsn.Prelude.{
  ◌==◌, if◌then◌else◌, Option-cases, bytes_eq, bytes_eq_iff, nat_eq, bytes_key, lookup, insert,
  Distinct, lookup-insert, insert-Distinct, ℕ, ◌≡◌, sym, ap, subst, ◌∙◌, inl, inr, Bool, false, not,
  ◌&&◌, ◌||◌, some, arith,
}
use wsn.Protocol.{Bytes, mac_key}
use wsn.Relay.Peer.{Peer, stop}
use wsn.Relay.Hub.{
  Hub, new_hub, same_peer, add_at, add, stop_all, stop_peer, list_at, replaced_at, replaced_by_id,
  replaced_by_mac,
}
use wsn.Prelude.{among, Option, none, List, [], ◌∷◌, ◌++◌, if◌then◌else◌, refl}

-- Every entry stands under its peer's own identity or key, and a live peer that is in one map is in
-- both.
pub record IsRegistry (h : Hub) : Type 0 where
  pub ids_distinct : Distinct h.by_id
  pub macs_distinct : Distinct h.by_mac
  pub ids_match : (id : Bytes) (p : ℕ) → lookup id h.by_id ≡ some p → (h.peers p).id ≡ id
  pub macs_match : (k p : ℕ) → lookup k h.by_mac ≡ some p → mac_key (h.peers p).mac ≡ some k
  pub live_by_id :
      (k p : ℕ)
      → lookup k h.by_mac ≡ some p
      → (h.peers p).stopped ≡ false
      → lookup (h.peers p).id h.by_id ≡ some p
  pub live_by_mac :
      (id : Bytes) (p k : ℕ)
      → lookup id h.by_id ≡ some p
      → mac_key (h.peers p).mac ≡ some k
      → (h.peers p).stopped ≡ false
      → lookup k h.by_mac ≡ some p

pub new_hub-IsRegistry : (peers : ℕ → Peer) → IsRegistry (new_hub peers)
unfolding new_hub
new_hub-IsRegistry peers = record {
  ids_distinct = tt;
  macs_distinct = tt;
  ids_match = λ id p h. cc;
  macs_match = λ k p h. cc;
  live_by_id = λ k p h. cc;
  live_by_mac = λ id p k h. cc;
}

-- A peer that an arriving one replaces.
abbrev pub displaced : ℕ → ℕ → Hub → ℕ → Bool
displaced key p h q =
    not (q == p)
    && (same_peer (lookup (h.peers p).id h.by_id) q || same_peer (lookup key h.by_mac) q)

pub maps-stop_all :
    (ps : List ℕ) (h : Hub)
    → ((stop_all ps h).by_id ≡ h.by_id) × ((stop_all ps h).by_mac ≡ h.by_mac)
unfolding stop_all stop_peer
maps-stop_all [] h = (refl, refl)
maps-stop_all (p ∷ ps) h = maps-stop_all ps (stop_peer p h)

pub peers-stop_all :
    (ps : List ℕ) (h : Hub) (q : ℕ)
    → (stop_all ps h).peers q ≡ (if among q ps then stop (h.peers q) else h.peers q)
unfolding stop_all stop_peer
peers-stop_all [] h q = refl
peers-stop_all (p ∷ ps) h q = ground (arith, peers-stop_all ps (stop_peer p h) q)

-- Only the replaced peers are among those that `add` stops.
pub among-replaced_at :
    (key p : ℕ) (h : Hub) (q : ℕ) → among q (replaced_at key p h) ≡ displaced key p h q
unfolding replaced_at replaced_by_id replaced_by_mac same_peer
among-replaced_at key p h q = both (lookup (h.peers p).id h.by_id) (lookup key h.by_mac)
  where
    both :
        (by_id by_mac : Option ℕ)
        → among q (replaced_by_id p by_id ++ replaced_by_mac p by_id by_mac)
          ≡ (not (q == p) && (same_peer by_id q || same_peer by_mac q))
    both none none = ground arith
    both (some a) none = ground arith
    both none (some b) = ground arith
    both (some a) (some b) = ground arith

module _ (key p : ℕ) (h : Hub) where
  pub by_id-add_at : (add_at key p h).by_id ≡ insert (h.peers p).id p h.by_id
  unfolding add_at list_at
  by_id-add_at = (maps-stop_all (replaced_at key p h) (list_at key p h)).0

  pub by_mac-add_at : (add_at key p h).by_mac ≡ insert key p h.by_mac
  unfolding add_at list_at
  by_mac-add_at = (maps-stop_all (replaced_at key p h) (list_at key p h)).1

  pub peers-add_at :
      (q : ℕ)
      → (add_at key p h).peers q ≡ (if displaced key p h q then stop (h.peers q) else h.peers q)
  unfolding add_at list_at
  peers-add_at q =
      peers-stop_all (replaced_at key p h) (list_at key p h) q
      ∙ rw (among-replaced_at key p h q) refl

module _ (key p : ℕ) (h : Hub) (keyed : mac_key (h.peers p).mac ≡ some key) (r : IsRegistry h) where
  abbrev pub after : Hub
  after = add_at key p h

  pub lookup-by_id_after :
      (id : Bytes)
      → lookup id after.by_id ≡ (if bytes_eq (h.peers p).id id then some p else lookup id h.by_id)
  lookup-by_id_after id = ap (lookup id) (by_id-add_at key p h) ∙ lookup-insert _ id p h.by_id

  pub lookup-by_mac_after :
      (k : ℕ) → lookup k after.by_mac ≡ (if key == k then some p else lookup k h.by_mac)
  lookup-by_mac_after k = ap (lookup k) (by_mac-add_at key p h) ∙ lookup-insert key k p h.by_mac

  ids_match_after : (id : Bytes) (q : ℕ) → lookup id after.by_id ≡ some q → (after.peers q).id ≡ id
  ids_match_after id q e = ground (
    arith,
    lookup-by_id_after id,
    peers-add_at key p h q,
    r.ids_match id q,
    bytes_eq_iff (h.peers p).id id,
  )

  macs_match_after :
      (k q : ℕ) → lookup k after.by_mac ≡ some q → mac_key (after.peers q).mac ≡ some k
  macs_match_after k q e =
      ground (arith, lookup-by_mac_after k, peers-add_at key p h q, r.macs_match k q)

  pub id_after : (q : ℕ) → (after.peers q).id ≡ (h.peers q).id
  id_after q = ground (arith, peers-add_at key p h q)

  live_by_id_after :
      (k q : ℕ)
      → lookup k after.by_mac ≡ some q
      → (after.peers q).stopped ≡ false
      → lookup (after.peers q).id after.by_id ≡ some q
  unfolding same_peer
  live_by_id_after k q e live = ground (
    arith,
    lookup-by_mac_after k,
    peers-add_at key p h q,
    r.live_by_id k q,
    bytes_eq_iff (h.peers p).id (h.peers q).id,
    id_after q,
    lookup-by_id_after (h.peers q).id,
  )

  live_by_mac_after :
      (id : Bytes) (q k : ℕ)
      → lookup id after.by_id ≡ some q
      → mac_key (after.peers q).mac ≡ some k
      → (after.peers q).stopped ≡ false
      → lookup k after.by_mac ≡ some q
  unfolding same_peer
  live_by_mac_after id q k e m live = ground (
    arith,
    lookup-by_id_after id,
    peers-add_at key p h q,
    r.live_by_mac id q k,
    lookup-by_mac_after k,
    bytes_eq_iff (h.peers p).id id,
  )

  pub add_at-IsRegistry : IsRegistry (add_at key p h)
  add_at-IsRegistry = record {
    ids_distinct = rw by_id-add_at (insert-Distinct _ p h.by_id r.ids_distinct);
    macs_distinct = rw by_mac-add_at (insert-Distinct key p h.by_mac r.macs_distinct);
    ids_match = ids_match_after;
    macs_match = macs_match_after;
    live_by_id = live_by_id_after;
    live_by_mac = live_by_mac_after;
  }

pub add-eq_some :
    (p : ℕ) (h h' : Hub)
    → add p h ≡ some h'
    → (key : ℕ) × (mac_key (h.peers p).mac ≡ some key) × (h' ≡ add_at key p h)
unfolding add
add-eq_some p h h' e = elim (Option-cases (mac_key (h.peers p).mac)) [
  | inl missing ↦ ground arith
  | inr (key, keyed) ↦ (key, keyed, ground arith)
]

-- Registering a peer keeps the registry.
pub add-IsRegistry : (p : ℕ) (h h' : Hub) → IsRegistry h → add p h ≡ some h' → IsRegistry h'
add-IsRegistry p h h' r e =
    let (key, keyed, same) = add-eq_some p h h' e in
    subst IsRegistry (sym same) (add_at-IsRegistry key p h keyed r)
