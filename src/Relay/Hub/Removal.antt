-- ===== src/Relay/Hub/Removal.antt =====
-- `remove` of internal/relay/relay.go, and changes of the peers that leave the maps alone.
use wsn.Prelude.{
  ◌==◌, if◌then◌else◌, Option-cases, bytes_eq, bytes_eq_iff, nat_eq, bytes_key, lookup,
  lookup-remove, remove-Distinct, ℕ, ◌≡◌, refl, sym, ap, subst, ◌∙◌, ◌≢◌, inl, inr, false, ◌&&◌,
  none, some, arith,
}
use wsn.Protocol.{Bytes, mac_key}
use wsn.Relay.Hub.{Hub, holds, remove_at, remove_peer}
use wsn.Relay.Hub.Registry.{IsRegistry}

module _ (key p : ℕ) (h : Hub) (keyed : mac_key (h.peers p).mac ≡ some key) (r : IsRegistry h) where
  lookup-by_id_removed :
      (id : Bytes)
      → lookup id (remove_at key p h).by_id ≡ (
          if bytes_eq (h.peers p).id id && holds (lookup (h.peers p).id h.by_id) p
          then none
          else lookup id h.by_id)
  unfolding remove_at
  lookup-by_id_removed id = ground (arith, lookup-remove (h.peers p).id id h.by_id)

  lookup-by_mac_removed :
      (k : ℕ)
      → lookup k (remove_at key p h).by_mac
        ≡ (if (key == k) && holds (lookup key h.by_mac) p then none else lookup k h.by_mac)
  unfolding remove_at
  lookup-by_mac_removed k = ground (arith, lookup-remove key k h.by_mac)

  -- After its removal a peer stands in neither map.
  pub removed_by_id : (id : Bytes) → lookup id (remove_at key p h).by_id ≢ some p
  unfolding holds
  removed_by_id id e =
      ground (arith, lookup-by_id_removed id, r.ids_match id p, bytes_eq_iff (h.peers p).id id)

  pub removed_by_mac : (k : ℕ) → lookup k (remove_at key p h).by_mac ≢ some p
  unfolding holds
  removed_by_mac k e = ground (arith, lookup-by_mac_removed k, r.macs_match k p)

  -- Every other peer keeps its entries.
  pub kept_by_id :
      (id : Bytes) (q : ℕ)
      → q ≢ p
      → lookup id h.by_id ≡ some q
      → lookup id (remove_at key p h).by_id ≡ some q
  unfolding holds
  kept_by_id id q ne e = ground (arith, lookup-by_id_removed id, bytes_eq_iff (h.peers p).id id)

  pub kept_by_mac :
      (k q : ℕ) → q ≢ p → lookup k h.by_mac ≡ some q → lookup k (remove_at key p h).by_mac ≡ some q
  unfolding holds
  kept_by_mac k q ne e = ground (arith, lookup-by_mac_removed k)

  pub peers-remove_at : (remove_at key p h).peers ≡ h.peers
  unfolding remove_at
  peers-remove_at = refl

  pub old_by_id :
      (id : Bytes) (q : ℕ)
      → lookup id (remove_at key p h).by_id ≡ some q
      → (lookup id h.by_id ≡ some q) × (q ≢ p)
  old_by_id id q e =
      (ground (arith, lookup-by_id_removed id), λ same. removed_by_id id (e ∙ ap some same))

  pub old_by_mac :
      (k q : ℕ)
      → lookup k (remove_at key p h).by_mac ≡ some q
      → (lookup k h.by_mac ≡ some q) × (q ≢ p)
  old_by_mac k q e =
      (ground (arith, lookup-by_mac_removed k), λ same. removed_by_mac k (e ∙ ap some same))

  pub remove_at-IsRegistry : IsRegistry (remove_at key p h)
  unfolding remove_at
  remove_at-IsRegistry = record {
    ids_distinct =
        ground (arith, remove-Distinct (h.peers p).id h.by_id r.ids_distinct, r.ids_distinct);
    macs_distinct = ground (arith, remove-Distinct key h.by_mac r.macs_distinct, r.macs_distinct);
    ids_match = λ id q e. r.ids_match id q (old_by_id id q e).0;
    macs_match = λ k q e. r.macs_match k q (old_by_mac k q e).0;
    live_by_id = λ k q e live.
        kept_by_id (h.peers q).id q (old_by_mac k q e).1
          (r.live_by_id k q (old_by_mac k q e).0 live);
    live_by_mac = λ id q k e m live.
        kept_by_mac k q (old_by_id id q e).1 (r.live_by_mac id q k (old_by_id id q e).0 m live);
  }

pub remove_peer-eq_some :
    (p : ℕ) (h h' : Hub)
    → remove_peer p h ≡ some h'
    → (key : ℕ) × (mac_key (h.peers p).mac ≡ some key) × (h' ≡ remove_at key p h)
unfolding remove_peer
remove_peer-eq_some p h h' e = elim (Option-cases (mac_key (h.peers p).mac)) [
  | inl missing ↦ ground arith
  | inr (key, keyed) ↦ (key, keyed, ground arith)
]

-- Unregistering a peer keeps the registry.
pub remove_peer-IsRegistry :
    (p : ℕ) (h h' : Hub) → IsRegistry h → remove_peer p h ≡ some h' → IsRegistry h'
remove_peer-IsRegistry p h h' r e =
    let (key, keyed, same) = remove_peer-eq_some p h h' e in
    subst IsRegistry (sym same) (remove_at-IsRegistry key p h keyed r)

-- The maps stay, and a peer changes neither its identity nor its address, nor comes back to life.
pub record Fades (h h' : Hub) : Type 0 where
  pub by_id_same : h'.by_id ≡ h.by_id
  pub by_mac_same : h'.by_mac ≡ h.by_mac
  pub id_same : (q : ℕ) → (h'.peers q).id ≡ (h.peers q).id
  pub mac_same : (q : ℕ) → (h'.peers q).mac ≡ (h.peers q).mac
  pub live_before : (q : ℕ) → (h'.peers q).stopped ≡ false → (h.peers q).stopped ≡ false

pub Fades-IsRegistry : (h h' : Hub) → Fades h h' → IsRegistry h → IsRegistry h'
Fades-IsRegistry h h' f r = record {
  ids_distinct = rw f.by_id_same r.ids_distinct;
  macs_distinct = rw f.by_mac_same r.macs_distinct;
  ids_match = λ id q e. f.id_same q ∙ r.ids_match id q (rw f.by_id_same at e);
  macs_match = λ k q e. rw (f.mac_same q) (r.macs_match k q (rw f.by_mac_same at e));
  live_by_id = λ k q e live.
      rw (f.by_id_same, f.id_same q)
        (r.live_by_id k q (rw f.by_mac_same at e) (f.live_before q live));
  live_by_mac = λ id q k e m live.
      rw f.by_mac_same (
        r.live_by_mac id q k (rw f.by_id_same at e) (rw (f.mac_same q) at m)
          (f.live_before q live));
}
