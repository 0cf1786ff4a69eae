-- ===== src/Relay/Schedule/Safe.antt =====
-- Every event of the sessions of internal/relay/relay.go keeps the invariant.
use wsn.Relay.Session.{Wakeup}
use wsn.Prelude.{
  ◌==◌, bytes_eq_iff, nat_eq, bytes_key, Map, lookup, Entry-of_lookup, ℕ, ◌≡◌, refl, Bool, true,
  false, some, List, [], ◌∷◌, arith,
}
use wsn.Protocol.{Bytes, mac_key}
use wsn.Relay.Hub.{AuthorizedClient, add_at, remove_at, stop_peer, stale_peers, same_peer}
use wsn.Relay.Hub.Registry.{
  lookup-by_id_after, lookup-by_mac_after, peers-add_at, id_after, add_at-IsRegistry,
}
use wsn.Relay.Hub.Authorized.{stale-of_Entry}
use wsn.Relay.Hub.Removal.{
  Fades, Fades-IsRegistry, old_by_id, old_by_mac, kept_by_id, remove_at-IsRegistry,
}
use wsn.Relay.Schedule.{
  write_at, registered, closed, looked_up, quiet, swapped, stopping, World, Settings, is_serving,
  is_listed, is_idle, is_registered, client_of, is_accepted, is_leaving, set_phase, set_hub,
  accept_at, serves_or_leaves,
}
use wsn.Relay.Schedule.Fading.{Fades-refl, stop_peer-Fades, write_at-Fades, is_listed-Fades}
use wsn.Relay.Schedule.Invariant.{is_known, is_active, IsSafe, IsSafe-Fades}

module _ (s : Settings) (w : World) (v : IsSafe w) where
  pub look_up-IsSafe :
      (p : ℕ) (client : AuthorizedClient)
      → is_idle (w.phase p) ≡ true
      → IsSafe (set_phase p (looked_up client) w)
  look_up-IsSafe p client i =
      IsSafe-Fades w _ v (Fades-refl w.hub) (λ q k. ground arith) (λ q a. ground arith)
        (λ q c live. ground (arith, v.checked q))

  -- A handler that has no peer yet returns.
  pub close-IsSafe : (p : ℕ) → is_known (w.phase p) ≡ false → IsSafe (set_phase p closed w)
  close-IsSafe p unknown =
      IsSafe-Fades w _ v (Fades-refl w.hub) (λ q k. ground arith) (λ q a. ground arith)
        (λ q c live. ground (arith, v.checked q))

  pub recheck-IsSafe :
      (p : ℕ)
      → is_registered (w.phase p) ≡ true
      → IsSafe (set_phase p (serves_or_leaves (is_listed w p)) w)
  recheck-IsSafe p i =
      IsSafe-Fades w _ v (Fades-refl w.hub) (λ q k. ground arith) (λ q a. ground arith)
        (λ q c live. ground (arith, v.checked q))

  pub write-IsSafe : (p : ℕ) (wakeup : Wakeup) → IsSafe (set_hub w (write_at p wakeup w.hub))
  write-IsSafe p wakeup =
      let faded = write_at-Fades p wakeup w.hub in
      IsSafe-Fades w _ v faded (λ q k. k) (λ q a. a)
        (λ q c live. ground (
          arith,
          v.checked q,
          faded.live_before q,
          is_listed-Fades w (set_hub w (write_at p wakeup w.hub)) q faded refl,
        ))

  pub reload-IsSafe :
      (clients : Map Bytes AuthorizedClient)
      → IsSafe (record w { clients = clients; reloading = swapped })
  reload-IsSafe clients =
      IsSafe-Fades w _ v (Fades-refl w.hub) (λ q k. k) (λ q a. a) (λ q c live. ground arith)

  pub scan-IsSafe :
      IsSafe (record w { reloading = stopping (stale_peers w.clients w.hub.peers w.hub.by_id) })
  scan-IsSafe =
      IsSafe-Fades w _ v (Fades-refl w.hub) (λ q k. k) (λ q a. a)
        (λ q c live.
          let entry =
            Entry-of_lookup (w.hub.peers q).id q w.hub.by_id (v.present q (ground arith) live) in
          ground
            (arith, stale-of_Entry w.clients w.hub.peers w.hub.by_id (w.hub.peers q).id q entry))

  pub stop_head-IsSafe :
      (p : ℕ) (ps : List ℕ)
      → w.reloading ≡ stopping (p ∷ ps)
      → IsSafe (record w { hub = stop_peer p w.hub; reloading = stopping ps })
  unfolding stop_peer
  stop_head-IsSafe p ps e =
      IsSafe-Fades w _ v (stop_peer-Fades p w.hub) (λ q k. k) (λ q a. a)
        (λ q c live. ground (
          arith,
          v.checked q,
          (stop_peer-Fades p w.hub).live_before q,
          is_listed-Fades w (set_hub w (stop_peer p w.hub)) q (stop_peer-Fades p w.hub) refl,
        ))

  pub stop_none-IsSafe : w.reloading ≡ stopping [] → IsSafe (record w { reloading = quiet })
  stop_none-IsSafe e =
      IsSafe-Fades w _ v (Fades-refl w.hub) (λ q k. k) (λ q a. a)
        (λ q c live. ground (arith, v.checked q))

  module _ (p : ℕ) (client : AuthorizedClient) (found : client_of (w.phase p) ≡ some client) where
    apart_by_id : (id : Bytes) (q : ℕ) → lookup id w.hub.by_id ≡ some q → (p == q) ≡ false
    apart_by_id id q e = ground (arith, v.known_by_id id q)

    apart_by_mac : (k q : ℕ) → lookup k w.hub.by_mac ≡ some q → (p == q) ≡ false
    apart_by_mac k q e = ground (arith, v.known_by_mac k q)

    pub accept-IsSafe : IsSafe (accept_at s p w client)
    accept-IsSafe = record {
      registry = record {
        ids_distinct = v.registry.ids_distinct;
        macs_distinct = v.registry.macs_distinct;
        ids_match = λ id q e. ground (arith, apart_by_id id q e, v.registry.ids_match id q);
        macs_match = λ k q e. ground (arith, apart_by_mac k q e, v.registry.macs_match k q);
        live_by_id = λ k q e live. ground (arith, apart_by_mac k q e, v.registry.live_by_id k q);
        live_by_mac =
            λ id q k e m live. ground (arith, apart_by_id id q e, v.registry.live_by_mac id q k);
      };
      known_by_id = λ id q e. ground (arith, apart_by_id id q e, v.known_by_id id q);
      known_by_mac = λ k q e. ground (arith, apart_by_mac k q e, v.known_by_mac k q);
      present = λ q a live. ground (arith, v.present q);
      checked = λ q c live. ground (arith, v.checked q);
    }

  module _ (p key : ℕ) (keyed : mac_key (w.hub.peers p).mac ≡ some key)
      (ready : is_accepted (w.phase p) ≡ true) where
    pub register-IsSafe : IsSafe (set_phase p registered (set_hub w (add_at key p w.hub)))
    unfolding same_peer
    register-IsSafe = record {
      registry = add_at-IsRegistry key p w.hub keyed v.registry;
      known_by_id = λ id q e.
          ground (arith, lookup-by_id_after key p w.hub keyed v.registry id, v.known_by_id id q);
      known_by_mac = λ k q e.
          ground (arith, lookup-by_mac_after key p w.hub keyed v.registry k, v.known_by_mac k q);
      present = λ q a live. ground (
        arith,
        peers-add_at key p w.hub q,
        lookup-by_id_after key p w.hub keyed v.registry (w.hub.peers q).id,
        id_after key p w.hub keyed v.registry q,
        v.present q,
        bytes_eq_iff (w.hub.peers p).id (w.hub.peers q).id,
      );
      checked = λ q c live. ground (arith, peers-add_at key p w.hub q, v.checked q);
    }

  module _ (p key : ℕ) (keyed : mac_key (w.hub.peers p).mac ≡ some key)
      (ready : is_leaving (w.phase p) ≡ true) where
    abbrev pub gone : World
    gone = set_phase p closed (set_hub w (stop_peer p (remove_at key p w.hub)))

    gone-Fades : Fades (remove_at key p w.hub) gone.hub
    gone-Fades = stop_peer-Fades p (remove_at key p w.hub)

    gone_apart : (q : ℕ) → is_active (gone.phase q) ≡ true → (p == q) ≡ false
    gone_apart q a = ground arith

    pub leave-IsSafe : IsSafe gone
    unfolding remove_at stop_peer
    leave-IsSafe = record {
      registry =
          Fades-IsRegistry _ gone.hub gone-Fades
            (remove_at-IsRegistry key p w.hub keyed v.registry);
      known_by_id = λ id q e.
          ground (arith, old_by_id key p w.hub keyed v.registry id q e, v.known_by_id id q);
      known_by_mac = λ k q e.
          ground (arith, old_by_mac key p w.hub keyed v.registry k q e, v.known_by_mac k q);
      present = λ q a live. ground (
        arith,
        gone_apart q a,
        v.present q,
        kept_by_id key p w.hub keyed v.registry (w.hub.peers q).id q,
      );
      checked = λ q c live. ground (arith, v.checked q);
    }

  -- A round of `readLoop` ends, before what it changed of the hub.
  pub serve-IsSafe :
      (p : ℕ) (goes_on : Bool)
      → is_serving (w.phase p) ≡ true
      → IsSafe (set_phase p (serves_or_leaves goes_on) w)
  serve-IsSafe p goes_on i =
      IsSafe-Fades w _ v (Fades-refl w.hub) (λ q k. ground arith) (λ q a. ground arith)
        (λ q c live. ground (arith, v.checked q))
