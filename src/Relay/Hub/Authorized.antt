-- ===== src/Relay/Hub/Authorized.antt =====
-- `retainAuthorized` of internal/relay/relay.go.
use wsn.Prelude.{
  ◌==◌, if◌then◌else◌, Bool-cases, among, nat_eq, bytes_key, Map, lookup, Entry, Entry-of_lookup,
  lookup-of_Entry, ℕ, ◌≡◌, refl, ◌⊎◌, ◌↔◌, Option-cases, bytes_eq_iff, inl, inr, true, false, some,
  [], ◌∷◌, arith,
}
use wsn.Protocol.{Bytes}
use wsn.Relay.Peer.{Peer, stop}
use wsn.Relay.Hub.{Hub, AuthorizedClient, still_authorized, stale_peers, retain_authorized}
use wsn.Relay.Hub.Registry.{IsRegistry, peers-stop_all, maps-stop_all}
use wsn.Relay.Hub.Removal.{Fades, Fades-IsRegistry}

-- The table lists the identity with that virtual MAC.
abbrev pub IsAuthorized : Map Bytes AuthorizedClient → Bytes → Bytes → Type 0
IsAuthorized clients id mac =
    (client : AuthorizedClient) × (lookup id clients ≡ some client) × (client.mac ≡ mac)

pub still_authorized_iff :
    (clients : Map Bytes AuthorizedClient) (id mac : Bytes)
    → (still_authorized (lookup id clients) mac ≡ true) ↔ IsAuthorized clients id mac
unfolding still_authorized
still_authorized_iff clients id mac = elim (Option-cases (lookup id clients)) [
  | inl missing ↦ (λ h. ground arith, λ (client, found, same). ground arith)
  | inr (client, found) ↦ (
    λ h. (client, found, ground (arith, bytes_eq_iff client.mac mac)),
    λ (other, found', same). ground (arith, bytes_eq_iff client.mac mac),
  )
]

module _ (clients : Map Bytes AuthorizedClient) (peers : ℕ → Peer) where
  pub stale-of_Entry :
      (m : Map Bytes ℕ) (id : Bytes) (q : ℕ)
      → Entry id q m
      → still_authorized (lookup id clients) (peers q).mac ≡ false
      → among q (stale_peers clients peers m) ≡ true
  unfolding stale_peers
  stale-of_Entry [] id q e s = absurd e
  stale-of_Entry ((j, p) ∷ m) id q (inl e) s = ground arith
  stale-of_Entry ((j, p) ∷ m) id q (inr e) s = ground (arith, stale-of_Entry m id q e s)

  Entry-of_stale :
      (m : Map Bytes ℕ) (q : ℕ)
      → among q (stale_peers clients peers m) ≡ true
      → (id : Bytes) × Entry id q m × (still_authorized (lookup id clients) (peers q).mac ≡ false)
  unfolding stale_peers
  Entry-of_stale [] q h = cc
  Entry-of_stale ((j, p) ∷ m) q h =
      elim (Bool-cases (still_authorized (lookup j clients) (peers p).mac)) [
        | inl fine ↦ deeper (Entry-of_stale m q (ground arith))
        | inr stale ↦ elim (Bool-cases (p == q)) [
          | inl same ↦ (j, inl (refl, ground arith), ground arith)
          | inr other ↦ deeper (Entry-of_stale m q (ground arith))
        ]
      ]
    where
      deeper :
          (id : Bytes) × Entry id q m × (still_authorized (lookup id clients) (peers q).mac ≡ false)
          → (id : Bytes) × Entry id q ((j, p) ∷ m)
            × (still_authorized (lookup id clients) (peers q).mac ≡ false)
      deeper (id, e, s) = (id, inr e, s)

module _ (clients : Map Bytes AuthorizedClient) (h : Hub) (r : IsRegistry h) where
  abbrev retained : Hub
  retained = (retain_authorized clients h).0

  peers-retained :
      (q : ℕ)
      → retained.peers q
        ≡ (if among q (stale_peers clients h.peers h.by_id) then stop (h.peers q) else h.peers q)
  unfolding retain_authorized
  peers-retained q = peers-stop_all (stale_peers clients h.peers h.by_id) h q

  retain_authorized-Fades : Fades h retained
  unfolding retain_authorized
  retain_authorized-Fades = record {
    by_id_same = (maps-stop_all (stale_peers clients h.peers h.by_id) h).0;
    by_mac_same = (maps-stop_all (stale_peers clients h.peers h.by_id) h).1;
    id_same = λ q. ground (arith, peers-retained q);
    mac_same = λ q. ground (arith, peers-retained q);
    live_before = λ q live. ground (arith, peers-retained q);
  }

  retained_if :
      (id : Bytes) (q : ℕ)
      → lookup id h.by_id ≡ some q
      → retained.peers q ≡ (
          if still_authorized (lookup id clients) (h.peers q).mac
          then h.peers q
          else stop (h.peers q))
  retained_if id q e = elim (Bool-cases (still_authorized (lookup id clients) (h.peers q).mac)) [
    | inl fine ↦ elim (Bool-cases (among q (stale_peers clients h.peers h.by_id))) [
      | inl listed ↦
          let (j, entry, stale) = Entry-of_stale clients h.peers h.by_id q listed in
          let found = lookup-of_Entry j q h.by_id r.ids_distinct entry in
          ground (arith, r.ids_match j q, r.ids_match id q)
      | inr missing ↦ ground (arith, peers-retained q)
    ]
    | inr stale ↦ ground (
      arith,
      peers-retained q,
      stale-of_Entry clients h.peers h.by_id id q (Entry-of_lookup id q h.by_id e),
    )
  ]

  -- A registered peer whose client the given table lists with its virtual MAC is left as it was; any
  -- other registered peer is stopped and else unchanged.
  pub retain_authorized_lem :
      (id : Bytes) (q : ℕ)
      → lookup id h.by_id ≡ some q
      → (IsAuthorized clients id (h.peers q).mac × (retained.peers q ≡ h.peers q))
        ⊎ ((¬ IsAuthorized clients id (h.peers q).mac) × (retained.peers q ≡ stop (h.peers q)))
  retain_authorized_lem id q e =
      let agrees = still_authorized_iff clients id (h.peers q).mac in
      elim (Bool-cases (still_authorized (lookup id clients) (h.peers q).mac)) [
        | inl fine ↦ inl (agrees.0 fine, ground (arith, retained_if id q e))
        | inr stale ↦
            inr (λ a. let fine = agrees.1 a in ground arith, ground (arith, retained_if id q e))
      ]

  -- After `retainAuthorized` every live peer that the hub can reach, by its identity or by its
  -- virtual MAC, has its identity listed by the given table with its virtual MAC.
  pub retain-IsAuthorized-safe :
      (q : ℕ)
      → ((id : Bytes) × (lookup id retained.by_id ≡ some q))
        ⊎ ((k : ℕ) × (lookup k retained.by_mac ≡ some q))
      → (retained.peers q).stopped ≡ false
      → IsAuthorized clients (retained.peers q).id (retained.peers q).mac
  retain-IsAuthorized-safe q (inl (id, e)) live =
      let f = retain_authorized-Fades in
      let found : lookup id h.by_id ≡ some q = rw f.by_id_same at e in
      let fine : still_authorized (lookup (retained.peers q).id clients) (retained.peers q).mac
          ≡ true =
        ground (arith, retained_if id q found, r.ids_match id q found) in
      (still_authorized_iff clients _ _).0 fine
  retain-IsAuthorized-safe q (inr (k, e)) live =
      let f = retain_authorized-Fades in
      let found : lookup k h.by_mac ≡ some q = rw f.by_mac_same at e in
      let by_id = r.live_by_id k q found (f.live_before q live) in
      let fine : still_authorized (lookup (retained.peers q).id clients) (retained.peers q).mac
          ≡ true =
        ground (arith, retained_if (h.peers q).id q by_id) in
      (still_authorized_iff clients _ _).0 fine

  pub retain_authorized-IsRegistry : IsRegistry retained
  retain_authorized-IsRegistry = Fades-IsRegistry h retained retain_authorized-Fades r
