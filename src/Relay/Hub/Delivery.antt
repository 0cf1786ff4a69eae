-- ===== src/Relay/Hub/Delivery.antt =====
-- `forward` of internal/relay/relay.go: who gets a frame.
use wsn.Prelude.{
  ◌==◌, if◌then◌else◌, Bool-cases, among, nat_eq, bytes_key, Map, Distinct, Entry, lookup-of_Entry,
  ℕ, ◌≡◌, refl, ◌≢◌, inl, inr, true, false, List, [], ◌∷◌, arith,
}
use wsn.Protocol.{Bytes}
use wsn.Relay.Peer.{Peer, offer}
use wsn.Relay.Hub.{Hub, update, others, deliver}

abbrev pub NoRepeat : List ℕ → Type 0
NoRepeat [] = Unit
NoRepeat (p ∷ ps) = (among p ps ≡ false) × NoRepeat ps

module _ (times : ℕ → ℕ) (frame : Bytes) where
  pub peers-deliver :
      (ps : List ℕ) (h : Hub) (q : ℕ)
      → NoRepeat ps
      → (deliver times frame ps h).peers q
        ≡ (if among q ps then offer (times q) frame (h.peers q) else h.peers q)
  unfolding deliver
  peers-deliver [] h q n = refl
  peers-deliver (p ∷ ps) h q n =
      let next : Hub = record h { peers = update h.peers p (offer (times p) frame (h.peers p)) } in
      ground (arith, peers-deliver ps next q n.1)

  pub maps-deliver :
      (ps : List ℕ) (h : Hub)
      → ((deliver times frame ps h).by_id ≡ h.by_id)
        × ((deliver times frame ps h).by_mac ≡ h.by_mac)
  unfolding deliver
  maps-deliver [] h = (refl, refl)
  maps-deliver (p ∷ ps) h = maps-deliver ps _

-- A peer other than the sender that stands in the map.
abbrev pub Other : ℕ → Map Bytes ℕ → ℕ → Type 0
Other sender m q = (q ≢ sender) × ((id : Bytes) × Entry id q m)

pub others-Other :
    (sender : ℕ) (m : Map Bytes ℕ) (q : ℕ) → among q (others sender m) ≡ true → Other sender m q
unfolding others
others-Other sender [] q h = cc
others-Other sender ((id, p) ∷ m) q h = elim (Bool-cases (p == sender)) [
  | inl own ↦ deeper (others-Other sender m q (ground arith))
  | inr foreign ↦ elim (Bool-cases (p == q)) [
    | inl same ↦ (ground arith, (id, inl (refl, ground arith)))
    | inr apart ↦ deeper (others-Other sender m q (ground arith))
  ]
]
  where
    deeper : Other sender m q → Other sender ((id, p) ∷ m) q
    deeper (ne, (j, e)) = (ne, (j, inr e))

pub among-others :
    (sender : ℕ) (m : Map Bytes ℕ) (q : ℕ) (id : Bytes)
    → q ≢ sender
    → Entry id q m
    → among q (others sender m) ≡ true
unfolding others
among-others sender [] q id ne e = absurd e
among-others sender ((j, p) ∷ m) q id ne (inl e) = ground arith
among-others sender ((j, p) ∷ m) q id ne (inr e) = ground (arith, among-others sender m q id ne e)

pub others-NoRepeat :
    (sender : ℕ) (peers : ℕ → Peer) (m : Map Bytes ℕ)
    → Distinct m
    → ((id : Bytes) (q : ℕ) → Entry id q m → (peers q).id ≡ id)
    → NoRepeat (others sender m)
unfolding others
others-NoRepeat sender peers [] d named = tt
others-NoRepeat sender peers ((id, p) ∷ m) d named =
    let rest = others-NoRepeat sender peers m d.1 (λ j q e. named j q (inr e)) in
    elim (Bool-cases (p == sender)) [
      | inl own ↦ rw own rest
      | inr foreign ↦ rw foreign (fresh, rest)
    ]
  where
    fresh : among p (others sender m) ≡ false
    fresh = elim (Bool-cases (among p (others sender m))) [
      | inr absent ↦ absent
      | inl twice ↦
          let (ne, (j, e)) = others-Other sender m p twice in
          let found = lookup-of_Entry j p m d.1 e in
          let j_named = named j p (inr e) in
          let id_named = named id p (inl (refl, refl)) in ground arith
    ]
