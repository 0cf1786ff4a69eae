-- ===== src/Relay/Hub/Forwarding.antt =====
-- `forward` of internal/relay/relay.go against the switching rule of an Ethernet segment.
use wsn.Prelude.{
  Bool-cases, Option-cases, among, nat_eq, bytes_key, length, length-take, lookup, Entry-of_lookup,
  lookup-of_Entry, ℕ, ◌≤◌, ◌≡◌, refl, subst, ◌≢◌, ◌⊎◌, inl, inr, true, false, none, some, List,
  arith,
}
use wsn.Protocol.{Bytes, mac_key, destination_mac, is_group_mac}
use wsn.Protocol.Mac.{mac_key-none_iff}
use wsn.Relay.Hub.{Hub, others, to_target, recipients, deliver, offer, forward}
use wsn.Relay.Hub.Removal.{Fades}
use wsn.Relay.Peer.Queue.{offer_keeps, IsBounded, offer-IsBounded}
use wsn.Relay.Hub.Registry.{IsRegistry}
use wsn.Relay.Hub.Delivery.{
  NoRepeat, Other, others-Other, among-others, others-NoRepeat, peers-deliver, maps-deliver,
}

-- The destination is the address of the peer `q`.
abbrev pub IsUnicastTo : Hub → Bytes → ℕ → Type 0
IsUnicastTo h frame q =
    (is_group_mac (destination_mac frame) ≡ false)
    × ((k : ℕ) × (mac_key (destination_mac frame) ≡ some k) × (lookup k h.by_mac ≡ some q))

-- The destination is a group, or nobody's address.
abbrev pub IsFlooded : Hub → Bytes → Type 0
IsFlooded h frame =
    (is_group_mac (destination_mac frame) ≡ true)
    ⊎ ((k : ℕ) × (mac_key (destination_mac frame) ≡ some k) × (lookup k h.by_mac ≡ none))

-- A switch sends a frame to the owner of its destination, or else to everybody, and never back.
abbrev pub Receives : Hub → ℕ → Bytes → ℕ → Type 0
Receives h sender frame q =
    (q ≢ sender)
    × (IsUnicastTo h frame q ⊎ (IsFlooded h frame × ((id : Bytes) × (lookup id h.by_id ≡ some q))))

length-destination_mac : (frame : Bytes) → 14 ≤ length frame → length (destination_mac frame) ≡ 6
unfolding destination_mac
length-destination_mac frame h = ground (arith, length-take 6 frame)

module _ (h : Hub) (sender : ℕ) (frame : Bytes) (r : IsRegistry h) where
  found : (q : ℕ) → Other sender h.by_id q → (id : Bytes) × (lookup id h.by_id ≡ some q)
  found q (ne, (id, e)) = (id, lookup-of_Entry id q h.by_id r.ids_distinct e)

  listed :
      (q : ℕ) (id : Bytes)
      → q ≢ sender
      → lookup id h.by_id ≡ some q
      → among q (others sender h.by_id) ≡ true
  listed q id ne e = among-others sender h.by_id q id ne (Entry-of_lookup id q h.by_id e)

  flood-NoRepeat : NoRepeat (others sender h.by_id)
  flood-NoRepeat =
      others-NoRepeat sender h.peers h.by_id r.ids_distinct
        (λ id q e. r.ids_match id q (lookup-of_Entry id q h.by_id r.ids_distinct e))

  -- A list of recipients that is right.
  record AreRecipients (targets : List ℕ) : Type 0 where
    once : NoRepeat targets
    sound : (q : ℕ) → among q targets ≡ true → Receives h sender frame q
    complete : (q : ℕ) → Receives h sender frame q → among q targets ≡ true

  flood-AreRecipients : IsFlooded h frame → AreRecipients (others sender h.by_id)
  flood-AreRecipients f = record {
    once = flood-NoRepeat;
    sound = λ q a. let o = others-Other sender h.by_id q a in (o.0, inr (f, found q o));
    complete = λ q c. flooded q c.0 c.1;
  }
    where
      flooded :
          (q : ℕ)
          → q ≢ sender
          → IsUnicastTo h frame q
            ⊎ (IsFlooded h frame × ((id : Bytes) × (lookup id h.by_id ≡ some q)))
          → among q (others sender h.by_id) ≡ true
      flooded q ne (inr (g, (id, e))) = listed q id ne e
      flooded q ne (inl (u, (k, m, e))) = ground arith

  known-AreRecipients :
      (k target : ℕ)
      → is_group_mac (destination_mac frame) ≡ false
      → mac_key (destination_mac frame) ≡ some k
      → lookup k h.by_mac ≡ some target
      → AreRecipients (to_target sender h.by_id (some target))
  unfolding to_target
  known-AreRecipients k target u m e = record {
    once = ground arith;
    sound = λ q a. (ground arith, inl (u, (k, m, ground arith)));
    complete = λ q c. unicast q c.0 c.1;
  }
    where
      unicast :
          (q : ℕ)
          → q ≢ sender
          → IsUnicastTo h frame q
            ⊎ (IsFlooded h frame × ((id : Bytes) × (lookup id h.by_id ≡ some q)))
          → among q (to_target sender h.by_id (some target)) ≡ true
      unicast q ne (inl (u', (k', m', e'))) = ground arith
      unicast q ne (inr (inl g, w)) = ground arith
      unicast q ne (inr (inr (k', m', e'), w)) = ground arith

  recipients-AreRecipients :
      14 ≤ length frame
      → (targets : List ℕ) × (recipients sender frame h ≡ some targets) × AreRecipients targets
  unfolding recipients
  recipients-AreRecipients long = elim (Bool-cases (is_group_mac (destination_mac frame))) [
    | inl group ↦ (others sender h.by_id, ground arith, flood-AreRecipients (inl group))
    | inr single ↦ keyed single (Option-cases (mac_key (destination_mac frame)))
  ]
    where
      keyed :
          is_group_mac (destination_mac frame) ≡ false
          → (mac_key (destination_mac frame) ≡ none)
            ⊎ ((k : ℕ) × (mac_key (destination_mac frame) ≡ some k))
          → (targets : List ℕ) × (recipients sender frame h ≡ some targets) × AreRecipients targets
      keyed single (inl short) = absurd (
          omega (
            arith,
            (mac_key-none_iff (destination_mac frame)).0 short,
            length-destination_mac frame long,
          ))
      keyed single (inr (k, m)) = elim (Option-cases (lookup k h.by_mac)) [
        | inl unknown ↦
            (others sender h.by_id, ground arith, flood-AreRecipients (inr (k, m, unknown)))
        | inr (target, e) ↦ (
          to_target sender h.by_id (some target),
          ground arith,
          known-AreRecipients k target single m e,
        )
      ]

-- What `forward` promises about the peer `q`.
abbrev pub IsForwarded : (ℕ → ℕ) → Hub → ℕ → Bytes → Hub → ℕ → Type 0
IsForwarded times h sender frame h' q =
    (Receives h sender frame q × (h'.peers q ≡ offer (times q) frame (h.peers q)))
    ⊎ ((¬ Receives h sender frame q) × (h'.peers q ≡ h.peers q))

module _ (times : ℕ → ℕ) (h : Hub) (sender : ℕ) (frame : Bytes) (r : IsRegistry h) where
  deliver-IsForwarded :
      (targets : List ℕ)
      → AreRecipients h sender frame r targets
      → (q : ℕ) → IsForwarded times h sender frame (deliver times frame targets h) q
  deliver-IsForwarded targets a q = elim (Bool-cases (among q targets)) [
    | inl chosen ↦
        inl (a.sound q chosen, ground (arith, peers-deliver times frame targets h q a.once))
    | inr passed ↦
        inr (λ c. cc (a.complete q c), ground (arith, peers-deliver times frame targets h q a.once))
  ]

  deliver-Fades :
      (targets : List ℕ)
      → AreRecipients h sender frame r targets
      → Fades h (deliver times frame targets h)
  deliver-Fades targets a = record {
    by_id_same = (maps-deliver times frame targets h).0;
    by_mac_same = (maps-deliver times frame targets h).1;
    id_same = λ q. ground (
      arith,
      peers-deliver times frame targets h q a.once,
      offer_keeps (times q) frame (h.peers q),
    );
    mac_same = λ q. ground (
      arith,
      peers-deliver times frame targets h q a.once,
      offer_keeps (times q) frame (h.peers q),
    );
    live_before = λ q live. ground (
      arith,
      peers-deliver times frame targets h q a.once,
      offer_keeps (times q) frame (h.peers q),
    );
  }

  -- On a registry, `forward` of a frame of at least 14 bytes does not panic, keeps the maps, and
  -- offers the frame once to exactly the peers that a switch sends it to; every other peer, the
  -- sender among them, is left as it was.
  pub forward-IsForwarded :
      14 ≤ length frame
      → (h' : Hub) × (forward times sender frame h ≡ some h')
        × Fades h h'
        × ((q : ℕ) → IsForwarded times h sender frame h' q)
  unfolding forward
  forward-IsForwarded long =
      let (targets, e, a) = recipients-AreRecipients h sender frame r long in
      (deliver times frame targets h, rw e, deliver-Fades targets a, deliver-IsForwarded targets a)

  -- No frame takes a queue past its capacity or stops a peer.
  forward-IsBounded :
      (h' : Hub)
      → 14 ≤ length frame
      → ((q : ℕ) → IsBounded (h.peers q))
      → forward times sender frame h ≡ some h'
      → (q : ℕ) → IsBounded (h'.peers q) × ((h'.peers q).stopped ≡ (h.peers q).stopped)
  forward-IsBounded h' long bounded e q =
      let (h'', e'', f, all) = forward-IsForwarded long in
      let same : h'' ≡ h' = ground arith in
      subst (λ (x : Hub). IsBounded (x.peers q) × ((x.peers q).stopped ≡ (h.peers q).stopped)) same
        (at_peer h'' (all q))
    where
      at_peer :
          (x : Hub)
          → IsForwarded times h sender frame x q
          → IsBounded (x.peers q) × ((x.peers q).stopped ≡ (h.peers q).stopped)
      at_peer x (inl (c, p)) = rw p (
        offer-IsBounded (times q) frame (h.peers q) (bounded q),
        (offer_keeps (times q) frame (h.peers q)).2,
      )
      at_peer x (inr (c, p)) = rw p (bounded q, refl)
