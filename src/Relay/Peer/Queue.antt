-- ===== src/Relay/Peer/Queue.antt =====
-- A frame offered to the send queue of a peer of internal/relay/relay.go.
use wsn.Prelude.{
  ltb, Bool-cases, nat_eq, bytes_key, length, length-append, ℕ, ◌+◌, ◌%◌, ◌^◌, ◌≤◌, ◌<◌, ◌≡◌, ◌⊎◌,
  inl, inr, [], ◌∷◌, ◌++◌, arith,
}
use wsn.Protocol.{Bytes}
use wsn.Relay.Peer.{Peer, offer}

-- What one frame does to one peer: with room the frame goes to the end of the queue and nothing else
-- changes; with a full queue the queue stays and the drop is counted. The peer is not stopped.
pub offer_lem :
    (now : ℕ) (frame : Bytes) (p : Peer)
    → ((length p.queue < p.capacity)
        × (offer now frame p ≡ record p { queue = p.queue ++ frame ∷ [] }))
      ⊎ ((p.capacity ≤ length p.queue)
          × ((offer now frame p).queue ≡ p.queue)
          × ((offer now frame p).dropped ≡ (p.dropped + 1) % 2 ^ 64)
          × ((offer now frame p).stopped ≡ p.stopped))
unfolding offer
offer_lem now frame p = elim (Bool-cases (ltb (length p.queue) p.capacity)) [
  | inl room ↦ inl (ground arith, ground arith)
  | inr full ↦ inr (ground arith, ground arith, ground arith, ground arith)
]

pub offer_keeps :
    (now : ℕ) (frame : Bytes) (p : Peer)
    → ((offer now frame p).id ≡ p.id)
      × ((offer now frame p).mac ≡ p.mac)
      × ((offer now frame p).stopped ≡ p.stopped)
      × ((offer now frame p).capacity ≡ p.capacity)
unfolding offer
offer_keeps now frame p = (ground arith, ground arith, ground arith, ground arith)

abbrev pub IsBounded : Peer → Type 0
IsBounded p = length p.queue ≤ p.capacity

pub offer-IsBounded :
    (now : ℕ) (frame : Bytes) (p : Peer) → IsBounded p → IsBounded (offer now frame p)
unfolding offer
offer-IsBounded now frame p b = ground (arith, length-append p.queue (frame ∷ []))
