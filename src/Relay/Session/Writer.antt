-- ===== src/Relay/Session/Writer.antt =====
-- `writeLoop` of internal/relay/relay.go.
use wsn.Prelude.{
  nat_eq, bytes_key, length, ◌≤◌, ◌≡◌, refl, sym, ap, ◌∙◌, ◌⊎◌, inl, inr, true, false, List, [],
  ◌∷◌, ◌++◌, append_assoc, arith,
}
use wsn.Protocol.{Bytes}
use wsn.Relay.Peer.{Peer}
use wsn.Relay.Session.{
  first_of_queue, rest_of, Wakeup, done_closed, frame_ready, ticked, write_step, write_loop,
}

first-rest : (q : List Bytes) → q ≡ first_of_queue q ++ rest_of q
first-rest [] = refl
first-rest (frame ∷ q) = refl

few_first : (q : List Bytes) → length (first_of_queue q) ≤ 1
few_first [] = omega arith
few_first (frame ∷ q) = omega arith

-- What `writeLoop` writes is the front of the queue, in order: with no failed write in between, what
-- was queued is what was written and then what is left. After a failed write, the frame that was
-- taken for it is lost.
write_loop-order :
    (ws : List Wakeup) (p : Peer)
    → (lost : List Bytes) × (p.queue ≡ (write_loop ws p).1 ++ (lost ++ (write_loop ws p).0.queue))
      × (length lost ≤ 1)
      × ((lost ≡ []) ⊎ ((write_loop ws p).0.stopped ≡ true))
unfolding write_loop write_step
write_loop-order [] p = ([], refl, omega arith, inl refl)
write_loop-order (done_closed ∷ ws) p = ([], refl, omega arith, inl refl)
write_loop-order (frame_ready true ∷ ws) p =
    let taken : Peer = record p { queue = rest_of p.queue } in
    let (lost, order, few, why) = write_loop-order ws taken in
    (
      lost,
      first-rest p.queue
          ∙ ap (λ (q : List Bytes). first_of_queue p.queue ++ q) order
          ∙ sym (append_assoc (first_of_queue p.queue) (write_loop ws taken).1 _),
      few,
      why,
    )
write_loop-order (frame_ready false ∷ ws) p =
    (first_of_queue p.queue, first-rest p.queue, few_first p.queue, inr refl)
write_loop-order (ticked true ∷ ws) p = write_loop-order ws p
write_loop-order (ticked false ∷ ws) p = ([], refl, omega arith, inl refl)
