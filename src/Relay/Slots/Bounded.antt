-- ===== src/Relay/Slots/Bounded.antt =====
-- The places that pending handshakes of internal/relay/relay.go take and give back.
use wsn.Prelude.{
  get_elem?, set, Option-cases, ℕ, zero, suc, ◌+◌, ◌≤◌, ◌≡◌, refl, subst, ◌↔◌, ◌-◌, inl, inr, some,
  List, [], ◌∷◌, ◌++◌, arith,
}
use wsn.Relay.Slots.{
  Handler, pending, serving, returned, service_unavailable, Slots, SlotEvent, arrive, refused,
  authenticated, finished, arrive_step, slot_step, run_slots, fresh_slots,
}

abbrev pub weight : Handler → ℕ
weight pending = 1
weight serving = 0
weight returned = 0

abbrev pub count_pending : List Handler → ℕ
count_pending [] = 0
count_pending (h ∷ hs) = weight h + count_pending hs

-- The channel holds one value for each pending handshake, and no more than it has places.
pub record AreCounted (capacity : ℕ) (s : Slots) : Type 0 where
  pub capacity_same : s.capacity ≡ capacity
  pub counted : s.occupied ≡ count_pending s.handlers
  pub bounded : s.occupied ≤ capacity

count_pending-append :
    (hs : List Handler) (h : Handler) → count_pending (hs ++ h ∷ []) ≡ count_pending hs + weight h
count_pending-append [] h = omega arith
count_pending-append (g ∷ hs) h = omega (arith, count_pending-append hs h)

count_pending-set :
    (hs : List Handler) (i : ℕ) (g h : Handler)
    → get_elem? hs i ≡ some g
    → count_pending (set hs i h) + weight g ≡ count_pending hs + weight h
count_pending-set [] i g h e = cc
count_pending-set (x ∷ hs) zero g h e = let same : x ≡ g = ground arith in ground arith
count_pending-set (x ∷ hs) (suc i) g h e = omega (arith, count_pending-set hs i g h e)

one_pending : (hs : List Handler) (i : ℕ) → get_elem? hs i ≡ some pending → 1 ≤ count_pending hs
one_pending [] i e = cc
one_pending (x ∷ hs) zero e = let same : x ≡ pending = ground arith in ground arith
one_pending (x ∷ hs) (suc i) e = omega (arith, one_pending hs i e)

module _ (capacity : ℕ) where
  pub arrive-AreCounted :
      (s : Slots) → AreCounted capacity s → AreCounted capacity (arrive_step s).0
  unfolding arrive_step
  arrive-AreCounted s v =
      ground
        (arith, count_pending-append s.handlers pending, count_pending-append s.handlers returned)

  pub slot_step-AreCounted :
      (e : SlotEvent) (s s' : Slots)
      → AreCounted capacity s
      → slot_step e s ≡ some s'
      → AreCounted capacity s'
  unfolding slot_step
  slot_step-AreCounted arrive s s' v h =
      let same : (arrive_step s).0 ≡ s' = ground arith in
      subst (AreCounted capacity) same (arrive-AreCounted s v)
  slot_step-AreCounted (refused i) s s' v h =
      ground (arith, count_pending-set s.handlers i pending returned)
  slot_step-AreCounted (authenticated i) s s' v h =
      ground (arith, count_pending-set s.handlers i pending serving)
  slot_step-AreCounted (finished i) s s' v h =
      ground (arith, count_pending-set s.handlers i serving returned)

  run_slots-AreCounted :
      (es : List SlotEvent) (s s' : Slots)
      → AreCounted capacity s
      → run_slots es s ≡ some s'
      → AreCounted capacity s'
  unfolding run_slots
  run_slots-AreCounted [] s s' v h = subst (AreCounted capacity) (ground arith) v
  run_slots-AreCounted (e ∷ es) s s' v h = elim (Option-cases (slot_step e s)) [
    | inl stuck ↦ ground arith
    | inr (next, first) ↦
        run_slots-AreCounted es next s' (slot_step-AreCounted e s next v first) (ground arith)
  ]

  pub reached-AreCounted :
      (es : List SlotEvent) (s : Slots)
      → run_slots es (fresh_slots capacity) ≡ some s
      → AreCounted capacity s
  reached-AreCounted es s h =
      run_slots-AreCounted es (fresh_slots capacity) s
        (record { capacity_same = refl; counted = refl; bounded = omega arith }) h

  -- The answer to a request.
  pub unavailable_iff :
      (s : Slots)
      → AreCounted capacity s
      → ((arrive_step s).1 ≡ service_unavailable) ↔ (count_pending s.handlers ≡ capacity)
  unfolding arrive_step
  unavailable_iff s v = (λ h. ground arith, λ h. ground arith)

  module _ (es : List SlotEvent) (s : Slots)
      (reached : run_slots es (fresh_slots capacity) ≡ some s) where
    -- However requests arrive, fail, succeed and end, the handshakes that are pending are never more
    -- than the channel has places, and a request is answered with 503 exactly when they are as many.
    pub pending_bounded :
        (count_pending s.handlers ≤ capacity)
        × (((arrive_step s).1 ≡ service_unavailable) ↔ (count_pending s.handlers ≡ capacity))
    unfolding arrive_step
    pending_bounded = let v = reached-AreCounted es s reached in (ground arith, unavailable_iff s v)

    -- A pending handler gives its place back without blocking, both where its handshake fails and
    -- where it succeeds, and the channel then holds one value less.
    pub release_never_blocks :
        (i : ℕ)
        → get_elem? s.handlers i ≡ some pending
        → (slot_step (refused i) s
            ≡ some (record s { occupied = s.occupied - 1; handlers = set s.handlers i returned }))
          × (slot_step (authenticated i) s
              ≡ some (record s { occupied = s.occupied - 1; handlers = set s.handlers i serving }))
          × (1 ≤ s.occupied)
    unfolding slot_step
    release_never_blocks i e =
        let v = reached-AreCounted es s reached in
        let some_pending = one_pending s.handlers i e in (ground arith, ground arith, ground arith)
