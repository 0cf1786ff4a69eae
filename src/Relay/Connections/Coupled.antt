-- ===== src/Relay/Connections/Coupled.antt =====
-- The places of pending handshakes of internal/relay/relay.go go with the sessions, however requests,
-- sessions and reloads interleave.

use wsn.Relay.Connections.Agree.{
  Agree, Agree-set, agrees-pending, agrees-serving, arrives-Agree, both-eq_some, has_peer,
  refused-eq_some, session-Agree,
}
use wsn.Relay.Schedule.Revocation.{IsOrderly, init-IsOrderly, step-IsOrderly}
use wsn.Relay.Schedule.Settled.{settled, settled-IsAuthorized}
use wsn.Relay.Schedule.{is_doomed, is_quiet, World, Reload}
use wsn.Prelude.{All, Bool, Bool-cases, ◌⊎◌, ◌&&◌, not, Distinct, lookup-of_Entry, Entry}
use wsn.Relay.Peer.{Peer}
use wsn.Relay.Hub.Authorized.{IsAuthorized}
use wsn.Protocol.{Bytes}
use wsn.Relay.Schedule.{quiet, set_phase, is_serving}
use wsn.Relay.Hub.{AuthorizedClient}
use wsn.Relay.Slots.Bounded.{
  unavailable_iff, arrive-AreCounted, count_pending, AreCounted, slot_step-AreCounted,
}
use wsn.Relay.Connections.{
  RelayEvent, arrives, new_relay, refuses, relay_step, run_relay, session, holds_place, Relay,
  places,
}
use wsn.Relay.Schedule.Invariant.{is_known}
use wsn.Prelude.{
  ◌↔◌, nat_eq, bytes_key, Map, Option-cases, inl, inr, ◌≤◌, lookup, subst, sym, List, [], arith,
  false, get_elem?, refl, some, true, ℕ, ◌∷◌, ◌≡◌,
}
use mathlib.Core.Option
use wsn.Prelude.{nat_eq, bytes_key, get_elem?}
use wsn.Relay.Schedule.Safe
use wsn.Prelude.{if-eq_some}
use wsn.Relay.Slots.{
  service_unavailable, arrive_step, pending, finished, refused, serving, returned, authenticated,
  Slots,
}
use wsn.Relay.Schedule.{
  accept, leave, look_up, step, Phase, registered, leaving, closed, Settings, Event,
}

-- The places have the right number, the sessions are safe, and each handler stands where its place says.
record IsCoupled (capacity : ℕ) (r : Relay) : Type 0 where
  counted : AreCounted capacity r.slots
  safe : IsOrderly r.world
  agree : Agree r.slots.handlers r.world.phase

All-of_lookup :
    (P : Bytes → ℕ → Type 0) (m : Map Bytes ℕ)
    → Distinct m
    → ((id : Bytes) (q : ℕ) → lookup id m ≡ some q → P id q)
    → All (λ (e : Bytes × ℕ). P e.0 e.1) m
All-of_lookup P m d each = of_entries m (λ id q e. each id q (lookup-of_Entry id q m d e))
  where
    of_entries :
        (l : Map Bytes ℕ)
        → ((id : Bytes) (q : ℕ) → Entry id q l → P id q)
        → All (λ (e : Bytes × ℕ). P e.0 e.1) l
    of_entries [] h = tt
    of_entries ((id, q) ∷ l) h = (h id q (inl (refl, refl)), of_entries l (λ j r e. h j r (inr e)))

quiet-of_is : (r : Reload) → is_quiet r ≡ true → r ≡ quiet
quiet-of_is quiet h = refl
quiet-of_is _ h = cc

-- No reload is under way, and the peer serves, was not stopped and is not to be stopped by a handler
-- in `hub.add` that replaced it.
abbrev pub is_undisturbed : World → ℕ → Bool
is_undisturbed w q =
    is_quiet w.reloading
    && (is_serving (w.phase q) && (not (w.hub.peers q).stopped && not (is_doomed q w.owed)))

module _ (capacity : ℕ) (s : Settings) where
  places-AreCounted :
      (e : Event) (sl sl' : Slots)
      → AreCounted capacity sl
      → places e sl ≡ some sl'
      → AreCounted capacity sl'
  places-AreCounted (look_up p id) sl sl' v e =
      let (held, same) = if-eq_some (holds_place (get_elem? sl.handlers p)) sl e in
      subst (AreCounted capacity) (sym same) v
  places-AreCounted (accept p) sl sl' v e =
      slot_step-AreCounted capacity (authenticated p) sl sl' v e
  places-AreCounted (leave p) sl sl' v e = slot_step-AreCounted capacity (finished p) sl sl' v e
  places-AreCounted _ sl sl' v e = subst (AreCounted capacity) (ground arith) v

  relay_step-IsCoupled :
      (e : RelayEvent) (r r' : Relay)
      → IsCoupled capacity r
      → relay_step s e r ≡ some r'
      → IsCoupled capacity r'
  unfolding relay_step
  relay_step-IsCoupled arrives r r' v e =
      subst (IsCoupled capacity) {x = record r { slots = (arrive_step r.slots).0 }} (ground arith)
        (record {
          counted = arrive-AreCounted capacity r.slots v.counted;
          safe = v.safe;
          agree = arrives-Agree r.slots r.world.phase v.agree;
        })
  relay_step-IsCoupled (refuses p) r r' v e =
      let (left, given) = both-eq_some (some (set_phase p closed r.world)) _ e in
      let (held, changed) = refused-eq_some p r.slots r'.slots given in
      let unknown = agrees-pending (r.world.phase p) (rw held at (v.agree p)) in
      let same : set_phase p closed r.world ≡ r'.world = ground arith in
      record {
        counted = slot_step-AreCounted capacity (refused p) r.slots r'.slots v.counted given;
        safe = subst IsOrderly same (Safe.close-IsSafe s (settled r.world) v.safe p unknown);
        agree =
            rw (sym same, changed)
              (Agree-set r.slots.handlers r.world.phase v.agree p closed pending returned held
                refl);
      }
  relay_step-IsCoupled (session x) r r' v e =
      let (moved, placed) = both-eq_some (step s x r.world) (places x r.slots) e in
      record {
        counted = places-AreCounted x r.slots r'.slots v.counted placed;
        safe = step-IsOrderly s x r.world r'.world v.safe moved;
        agree = session-Agree s r.world r'.world r.slots r'.slots v.agree x moved placed;
      }

  run_relay-IsCoupled :
      (es : List RelayEvent) (r r' : Relay)
      → IsCoupled capacity r
      → run_relay s es r ≡ some r'
      → IsCoupled capacity r'
  unfolding run_relay Option.bind
  run_relay-IsCoupled [] r r' v e = subst (IsCoupled capacity) (ground arith) v
  run_relay-IsCoupled (x ∷ es) r r' v e = elim (Option-cases (relay_step s x r)) [
    | inl stuck ↦ ground arith
    | inr (next, first) ↦
        run_relay-IsCoupled es next r' (relay_step-IsCoupled x r next v first) (ground arith)
  ]

  has_peer-of_known : (ph : Phase) → is_known ph ≡ true → has_peer ph ≡ true
  has_peer-of_known registered h = refl
  has_peer-of_known Phase.serving h = refl
  has_peer-of_known leaving h = refl
  has_peer-of_known _ h = cc

  -- However requests arrive, handshakes fail and succeed, sessions run and end, and reloads come in
  -- between: the handshakes that are pending are never more than the channel has places, whose values
  -- are as many as they, and a request is answered with 503 exactly when they are as many as the places;
  -- every peer that the hub holds by its identity belongs to a handler that has given its place back
  -- and has not returned, and either is one that the current table lists with the same virtual MAC, or
  -- a reload is under way, or the peer does not serve, was stopped, or is to be stopped by a handler
  -- that replaced it.
  pub connections_coupled :
      (clients : Map Bytes AuthorizedClient) (peers : ℕ → Peer) (es : List RelayEvent) (r : Relay)
      → run_relay s es (new_relay clients peers capacity) ≡ some r
      → (count_pending r.slots.handlers ≤ capacity)
        × (r.slots.occupied ≡ count_pending r.slots.handlers)
        × (((arrive_step r.slots).1 ≡ service_unavailable)
            ↔ (count_pending r.slots.handlers ≡ capacity))
        × All
            (λ (e : Bytes × ℕ).
              (get_elem? r.slots.handlers e.1 ≡ some serving)
              × ((is_undisturbed r.world e.1 ≡ false)
                  ⊎ IsAuthorized r.world.clients
                      (r.world.hub.peers e.1).id
                      (r.world.hub.peers e.1).mac))
            r.world.hub.by_id
  connections_coupled clients peers es r reached =
      let v =
        run_relay-IsCoupled es (new_relay clients peers capacity) r
          (record {
            counted = record { capacity_same = refl; counted = refl; bounded = omega arith };
            safe = init-IsOrderly s clients peers;
            agree = λ q. refl;
          })
          reached in
      (
        ground (arith, v.counted.counted, v.counted.bounded),
        v.counted.counted,
        unavailable_iff capacity r.slots v.counted,
        All-of_lookup
            (λ id q.
              (get_elem? r.slots.handlers q ≡ some serving)
              × ((is_undisturbed r.world q ≡ false)
                  ⊎ IsAuthorized r.world.clients (r.world.hub.peers q).id
                      (r.world.hub.peers q).mac))
            r.world.hub.by_id v.safe.registry.ids_distinct
            (λ id q at.
              let known = has_peer-of_known (r.world.phase q) (v.safe.known_by_id id q at) in
              (
                agrees-serving (get_elem? r.slots.handlers q) (r.world.phase q) (v.agree q) known,
                elim (Bool-cases (is_undisturbed r.world q)) [
                  | inl calm ↦ inr (
                      settled-IsAuthorized r.world q v.safe
                        (quiet-of_is r.world.reloading (ground arith)) (ground arith) (ground arith)
                        (ground arith))
                  | inr disturbed ↦ inl disturbed
                ],
              )),
      )
