-- ===== src/Relay/Schedule/Revocation.antt =====
-- What the sessions of internal/relay/relay.go promise, however they interleave with reloads.
use wsn.Prelude.{
  ◌⊎◌, ◌||◌, Option-cases, nat_eq, bytes_key, Map, lookup, ℕ, ◌≡◌, refl, ap, subst, ◌∙◌, inl, inr,
  Bool, true, false, some, List, [], ◌∷◌, arith,
}
use mathlib.Core.Option
use wsn.Protocol.{Bytes, mac_key}
use wsn.Relay.Peer.{Peer}
use wsn.Relay.Hub.{Hub, AuthorizedClient, remove_peer, stop_peer}
use wsn.Relay.Session.{read_step}
use wsn.Relay.Hub.Authorized.{IsAuthorized}
use wsn.Relay.Hub.Removal.{remove_peer-eq_some}
use wsn.Relay.Schedule.{
  World, Event, look_up, accept, register, recheck, write, leave, receive, reload, scan, stop_next,
  Settings, quiet, swapped, stopping, Reload, is_serving, step, run, init, stop_head, is_idle,
  is_accepted, is_registered, is_leaving, is_quiet, is_swapped, client_of, accept_at, set_phase,
  set_hub, serves_or_leaves, looked_up, closed,
}
use wsn.Relay.Schedule.Invariant.{is_active, IsSafe}
use wsn.Relay.Schedule.Safe
use wsn.Relay.Schedule.Settled.{
  settled, settle-Fades, accept-Fades, register-Fades, leave-Fades, stop_owed-Fades,
  stop_head-Fades, stale_peers-settle, mac-settle, is_listed-settled, settled-IsAuthorized,
  IsSafe-Faded,
}
use wsn.Relay.Schedule.Fading.{read_step-Fades, write_at-Fades}
use wsn.Relay.Schedule.{write_at, register_at, stop_replaced, stop_owed, next_owed, owes, is_doomed}
use wsn.Relay.Hub.{remove_at}
use wsn.Prelude.{not, ◌&&◌}
use wsn.Prelude.{gated-eq_some, if-eq_some, map-eq_some}

-- The invariant holds of the sessions as they will be once the stops that are owed are made.
abbrev pub IsOrderly : World → Type 0
IsOrderly w = IsSafe (settled w)

module _ (s : Settings) where
  stop_head-keeps :
      (w w' : World) (r : Reload)
      → IsOrderly w
      → w.reloading ≡ r
      → stop_head w r ≡ some w'
      → IsOrderly w'
  stop_head-keeps w w' quiet v r e = cc
  stop_head-keeps w w' swapped v r e = cc
  stop_head-keeps w w' (stopping []) v r e =
      subst IsOrderly (ground arith) (Safe.stop_none-IsSafe s (settled w) v r)
  stop_head-keeps w w' (stopping (p ∷ ps)) v r e =
      let done : World = record w { hub = stop_peer p w.hub; reloading = stopping ps } in
      let same : done ≡ w' = ground arith in
      subst IsOrderly same (
        IsSafe-Faded _ (settled done) (Safe.stop_head-IsSafe s (settled w) v p ps r)
          (stop_head-Fades p w) refl refl refl)

  -- Every event of every handler and of the reload keeps the invariant.
  pub step-IsOrderly :
      (e : Event) (w w' : World) → IsOrderly w → step s e w ≡ some w' → IsOrderly w'
  unfolding step
  step-IsOrderly (look_up p id) w w' v e =
      let (i, client, found, same) =
        gated-eq_some (is_idle (w.phase p)) (λ client. set_phase p (looked_up client) w)
          (lookup id w.clients) e in
      rw same (Safe.look_up-IsSafe s (settled w) v p client i)
  step-IsOrderly (accept p) w w' v e =
      let (client, found, same) = map-eq_some (accept_at s p w) (client_of (w.phase p)) e in
      rw same (
        IsSafe-Faded _ (settled (accept_at s p w client))
          (Safe.accept-IsSafe s (settled w) v p client found) (accept-Fades s p w client) refl refl
          refl)
  step-IsOrderly (register p) w w' v e =
      let (i, key, keyed, same) =
        gated-eq_some (is_accepted (w.phase p)) (register_at p w) (mac_key (w.hub.peers p).mac) e in
      let keyed_settled : mac_key ((settled w).hub.peers p).mac ≡ some key =
        ap mac_key (mac-settle w.owed w.hub p) ∙ keyed in
      rw same (
        IsSafe-Faded _ (settled (register_at p w key))
          (Safe.register-IsSafe s (settled w) v p key keyed_settled i) (register-Fades p key w) refl
          refl refl)
  step-IsOrderly (stop_replaced p) w w' v e =
      let (m, next, same) = map-eq_some (stop_owed w) (next_owed p w.owed) e in
      rw same (
        IsSafe-Faded (settled w) (settled (stop_owed w m)) v (stop_owed-Fades p w m next) refl refl
          refl)
  step-IsOrderly (recheck p) w w' v e =
      let (i, same) = if-eq_some (is_registered (w.phase p) && not (owes p w.owed)) _ e in
      rw same (
        subst (λ b. IsSafe (set_phase p (serves_or_leaves b) (settled w))) (is_listed-settled w p)
          (Safe.recheck-IsSafe s (settled w) v p (ground arith)))
  step-IsOrderly (receive p times message) w w' v e =
      let (i, r, read, same) =
        gated-eq_some (is_serving (w.phase p))
          (λ (r : Hub × Bool). set_phase p (serves_or_leaves r.1) (set_hub w r.0))
          (read_step s.max_frame_size p times message w.hub) e in
      let faded = read_step-Fades s.max_frame_size p times message w.hub r read in
      rw same (
        IsSafe-Faded _ (settled (set_phase p (serves_or_leaves r.1) (set_hub w r.0)))
          (Safe.serve-IsSafe s (settled w) v p r.1 i) (settle-Fades w.owed w.hub r.0 faded) refl
          refl refl)
  step-IsOrderly (write p wakeup) w w' v e =
      let (i, same) = if-eq_some (is_serving (w.phase p) || is_leaving (w.phase p)) _ e in
      rw same (
        IsSafe-Faded (settled w) (settled (set_hub w (write_at p wakeup w.hub))) v
          (settle-Fades w.owed w.hub _ (write_at-Fades p wakeup w.hub)) refl refl refl)
  step-IsOrderly (leave p) w w' v e =
      let (i, hub, removed, same) =
        gated-eq_some (is_leaving (w.phase p))
          (λ hub. set_phase p closed (set_hub w (stop_peer p hub))) (remove_peer p w.hub) e in
      let (key, keyed, result) = remove_peer-eq_some p w.hub hub removed in
      let keyed_settled : mac_key ((settled w).hub.peers p).mac ≡ some key =
        ap mac_key (mac-settle w.owed w.hub p) ∙ keyed in
      rw (same, result)
        (IsSafe-Faded _
          (settled (set_phase p closed (set_hub w (stop_peer p (remove_at key p w.hub)))))
          (Safe.leave-IsSafe s (settled w) v p key keyed_settled i) (leave-Fades p key w) refl refl
          refl)
  step-IsOrderly (reload clients) w w' v e =
      let (i, same) = if-eq_some (is_quiet w.reloading) _ e in
      rw same (Safe.reload-IsSafe s (settled w) v clients)
  step-IsOrderly scan w w' v e =
      let (i, same) = if-eq_some (is_swapped w.reloading) _ e in
      rw same (
        subst (λ ps. IsSafe (record (settled w) { reloading = stopping ps }))
          (stale_peers-settle w.clients w.owed w.hub w.hub.by_id)
          (Safe.scan-IsSafe s (settled w) v))
  step-IsOrderly stop_next w w' v e = stop_head-keeps w w' w.reloading v refl e

  run-IsOrderly :
      (es : List Event) (w w' : World) → IsOrderly w → run s es w ≡ some w' → IsOrderly w'
  unfolding run Option.bind
  run-IsOrderly [] w w' v e = subst IsOrderly (ground arith) v
  run-IsOrderly (ev ∷ es) w w' v e = elim (Option-cases (step s ev w)) [
    | inl stuck ↦ ground arith
    | inr (next, first) ↦ run-IsOrderly es next w' (step-IsOrderly ev w next v first) (ground arith)
  ]

  pub init-IsOrderly :
      (clients : Map Bytes AuthorizedClient) (peers : ℕ → Peer) → IsOrderly (init clients peers)
  init-IsOrderly clients peers = record {
    registry = record {
      ids_distinct = tt;
      macs_distinct = tt;
      ids_match = λ id p h. cc;
      macs_match = λ k p h. cc;
      live_by_id = λ k p h. cc;
      live_by_mac = λ id p k h. cc;
    };
    known_by_id = λ id q e. cc;
    known_by_mac = λ k q e. cc;
    present = λ q a live. cc;
    checked = λ q c live. cc;
  }

  module _ (clients : Map Bytes AuthorizedClient) (peers : ℕ → Peer) (es : List Event) (w : World)
      (reached : run s es (init clients peers) ≡ some w) where
    -- In every reachable state with no reload under way, each connection that serves, was not stopped
    -- and is not to be stopped by a handler in `hub.add` that replaced it belongs to a client that the
    -- current table lists with the same virtual MAC.
    pub serving-IsAuthorized :
        (q : ℕ)
        → w.reloading ≡ quiet
        → is_serving (w.phase q) ≡ true
        → (w.hub.peers q).stopped ≡ false
        → is_doomed q w.owed ≡ false
        → IsAuthorized w.clients (w.hub.peers q).id (w.hub.peers q).mac
    serving-IsAuthorized q still serves live spared =
        let v = run-IsOrderly es (init clients peers) w (init-IsOrderly clients peers) reached in
        settled-IsAuthorized w q v still serves live spared

    active-by_id :
        (p : ℕ)
        → is_active (w.phase p) ≡ true
        → (w.hub.peers p).stopped ≡ false
        → is_doomed p w.owed ≡ false
        → lookup (w.hub.peers p).id w.hub.by_id ≡ some p
    active-by_id p ap lp sp =
        let v = run-IsOrderly es (init clients peers) w (init-IsOrderly clients peers) reached in
        rw sp at (v.present p ap (ground arith))

    active-by_mac :
        (p k : ℕ)
        → is_active (w.phase p) ≡ true
        → (w.hub.peers p).stopped ≡ false
        → is_doomed p w.owed ≡ false
        → mac_key (w.hub.peers p).mac ≡ some k
        → lookup k w.hub.by_mac ≡ some p
    active-by_mac p k ap lp sp kp =
        let v = run-IsOrderly es (init clients peers) w (init-IsOrderly clients peers) reached in
        v.registry.live_by_mac (w.hub.peers p).id p k (active-by_id p ap lp sp) (ground arith)
          (ground arith)

    -- In every reachable state two connections of one identity, or with one virtual MAC, are the same
    -- if each has registered, has not begun to leave, was not stopped and is not to be stopped by a
    -- handler in `hub.add` that replaced it.
    pub active_is_unique :
        (p q : ℕ)
        → is_active (w.phase p) ≡ true
        → is_active (w.phase q) ≡ true
        → (w.hub.peers p).stopped ≡ false
        → (w.hub.peers q).stopped ≡ false
        → is_doomed p w.owed ≡ false
        → is_doomed q w.owed ≡ false
        → ((w.hub.peers p).id ≡ (w.hub.peers q).id)
          ⊎ ((k : ℕ) × (mac_key (w.hub.peers p).mac ≡ some k)
              × (mac_key (w.hub.peers q).mac ≡ some k))
        → p ≡ q
    active_is_unique p q ap aq lp lq sp sq (inl same) =
        let at_p = active-by_id p ap lp sp in let at_q = active-by_id q aq lq sq in ground arith
    active_is_unique p q ap aq lp lq sp sq (inr (k, kp, kq)) =
        let at_p = active-by_mac p k ap lp sp kp in
        let at_q = active-by_mac q k aq lq sq kq in ground arith
