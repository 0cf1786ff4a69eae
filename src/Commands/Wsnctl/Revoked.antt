-- ===== src/Commands/Wsnctl/Revoked.antt =====
-- `wsnctl revoke-client` of cmd/wsnctl/main.go end to end: the configuration that RevokeClient of
-- internal/provision/provision.go writes, on a relay of internal/relay/relay.go that is told of it.
mod Examples
use wsn.Relay.Server.Spared.{lookup-Elem, retain_authorized-spares}
use wsn.Relay.Hub.Authorized.{IsAuthorized, retain-IsAuthorized-safe}
use wsn.Relay.Auth.Sound.{authenticate-unknown}
use wsn.Conn.{binary, Conn, Incoming}
use wsn.Relay.Server.Table.{IsTable, authorized_clients-IsTable}
use wsn.Relay.Server.Reloads.{IsReachable, serve_loop-accepted}
use wsn.Relay.Hub.Registry.{IsRegistry}
use wsn.Relay.Hub.{Hub, retain_authorized}
use wsn.Provision.Deployment.{IsDeployment, revoked-IsDeployment}
use wsn.Provision.Bundle.Loads.{relay_config-load_relay}
use wsn.Relay.Server.{authorized_clients, Clients, Server, serve_loop, watch_reload}
use wsn.Provision.Plan.{ProvisionedClient, State}
use wsn.Relay.Server.{Status, running}
use wsn.Provision.{store}
use wsn.Provision.{
  Disk, finish, load_state, relay_config, revoke_client, revoke_loaded, save_state, without_id,
  write_relay_config,
}
use wsn.Protocol.{parse_hello, Bytes, codes}
use wsn.Prelude.{
  ◌⊎◌, lookup, none, subst, ℕ, Option, Result, ap, err, sym, ◌∙◌, nat_eq, bytes_key, if◌then◌else◌,
  All, Bool-cases, Elem, List, [], arith, bytes_eq, false, inl, inr, ok, refl, some, true, ◌∷◌, ◌≡◌,
}
use wsn.Formats.{ReadsBack, Formats}
use wsn.Config.Valid.{AreDistinct, ids_of, macs_of}
use wsn.Config.{RelayConfig, RelayClient, is_seen}
use wsn.Commands.Wsnctl.{Exit, success, must, after, Around, Flags, command_of, get, wsnctl}
use wsn.Relay.Auth.{unknown_client, authenticate}

-- The relay gets the directory's server.json and a SIGHUP.
abbrev pub signalled : Formats → Disk → Server → Status × Server
signalled f d s = serve_loop f (watch_reload f (d.relay_file ∷ [])) s

macs_distinct-without_id :
    (id : Bytes) (l : List ProvisionedClient)
    → AreDistinct (macs_of (relay_config l).clients)
    → AreDistinct (macs_of (relay_config (without_id id l)).clients)
unfolding relay_config
macs_distinct-without_id id [] d = tt
macs_distinct-without_id id (c ∷ l) d = elim (Bool-cases (bytes_eq c.id id)) [
  | inl gone ↦ rw gone (macs_distinct-without_id id l d.1)
  | inr stays ↦ rw stays (apart l d.0, macs_distinct-without_id id l d.1)
]
  where
    apart :
        (l : List ProvisionedClient)
        → All (λ t. bytes_eq c.mac t ≡ false) (macs_of (relay_config l).clients)
        → All (λ t. bytes_eq c.mac t ≡ false) (macs_of (relay_config (without_id id l)).clients)
    apart [] h = tt
    apart (e ∷ l) h = elim (Bool-cases (bytes_eq e.id id)) [
      | inl gone ↦ rw gone (apart l h.1)
      | inr stays ↦ rw stays (h.0, apart l h.1)
    ]

without_id-unseen :
    (id : Bytes) (l : List ProvisionedClient)
    → is_seen id (ids_of (relay_config (without_id id l)).clients) ≡ false
unfolding relay_config
without_id-unseen id [] = refl
without_id-unseen id (c ∷ l) = elim (Bool-cases (bytes_eq c.id id)) [
  | inl gone ↦ rw gone (without_id-unseen id l)
  | inr stays ↦ rw stays (rw stays (without_id-unseen id l))
]

Elem-without_id :
    (id : Bytes) (l : List ProvisionedClient) (c : RelayClient)
    → Elem c (relay_config l).clients
    → bytes_eq c.id id ≡ false
    → Elem c (relay_config (without_id id l)).clients
unfolding relay_config
Elem-without_id id [] c e differs = absurd e
Elem-without_id id (x ∷ l) c e differs = elim (Bool-cases (bytes_eq x.id id)) [
  | inl gone ↦ elim e [
    | inl same ↦ let clash : bytes_eq c.id id ≡ true = rw same gone in ground arith
    | inr e' ↦ rw gone (Elem-without_id id l c e' differs)
  ]
  | inr stays ↦ elim e [
    | inl same ↦ rw stays (inl same)
    | inr e' ↦ rw stays (inr (Elem-without_id id l c e' differs))
  ]
]

-- What a revocation without an error leaves in the directory.
revoke_client-relay_file :
    (id : Bytes) (d : Disk) (state : State)
    → load_state d ≡ ok state
    → (revoke_client id d).0 ≡ ok tt
    → (revoke_client id d).1.relay_file ≡ some (relay_config (without_id id state.clients))
unfolding revoke_client revoke_loaded store finish save_state write_relay_config
revoke_client-relay_file id d state loaded good = ground arith

-- A reachable peer of an identity that is not listed is stopped by a reload.
stopped-unlisted :
    (clients : Clients) (h : Hub) (q : ℕ) (id : Bytes)
    → IsRegistry h
    → lookup id clients ≡ none
    → IsReachable (retain_authorized clients h).0 q
    → ((retain_authorized clients h).0.peers q).id ≡ id
    → ((retain_authorized clients h).0.peers q).stopped ≡ true
stopped-unlisted clients h q id registry missing reach named =
    elim (Bool-cases ((retain_authorized clients h).0.peers q).stopped) [
      | inl stopped ↦ stopped
      | inr live ↦
          let (client, found, same) = retain-IsAuthorized-safe clients h registry q reach live in
          ground arith
    ]

ok-of_success : {E : Type 0} (o : Result E (Unit {0})) → must o ≡ success → o ≡ ok tt
ok-of_success (ok t) h = refl
ok-of_success (err e) h = cc

wsnctl-revoke :
    (f : Formats) (a : Around) (args : List Bytes) (flags : Flags) (d : Disk)
    → a.parse args ≡ some flags
    → wsnctl f a (codes "revoke-client" ∷ args) d
      ≡ after (revoke_client (get flags (codes "id") []) d)
unfolding wsnctl command_of
wsnctl-revoke f a args flags d parsed = rw parsed refl

module _ (f : Formats) (r : ReadsBack f) (a : Around) (args : List Bytes) (flags : Flags) (d : Disk)
    (state : State) (s : Server) (parsed : a.parse args ≡ some flags)
    (loaded : load_state d ≡ ok state) (sound : IsDeployment f state)
    (distinct : AreDistinct (macs_of (relay_config state.clients).clients))
    (registry : IsRegistry s.hub)
    (done : (wsnctl f a (codes "revoke-client" ∷ args) d).0 ≡ success) where
  abbrev revoked_id : Bytes
  revoked_id = get flags (codes "id") []

  abbrev remaining : RelayConfig
  remaining = relay_config (without_id revoked_id state.clients)

  -- The relay that has heard of the revocation.
  abbrev told : Status × Server
  told = signalled f (wsnctl f a (codes "revoke-client" ∷ args) d).1 s

  told-reloaded :
      (clients : Clients) × (told
        ≡ (running, record s { clients = clients; hub = (retain_authorized clients s.hub).0 }))
      × IsTable f clients remaining.clients
  told-reloaded =
      let same = wsnctl-revoke f a args flags d parsed in
      let good : (revoke_client revoked_id d).0 ≡ ok tt =
        ok-of_success (revoke_client revoked_id d).0
          (ap (λ (o : Exit × Disk). o.0) (sym same) ∙ done) in
      let file = revoke_client-relay_file revoked_id d state loaded good in
      let left = revoked-IsDeployment f state revoked_id sound in
      let apart = macs_distinct-without_id revoked_id state.clients distinct in
      let loads =
        relay_config-load_relay f r (record state { clients = without_id revoked_id state.clients })
          left apart in
      let (clients, made, t) = authorized_clients-IsTable f r remaining remaining loads in
      (
        clients,
        ap (λ (o : Exit × Disk). signalled f o.1 s) same
            ∙ ap (λ (file : Option RelayConfig). serve_loop f (watch_reload f (file ∷ [])) s) file
            ∙ serve_loop-accepted f remaining clients s loads made,
        t,
      )

  -- Once `wsnctl revoke-client` of a sound deployment, no two of whose virtual MACs are the same, has
  -- ended without an error, a relay with a registry that gets the directory's server.json and a SIGHUP
  -- goes on running and has cut the client off: a handshake whose hello has the client's identity ends
  -- with "unknown client" before anything is written, and every peer is stopped, or cannot be reached
  -- through the hub, or has another identity; given formats that read back what they print.
  pub wsnctl-revoke-cuts_off :
      (hmac : Bytes → Bytes → Bytes) (random : Option Bytes) (max_frame_size : ℕ) (c : Conn)
      (hello : Bytes) (rest : List Incoming) (q : ℕ)
      → c.incoming ≡ binary hello ∷ rest
      → parse_hello hello ≡ ok revoked_id
      → (told.0 ≡ running)
        × ((authenticate hmac told.1.clients random max_frame_size c).0 ≡ err unknown_client)
        × ((authenticate hmac told.1.clients random max_frame_size c).1.sent ≡ c.sent)
        × (((told.1.hub.peers q).stopped ≡ true)
            ⊎ ¬ (IsReachable told.1.hub q × ((told.1.hub.peers q).id ≡ revoked_id)))
  wsnctl-revoke-cuts_off hmac random max_frame_size c hello rest q i said =
      let (clients, e, t) = told-reloaded in
      let missing = t.nobody_else revoked_id (without_id-unseen revoked_id state.clients) in
      let refused =
        authenticate-unknown hmac clients random max_frame_size c hello revoked_id rest i said
          missing in
      rw e (
        refl,
        refused.0,
        refused.1,
        elim (Bool-cases ((retain_authorized clients s.hub).0.peers q).stopped) [
          | inl stops ↦ inl stops
          | inr live ↦ inr (λ (reach, named).
              let stops =
                stopped-unlisted clients s.hub q revoked_id registry missing reach named in
              cc)
        ],
      )

  -- Once `wsnctl revoke-client` of a sound deployment, no two of whose virtual MACs are the same, has
  -- ended without an error, a relay with a registry that gets the directory's server.json and a SIGHUP
  -- has left every other client alone: where it had the table of the deployment before, each peer that
  -- its hub holds by another identity, and that this table lists with the peer's virtual MAC, is as it
  -- was; given formats that read back what they print.
  pub wsnctl-revoke-spares :
      (id : Bytes) (q : ℕ)
      → authorized_clients f (relay_config state.clients) ≡ ok s.clients
      → bytes_eq id revoked_id ≡ false
      → lookup id s.hub.by_id ≡ some q
      → IsAuthorized s.clients id (s.hub.peers q).mac
      → told.1.hub.peers q ≡ s.hub.peers q
  wsnctl-revoke-spares id q made differs at allowed =
      let (clients, e, t) = told-reloaded in
      let loads = relay_config-load_relay f r state sound distinct in
      let (old, made', t_old) =
        authorized_clients-IsTable f r (relay_config state.clients) (relay_config state.clients)
          loads in
      let same : old ≡ s.clients = ground arith in
      let before = subst (λ x. IsTable f x (relay_config state.clients).clients) same t_old in
      let (c, inside, named) =
        lookup-Elem f s.clients (relay_config state.clients).clients id (s.hub.peers q).mac before
          allowed in
      let stays = Elem-without_id revoked_id state.clients c inside (rw named differs) in
      rw e (
        retain_authorized-spares f s.clients clients (relay_config state.clients).clients
          remaining.clients s.hub c q before t inside stays registry (rw named at)
          (rw named allowed))
