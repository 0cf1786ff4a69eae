-- ===== src/Commands/Wsnctl/Added.antt =====
-- `wsnctl add-client` of cmd/wsnctl/main.go end to end: the configuration that AddClient of
-- internal/provision/provision.go writes, on a relay of internal/relay/relay.go that is told of it, and
-- the handshake of the new client.
use wsn.Relay.Server.Reloads.{serve_loop-accepted}
use wsn.Relay.Hub.{AuthorizedClient}
use wsn.Handshake.Deployed.{deployed_handshake}
use wsn.Handshake.{fresh}
use wsn.Config.Valid.{AreDistinct, macs_of}
use wsn.Config.{RelayConfig, decode_key, parse_mac}
use wsn.Text.Order.{bytes_lt, insert_by}
use wsn.Relay.Server.{serve_loop, watch_reload, Server}
use wsn.Provision.Deployment.Commands.{prepare-IsPrepared, prepared-IsProvisioned}
use wsn.Provision.Deployment.{IsDeployment, IsSound, with_client-IsDeployment}
use wsn.Commands.Wsnctl.Sound.{HasRandom}
use wsn.Commands.Wsnctl.Revoked.{signalled}
use wsn.Commands.Wsnctl.{Around, Exit, Flags, add_options, command_of, get, must, wsnctl}
use wsn.Provision.Plan.{ProvisionError, AddOptions, ProvisionedClient, State, plan_client}
use wsn.Provision.{
  client_id, Disk, add_client, add_prepared, finish, prepare, relay_config, save_state, with_client,
  write_relay_config,
}
use wsn.Protocol.{auth_ok, codes, Bytes}
use wsn.Prelude.{
  length, ℕ, Bool-cases, Elem, List, Result, [], ap, err, subst, sym, ◌∙◌, ◌∷◌, Bool, Option,
  Result-cases, arith, false, inl, inr, ok, refl, some, true, ◌≡◌,
}
use wsn.Formats.{ReadsBack, Formats}
mod Examples
use wsn.Client.Auth as ClientAuth
use wsn.Relay.Auth
use wsn.Conn.{binary}
use wsn.Commands.Wsnctl.{success, after}
use wsn.Relay.Server.{Status, running}
use wsn.Provision.{store}

store-files :
    (state : State) (d : Disk)
    → (store state d).0 ≡ true
    → ((store state d).1.state_file ≡ some state)
      × ((store state d).1.relay_file ≡ some (relay_config state.clients))
unfolding store save_state write_relay_config
store-files state d good = (ground arith, ground arith)

finish-ok :
    (c c' : ProvisionedClient) (o : Bool × Disk)
    → (finish c o).0 ≡ ok c'
    → (o.0 ≡ true) × (c ≡ c') × ((finish c o).1 ≡ o.1)
unfolding finish
finish-ok c c' (true, d) h = (refl, ground arith, refl)
finish-ok c c' (false, d) h = cc

-- What AddClient leaves in the directory where it returns a client.
add_client-ok :
    (f : Formats) (options : AddOptions) (key mac : Option Bytes) (d : Disk) (c : ProvisionedClient)
    → (add_client f options key mac d).0 ≡ ok c
    → (state : State) × (prepare f options key mac d ≡ ok (state, c))
      × ((add_client f options key mac d).1.state_file ≡ some (with_client state c))
      × ((add_client f options key mac d).1.relay_file
          ≡ some (relay_config (with_client state c).clients))
unfolding add_client add_prepared
add_client-ok f options key mac d c good = elim (Result-cases (prepare f options key mac d)) [
  | inl (e, p) ↦ let refused = rw p at good in cc
  | inr ((state, made), p) ↦
      let (written, same, left) =
        finish-ok made c (store (with_client state made) d) (rw p at good) in
      let (file, relay_file) = store-files (with_client state made) d written in
      (
        state,
        p ∙ ap (λ (x : ProvisionedClient). ok (state, x)) same,
        rw p (
            ap (λ (o : Disk). o.state_file) left
            ∙ file
            ∙ ap (λ (x : ProvisionedClient). some (with_client state x)) same),
        rw p (
            ap (λ (o : Disk). o.relay_file) left
            ∙ relay_file
            ∙ ap (λ (x : ProvisionedClient). some (relay_config (with_client state x).clients))
                same),
      )
]

wsnctl-add :
    (f : Formats) (a : Around) (args : List Bytes) (flags : Flags) (d : Disk)
    → a.parse args ≡ some flags
    → wsnctl f a (codes "add-client" ∷ args) d
      ≡ after (add_client f (add_options flags) a.key a.mac d)
unfolding wsnctl command_of
wsnctl-add f a args flags d parsed = rw parsed refl

ok-of_added :
    (o : Result ProvisionError ProvisionedClient)
    → must o ≡ success
    → (c : ProvisionedClient) × (o ≡ ok c)
ok-of_added (ok c) h = (c, refl)
ok-of_added (err e) h = cc

Elem-insert_by :
    (c : ProvisionedClient) (l : List ProvisionedClient) → Elem c (insert_by client_id c l)
Elem-insert_by c [] = inl refl
Elem-insert_by c (b ∷ l) = elim (Bool-cases (bytes_lt b.id c.id)) [
  | inl less ↦ rw less (inr (Elem-insert_by c l))
  | inr more ↦ rw more (inl refl)
]

module _ (f : Formats) (r : ReadsBack f) (a : Around) (args : List Bytes) (flags : Flags) (d : Disk)
    (s : Server) (parsed : a.parse args ≡ some flags) (sound : IsSound f d)
    (random : HasRandom (a, args)) where
  abbrev ran : Exit × Disk
  ran = wsnctl f a (codes "add-client" ∷ args) d

  -- The relay that has heard of the new client.
  abbrev told : Status × Server
  told = signalled f ran.1 s

  added :
      ran.0 ≡ success
      → (c : ProvisionedClient) × (state : State) × (c.id ≡ get flags (codes "id") [])
        × Elem c state.clients
        × IsDeployment f state
        × (ran.1.state_file ≡ some state)
        × (ran.1.relay_file ≡ some (relay_config state.clients))
  unfolding add_options
  added done =
      let same = wsnctl-add f a args flags d parsed in
      let (c, good) =
        ok-of_added (add_client f (add_options flags) a.key a.mac d).0
          (ap (λ (o : Exit × Disk). o.0) (sym same) ∙ done) in
      let (before, prepared, file, relay_file) =
        add_client-ok f (add_options flags) a.key a.mac d c good in
      let made = prepare-IsPrepared f (add_options flags) a.key a.mac d before c prepared in
      let able =
        prepared-IsProvisioned f (add_options flags) a.key a.mac d before c random.0 random.1
          made in
      let (inserted, kept) =
        with_client-IsDeployment f before c (sound before made.stored) able made.planned.new in
      (
        c,
        with_client before c,
        made.id_given,
        subst (λ (x : State). Elem c x.clients) (sym inserted) (Elem-insert_by c before.clients),
        kept,
        ap (λ (o : Exit × Disk). o.1.state_file) same ∙ file,
        ap (λ (o : Exit × Disk). o.1.relay_file) same ∙ relay_file,
      )

  -- Once `wsnctl add-client` in a directory with a sound deployment has ended without an error, the
  -- random source filling what it is given, and no two virtual MACs of the state that it wrote are the
  -- same, a relay that gets the directory's server.json and a SIGHUP goes on running and lets the new
  -- client in: with the key and the address that the texts of the stored client give, and any challenge
  -- of 32 bytes, each side of the handshake accepts what the other wrote, the relay under the identity
  -- that the flags name; given formats that read back what they print.
  pub wsnctl-add-admits :
      (hmac : Bytes → Bytes → Bytes) (challenge : Bytes) (max_frame_size : ℕ)
      → ran.0 ≡ success
      → ((state : State)
          → ran.1.state_file ≡ some state
          → AreDistinct (macs_of (relay_config state.clients).clients))
      → length challenge ≡ 32
      → (c : ProvisionedClient) × (state : State) × (client : AuthorizedClient) × (hello
          answer : Bytes)
        × (told.0 ≡ running)
        × (c.id ≡ get flags (codes "id") [])
        × (ran.1.state_file ≡ some state)
        × Elem c state.clients
        × (client.id ≡ c.id)
        × (decode_key f c.key ≡ ok client.key)
        × (parse_mac f c.mac ≡ ok client.mac)
        × (ClientAuth.authenticate hmac client.key c.id client.mac
              (fresh (binary challenge ∷ binary (auth_ok ∷ []) ∷ []))
            ≡ (
              ok tt,
              record { incoming = []; writes = []; sent = hello ∷ answer ∷ []; read_limit = 0 },
            ))
        × (Auth.authenticate hmac told.1.clients
              (some challenge)
              max_frame_size
              (fresh (binary hello ∷ binary answer ∷ []))
            ≡ (
              ok client,
              record {
                incoming = [];
                writes = [];
                sent = challenge ∷ (auth_ok ∷ []) ∷ [];
                read_limit = max_frame_size;
              },
            ))
  wsnctl-add-admits hmac challenge max_frame_size done apart size =
      let (c, state, named, inside, v, file, relay_file) = added done in
      let (clients, client, hello, answer, loads, made, key, mac, id, client_side, relay_side) =
        deployed_handshake f hmac state c challenge max_frame_size r v (apart state file) inside
          size in
      let heard =
        ap (λ (file : Option RelayConfig). serve_loop f (watch_reload f (file ∷ [])) s) relay_file
        ∙ serve_loop-accepted f (relay_config state.clients) clients s loads made in
      (
        c,
        state,
        client,
        hello,
        answer,
        ap (λ (o : Status × Server). o.0) heard,
        named,
        file,
        inside,
        id,
        key,
        mac,
        client_side,
        rw heard relay_side,
      )
