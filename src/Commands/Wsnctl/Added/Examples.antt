-- ===== src/Commands/Wsnctl/Added/Examples.antt =====
-- A deployment without clients, whose first client is added while nobody is connected.
use wsn.Text.Order.{sort_by}
use wsn.Relay.Hub.{AuthorizedClient}
use wsn.Provision.Deployment.{IsDeployment, IsSound}
use wsn.Handshake.{fresh}
use wsn.Config.Valid.{AreDistinct, macs_of}
use wsn.Config.{decode_key, parse_mac, pos}
use wsn.Commands.Wsnctl.Revoked.{signalled}
use wsn.Provision.Plan.{ProvisionedClient, State}
use wsn.Provision.{
  relay_config, Disk, add_client, add_prepared, finish, save_state, with_client, write_relay_config,
}
use wsn.Protocol.{Bytes, auth_ok, codes}
use wsn.Prelude.{
  ◌∙◌, Elem, ap, arith, ok, replicate, subst, ◌++◌, [], bytes_eq, if◌then◌else◌, none, refl, some,
  true, ◌∷◌, ◌≡◌,
}
use wsn.Formats.Raw.{raw-ReadsBack, raw}
use wsn.Commands.Lists.{split_list}
use wsn.Provision.Plan.Examples.{
  state, options, client, disk, was_prepared, state-IsDeployment, key_bytes, six, key-IsFilled,
  six-IsFilled, bare_host,
}
use wsn.Commands.Wsnctl.{Around, Exit, Flags, command_of, wsnctl, success, add_options}
use wsn.Client.Auth as ClientAuth
use wsn.Relay.Auth
use wsn.Provision.{store}
use wsn.Relay.Hub.Examples.{empty}
use wsn.Text.{trim_space, split}
use wsn.Conn.{binary}
use wsn.Relay.Server.{Server, Status, running}
use wsn.Commands.Wsnctl.Added.{wsnctl-add-admits}

abbrev flags : Flags
flags name =
    if bytes_eq name (codes "id")
    then some (codes "one")
    else if bytes_eq name (codes "role")
    then some []
    else if bytes_eq name (codes "address")
    then some (10 ∷ 0 ∷ 0 ∷ 2 ∷ [])
    else if bytes_eq name (codes "routes")
    then some (172 ∷ 16 ∷ 0 ∷ 0 ∷ 24 ∷ [])
    else none

abbrev around : Around
around = record {
  parse = λ args. some flags;
  host = bare_host;
  init_host = record { exists = true; makes_directory = true; makes_certificates = true };
  key = some key_bytes;
  mac = some six;
  rotates = true;
}

abbrev ran : Exit × Disk
ran = wsnctl raw around (codes "add-client" ∷ []) disk

abbrev stored : State
stored = with_client state client

same_options : add_options flags ≡ options
unfolding add_options split_list trim_space split
same_options = refl

ran_eq : ran ≡ (success, (store stored disk).1)
unfolding wsnctl command_of add_client add_prepared finish store save_state write_relay_config
ran_eq = rw same_options (rw was_prepared refl)

abbrev server : Server
server = record {
  clients = [];
  hub = empty;
  handshake = pos 10000;
  idle = pos 90000;
  auth_slots = 2;
  max_frame_size = pos 2048;
  client_queue_size = pos 4;
}

disk-IsSound : IsSound raw disk
disk-IsSound found e =
    let same : state ≡ found = ground arith in subst (IsDeployment raw) same state-IsDeployment

stored-distinct : AreDistinct (macs_of (relay_config stored.clients).clients)
unfolding relay_config with_client sort_by
stored-distinct = (tt, tt)

stored_file : (store stored disk).1.state_file ≡ some stored
unfolding store save_state write_relay_config
stored_file = refl

ran-distinct :
    (found : State)
    → ran.1.state_file ≡ some found
    → AreDistinct (macs_of (relay_config found.clients).clients)
ran-distinct found e =
    let file : ran.1.state_file ≡ some stored =
      ap (λ (o : Exit × Disk). o.1.state_file) ran_eq ∙ stored_file in
    let same : stored ≡ found = ground arith in
    subst (λ (x : State). AreDistinct (macs_of (relay_config x.clients).clients)) same
      stored-distinct

abbrev toy_hmac : Bytes → Bytes → Bytes
toy_hmac k message = k ++ message

abbrev challenge : Bytes
challenge = replicate 32 9

abbrev told : Status × Server
told = signalled raw ran.1 server

wsnctl-add-admits_example :
    (c : ProvisionedClient) × (found : State) × (admitted : AuthorizedClient) × (hello
      answer : Bytes)
    × (told.0 ≡ running)
    × (c.id ≡ codes "one")
    × (ran.1.state_file ≡ some found)
    × Elem c found.clients
    × (admitted.id ≡ c.id)
    × (decode_key raw c.key ≡ ok admitted.key)
    × (parse_mac raw c.mac ≡ ok admitted.mac)
    × (ClientAuth.authenticate toy_hmac admitted.key c.id admitted.mac
          (fresh (binary challenge ∷ binary (auth_ok ∷ []) ∷ []))
        ≡ (
          ok tt,
          record { incoming = []; writes = []; sent = hello ∷ answer ∷ []; read_limit = 0 },
        ))
    × (Auth.authenticate toy_hmac told.1.clients
          (some challenge)
          2048
          (fresh (binary hello ∷ binary answer ∷ []))
        ≡ (
          ok admitted,
          record {
            incoming = [];
            writes = [];
            sent = challenge ∷ (auth_ok ∷ []) ∷ [];
            read_limit = 2048;
          },
        ))
wsnctl-add-admits_example =
    wsnctl-add-admits raw raw-ReadsBack around [] flags disk server refl disk-IsSound
      (key-IsFilled, six-IsFilled) toy_hmac challenge 2048 (ap (λ (o : Exit × Disk). o.0) ran_eq)
      ran-distinct refl
