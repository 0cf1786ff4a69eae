-- ===== src/Client/Session/Examples.antt =====
-- A client of a bundle on a Linux machine, and its sessions, in the formats of Formats.Raw.
use wsn.Prelude.{
  Bool, true, false, Option, some, ok, [], ◌∷◌, ◌++◌, ◌≡◌, refl, replicate, bytes_eq, if◌then◌else◌,
  bytes_key, nat_eq, arith, List,
}
use wsn.Protocol.{Bytes, codes, auth_ok, subprotocol}
use wsn.Conn.{Conn, binary}
use wsn.Formats.Raw.{raw, raw-ReadsBack}
use wsn.Config.{validate_id, first_byte}
use wsn.Provision.Plan.{State, ProvisionedClient, linux}
use wsn.Provision.Deployment.{IsProvisioned}
use wsn.Provision.Render.{client_config}
use wsn.Client.Backoff.{Attempt}
use wsn.Tap.{System, done, failed, acquire, call, release}
use wsn.Tap.Handles.{Opens}
use wsn.Tap.Linux
use wsn.Tap.Linux.{linux_tap, linux_tap-IsLawful}
use wsn.Client.Session.{
  Meeting, Runner, run_session, run_sessions, connected, refused, cancelled, Dialled,
}
use wsn.Client.Session.Closed.{run_sessions-Opens}
use wsn.Client.Session.Created.{new_runner}
use wsn.Client.Session.Created.Deployed.{new_runner-client_config}

abbrev client : ProvisionedClient
client = record {
  id = codes "one";
  os = linux;
  role = codes "client";
  address = 10 ∷ 0 ∷ 0 ∷ 2 ∷ 24 ∷ [];
  mac = 2 ∷ 0 ∷ 0 ∷ 0 ∷ 0 ∷ 1 ∷ [];
  key = raw.encode_base64 (replicate 32 7);
  device = codes "wsn0";
  routes = [];
  egress = [];
}

abbrev state : State
state = record {
  version = 1;
  public_ip = codes "192.0.2.1";
  overlay = 10 ∷ 0 ∷ 0 ∷ 0 ∷ 24 ∷ [];
  gateway = 10 ∷ 0 ∷ 0 ∷ 1 ∷ [];
  dns = [];
  search = [];
  clients = client ∷ [];
}

client-IsProvisioned : IsProvisioned raw client
unfolding validate_id first_byte
client-IsProvisioned = record {
  id_valid = refl;
  key = replicate 32 7;
  key_printed = refl;
  key_size = refl;
  mac = 2 ∷ 0 ∷ 0 ∷ 0 ∷ 0 ∷ 1 ∷ [];
  mac_printed = refl;
  mac_six = refl;
  mac_bytes = ground arith;
  mac_unicast = refl;
}

abbrev files : Bytes → Option Bytes
files path =
    if bytes_eq path (codes "/etc/wsn/client.key")
    then some (client.key ++ codes "\n")
    else some (codes "CA")

abbrev any_certificate : Bytes → Bool
any_certificate _ = true

abbrev runner : Runner
runner = record {
  cfg = client_config state client;
  key = replicate 32 7;
  mac = 2 ∷ 0 ∷ 0 ∷ 0 ∷ 0 ∷ 1 ∷ [];
  roots = codes "CA";
}

new_runner-client_config_example :
    new_runner raw files any_certificate (client_config state client)
    ≡ ok (record {
      cfg = client_config state client;
      key = client-IsProvisioned.key;
      mac = client-IsProvisioned.mac;
      roots = codes "CA";
    })
unfolding client_config
new_runner-client_config_example =
    new_runner-client_config raw raw-ReadsBack files any_certificate state client
      client-IsProvisioned (codes "CA") refl refl refl

abbrev toy_hmac : Bytes → Bytes → Bytes
toy_hmac key message = replicate 32 1

abbrev conn : Conn
conn = record {
  incoming = binary (replicate 32 5) ∷ binary (auth_ok ∷ []) ∷ [];
  writes = true ∷ true ∷ [];
  sent = [];
  read_limit = 0;
}

abbrev meeting : Dialled → Meeting
meeting d = record {
  dialled = d;
  device_rounds = [];
  device_writes = [];
  pings = [];
  ending = cancelled;
}

abbrev round : Attempt
round = record {
  cancelled_before = false;
  elapsed = 5;
  cancelled_after = false;
  int63n = λ n. 0;
  cancelled_waiting = false;
}

-- Two devices open; the third request to attach fails.
abbrev machine : System
machine = record {
  answers = done 3 ∷ done 0 ∷ done 0 ∷ done 0 ∷ done 4 ∷ done 0 ∷ done 0 ∷ done 6 ∷ failed ∷ [];
  opened = [];
  closed = [];
}

abbrev rounds : List (Attempt × Meeting)
rounds =
    (round, meeting (connected 9 subprotocol conn))
    ∷ (round, meeting refused)
    ∷ (round, meeting refused)
    ∷ []

run_sessions-Opens_example :
    Opens [] machine (run_sessions toy_hmac runner linux_tap rounds machine)
run_sessions-Opens_example =
    run_sessions-Opens toy_hmac runner linux_tap linux_tap-IsLawful rounds machine

test_closed : (run_sessions toy_hmac runner linux_tap rounds machine).closed ≡ 7 ∷ 5 ∷ 4 ∷ 9 ∷ []
unfolding run_sessions run_session acquire call release Linux.open_device client_config
test_closed = refl
