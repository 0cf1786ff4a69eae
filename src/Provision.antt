-- ===== src/Provision.antt =====
-- internal/provision/provision.go: the deployment state and the commands that change it. The
-- directory holds `state.json` and `server.json`, each as the value that its JSON decodes to. What a
-- write to the directory and the random source return is given as an argument.
pub mod Names
pub mod Plan
pub mod Resolver
pub mod Mac
pub mod Deployment
pub mod Render
pub mod Bundle
pub mod Enroll
pub mod Init
pub mod Stored
pub mod Environment
pub mod Certificates
mod Examples
use mathlib.Core.Option
use Prim.Native.Nat.{bit_and, bit_or}
use wsn.Prelude.{
  ltb, leb, ◌==◌, if◌then◌else◌, ltb→lt, leb→le, ==_iff, Bool-cases, Option-cases, bytes_eq,
  bytes_eq_iff, bytes_eq_refl, among, Eq, nat_eq, bytes_key, length, take, drop, Elem,
  length-append, take-append-drop, length-take, length-drop, All, All-append, Map, lookup, insert,
  remove, Distinct, Entry, lookup-insert, lookup-remove, insert-Distinct, remove-Distinct,
  Entry-of_lookup, lookup-of_Entry, Result, ◌>>=◌, ◌>>◌, refuse_if, or_err, Result-cases, ok, err,
  ℕ, zero, suc, ◌+◌, ◌-◌, ◌*◌, ◌/◌, ◌%◌, ◌^◌, ◌≤◌, ◌<◌, ◌≡◌, refl, sym, ap, subst, ◌∙◌, ◌≢◌, ◌↔◌,
  ◌⊎◌, inl, inr, Bool, true, false, not, ◌&&◌, ◌||◌, Option, none, some, List, [], ◌∷◌, ◌++◌, map,
  append_assoc, append-nil, arith,
}
use wsn.Protocol.{Bytes}
use wsn.Text.{sort_by}
use wsn.Formats.{Formats}
use wsn.Config.{RelayClient, RelayConfig, pos, default_max_frame_size}
use wsn.Provision.Plan.{
  ProvisionedClient, State, AddOptions, ProvisionError, unsupported_version, no_state,
  unknown_client, random_failed, write_failed, plan_client, bundle_error,
}
use wsn.Protocol.{codes}

-- The directory: its two files, and for each write to come whether it succeeds.
pub record Disk : Type 0 where
  pub state_file : Option State
  pub relay_file : Option RelayConfig
  pub writes : List Bool

-- `loadState`: a file that is missing or does not decode is `none`.
unfoldable pub load_state : Disk → Result ProvisionError State
load_state d = do
  state ← or_err d.state_file no_state
  refuse_if (not (state.version == 1)) unsupported_version
  ok state

abbrev pub next_write : List Bool → Bool
next_write [] = false
next_write (b ∷ bs) = b

abbrev pub later_writes : List Bool → List Bool
later_writes [] = []
later_writes (b ∷ bs) = bs

-- A write replaces the file or fails and leaves it: `SaveJSON` renames a temporary file.
unfoldable pub save_state : State → Disk → Bool × Disk
save_state state d = (
  next_write d.writes,
  record d {
    state_file = if next_write d.writes then some state else d.state_file;
    writes = later_writes d.writes;
  },
)

unfoldable pub relay_config : List ProvisionedClient → RelayConfig
relay_config clients = record {
  listen = codes "0.0.0.0:8080";
  path = codes "/wsn";
  health_path = codes "/healthz";
  max_frame_size = pos default_max_frame_size;
  client_queue_size = pos 256;
  handshake_timeout_ms = pos 10000;
  idle_timeout_ms = pos 90000;
  max_pending_handshakes = pos 32;
  clients = map (λ (c : ProvisionedClient). record { id = c.id; key = c.key; mac = c.mac }) clients;
}

unfoldable pub write_relay_config : State → Disk → Bool × Disk
write_relay_config state d = (
  next_write d.writes,
  record d {
    relay_file = if next_write d.writes then some (relay_config state.clients) else d.relay_file;
    writes = later_writes d.writes;
  },
)

-- The two writes that end `AddClient` and `RevokeClient`.
unfoldable pub store : State → Disk → Bool × Disk
unfolding save_state write_relay_config
store state d =
    let (saved, d') = save_state state d in
    if saved then write_relay_config state d' else (false, d')

unfoldable pub finish {ℓ} : {A : Type ℓ} → A → Bool × Disk → Result ProvisionError A × Disk
finish a (true, d) = (ok a, d)
finish a (false, d) = (err write_failed, d)

-- `randomMAC` on the bytes that `rand.Read` gave: locally administered and unicast.
abbrev pub local_mac : Bytes → Bytes
local_mac [] = []
local_mac (b ∷ rest) = bit_and (bit_or b 2) 0xfe ∷ rest

unfoldable pub random_mac : Option Bytes → Option Bytes
random_mac random = Option.map local_mac random

abbrev pub client_id : ProvisionedClient → Bytes
client_id c = c.id

unfoldable pub with_client : State → ProvisionedClient → State
with_client state c = record state { clients = sort_by client_id (state.clients ++ c ∷ []) }

module _ (f : Formats) where
  -- `AddClient` up to the change of the state: the state that was loaded and the client that is made.
  -- `key` and `mac` are what `rand.Read` makes of the key and of the bytes of the address.
  unfoldable pub prepare :
      AddOptions
      → Option Bytes
      → Option Bytes
      → Disk
      → Result ProvisionError (State × ProvisionedClient)
  unfolding load_state random_mac
  prepare options key mac d = do
    state ← load_state d
    draft ← plan_client f options state
    key' ← or_err key random_failed
    mac' ← or_err (random_mac mac) random_failed
    ok (state, record draft { mac = f.print_mac mac'; key = f.encode_base64 key' })

  unfoldable pub add_prepared :
      Disk
      → Result ProvisionError (State × ProvisionedClient)
      → Result ProvisionError ProvisionedClient × Disk
  unfolding finish store with_client
  add_prepared d (err e) = (err e, d)
  add_prepared d (ok (state, client)) = finish client (store (with_client state client) d)

  unfoldable pub add_client :
      AddOptions
      → Option Bytes
      → Option Bytes
      → Disk
      → Result ProvisionError ProvisionedClient × Disk
  unfolding prepare add_prepared
  add_client options key mac d = add_prepared d (prepare options key mac d)

-- The clients whose identity differs.
abbrev pub without_id : Bytes → List ProvisionedClient → List ProvisionedClient
without_id id [] = []
without_id id (c ∷ l) = let rest = without_id id l in if bytes_eq c.id id then rest else c ∷ rest

abbrev pub has_id : Bytes → List ProvisionedClient → Bool
has_id id [] = false
has_id id (c ∷ l) = bytes_eq c.id id || has_id id l

unfoldable pub revoke_loaded :
    Bytes → Disk → Result ProvisionError State → Result ProvisionError (Unit {0}) × Disk
unfolding finish store
revoke_loaded id d (err e) = (err e, d)
revoke_loaded id d (ok state) =
    if has_id id state.clients
    then finish tt (store (record state { clients = without_id id state.clients }) d)
    else (err unknown_client, d)

unfoldable pub revoke_client : Bytes → Disk → Result ProvisionError (Unit {0}) × Disk
unfolding load_state revoke_loaded
revoke_client id d = revoke_loaded id d (load_state d)

-- `List`.
unfoldable pub list_clients : Disk → Result ProvisionError (List ProvisionedClient)
unfolding load_state
list_clients d = do state ← load_state d; ok state.clients
