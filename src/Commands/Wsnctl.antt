-- ===== src/Commands/Wsnctl.antt =====
-- cmd/wsnctl/main.go: one run of the program on the directory of a deployment. The package flag and what
-- lies around the commands are given; RotateCertificate, which leaves state.json and server.json as
-- they are, appears with its result.
pub mod Sound
pub mod Revoked
pub mod Added
use wsn.Prelude.{
  List, [], ◌∷◌, Bool, true, false, if◌then◌else◌, Option, none, some, Result, ok, err, bytes_eq,
}
use wsn.Protocol.{Bytes, codes}
use wsn.Formats.{Formats}
use wsn.Provision.{Disk, add_client, revoke_client, list_clients}
use wsn.Provision.Plan.{AddOptions, ProvisionedClient}
use wsn.Provision.Render.{BundleOptions, Host}
use wsn.Provision.Bundle.{bundle, server_bundle}
use wsn.Provision.Enroll.{EnrollOptions, enroll}
use wsn.Provision.Init.{InitHost, InitOptions, init_deployment}
use wsn.Commands.Lists.{split_list}

pub data Command : Type 0 where
  init add revoke enrol list_all bundle_one bundle_server rotate : Command

-- How the process ends: status 0, 1 after `must`, or 2 after `usage` or a flag that does not parse.
pub data Exit : Type 0 where
  success failure usage : Exit

-- The values of the flags that were given.
abbrev pub Flags : Type 0
Flags = Bytes → Option Bytes

-- What a run finds: its flags, if they parse, the machine, what the random source gives for a key and
-- for an address, and whether the certificate can be rotated.
pub record Around : Type 0 where
  pub parse : List Bytes → Option Flags
  pub host : Host
  pub init_host : InitHost
  pub key : Option Bytes
  pub mac : Option Bytes
  pub rotates : Bool

-- The value of a flag, or its default.
abbrev get : Flags → Bytes → Bytes → Bytes
get flags name default = elim (flags name) [ none ↦ default | some value ↦ value ]

-- The switch of `main`.
unfoldable pub command_of : Bytes → Option Command
command_of name =
    if bytes_eq name (codes "init")
    then some init
    else if bytes_eq name (codes "add-client")
    then some add
    else if bytes_eq name (codes "enroll")
    then some enrol
    else if bytes_eq name (codes "revoke-client")
    then some revoke
    else if bytes_eq name (codes "list-clients")
    then some list_all
    else if bytes_eq name (codes "bundle")
    then some bundle_one
    else if bytes_eq name (codes "server-bundle")
    then some bundle_server
    else if bytes_eq name (codes "rotate-certificate")
    then some rotate
    else none

unfoldable pub init_options : Flags → InitOptions
unfolding split_list
init_options flags = record {
  public_ip = get flags (codes "public-ip") [];
  overlay = get flags (codes "overlay") [];
  gateway = get flags (codes "gateway") [];
  dns = get flags (codes "dns") [];
  search = split_list (get flags (codes "search") []);
}

unfoldable pub add_options : Flags → AddOptions
unfolding split_list
add_options flags = record {
  id = get flags (codes "id") [];
  os = get flags (codes "os") (codes "linux");
  role = get flags (codes "role") (codes "client");
  address = get flags (codes "address") [];
  device = get flags (codes "device") [];
  routes = split_list (get flags (codes "routes") []);
  egress = get flags (codes "egress") [];
}

unfoldable pub bundle_options : Flags → BundleOptions
bundle_options flags = record {
  id = get flags (codes "id") [];
  client_binary = get flags (codes "client-binary") [];
  tap_installer = get flags (codes "tap-installer") [];
  tapctl = get flags (codes "tapctl") [];
  output = get flags (codes "output") [];
}

unfoldable pub enroll_options : Flags → EnrollOptions
unfolding add_options
enroll_options flags = record {
  add_options = add_options flags;
  client_binary = get flags (codes "client-binary") [];
  tap_installer = get flags (codes "tap-installer") [];
  tapctl = get flags (codes "tapctl") [];
  output = get flags (codes "output") [];
  server_output = get flags (codes "server-output") (codes "wsn-server-private.tar.gz");
}

-- `must`.
abbrev must {ℓ} : {E : Type 0} {A : Type ℓ} → Result E A → Exit
must (ok a) = success
must (err e) = failure

abbrev after {ℓ} : {E : Type 0} {A : Type ℓ} → Result E A × Disk → Exit × Disk
after (r, d) = (must r, d)

-- `Fingerprint` of the authority's certificate, which `init` prints.
abbrev fingerprint_exit : Host → Exit
fingerprint_exit host = elim host.ca_certificate [
  | none ↦ failure
  | some ca ↦ elim (host.fingerprint ca) [ none ↦ failure | some text ↦ success ]
]

abbrev printed {ℓ} : {E : Type 0} {A : Type ℓ} → Host → Result E A × Disk → Exit × Disk
printed host (ok a, d) = (fingerprint_exit host, d)
printed host (err e, d) = (failure, d)

module _ (f : Formats) where
  unfoldable pub run_command : Around → Command → Flags → Disk → Exit × Disk
  run_command a init flags d = printed a.host (init_deployment f a.init_host (init_options flags) d)
  run_command a add flags d = after (add_client f (add_options flags) a.key a.mac d)
  run_command a enrol flags d = after (enroll a.host f (enroll_options flags) a.key a.mac d)
  run_command a revoke flags d = after (revoke_client (get flags (codes "id") []) d)
  run_command a list_all flags d = (must (list_clients d), d)
  run_command a bundle_one flags d = (must (bundle a.host (bundle_options flags) d), d)
  run_command a bundle_server flags d =
      (must (server_bundle a.host (get flags (codes "output") []) d), d)
  run_command a rotate flags d = (if a.rotates then success else failure, d)

  -- A flag that does not parse ends the process.
  with_flags : Around → Command → Option Flags → Disk → Exit × Disk
  unfolding run_command
  with_flags a command none d = (usage, d)
  with_flags a command (some flags) d = run_command a command flags d

  with_command : Around → List Bytes → Option Command → Disk → Exit × Disk
  unfolding with_flags
  with_command a args none d = (usage, d)
  with_command a args (some command) d = with_flags a command (a.parse args) d

  -- `main`, on the arguments after the program's name.
  unfoldable pub wsnctl : Around → List Bytes → Disk → Exit × Disk
  unfolding with_command
  wsnctl a [] d = (usage, d)
  wsnctl a (name ∷ args) d = with_command a args (command_of name) d

  -- Runs of the program, one after the other.
  unfoldable pub run_all : List (Around × List Bytes) → Disk → Disk
  unfolding wsnctl
  run_all [] d = d
  run_all ((a, args) ∷ runs) d = run_all runs (wsnctl a args d).1
