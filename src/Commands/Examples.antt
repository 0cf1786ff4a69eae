-- ===== src/Commands/Examples.antt =====
-- Runs of wsnctl, a list of routes, a client that is started and one that checks its network.
use wsn.Prelude.{
  true, false, none, some, Result, err, List, [], ◌∷◌, ◌≡◌, refl, nat_eq, arith, bytes_key,
  replicate, bytes_eq, if◌then◌else◌,
}
use wsn.Protocol.{Bytes, codes}
use wsn.Text.{trim_space, split}
use wsn.Formats.Raw.{raw, raw-ReadsBack}
use wsn.Provision.{Disk, list_clients, load_state}
use wsn.Provision.Deployment.{IsSound}
use wsn.Provision.Plan.Examples.{bare_host, key_bytes, six, key-IsFilled, six-IsFilled}
use wsn.Config.Client.{ClientConfig}
use wsn.Daemon.Service.{log_file}
use wsn.Client.Session.{Runner}
use wsn.Commands.Lists.{split_list}
use wsn.Commands.Client.{fatal_to_log, no_config, client_main}
use wsn.Commands.Wsnctl.{Around, Flags, failure, usage, wsnctl, run_all, run_command, command_of}
use wsn.Commands.Wsnctl.Sound.{run_all-IsSound}

abbrev routes : List Bytes
routes = codes "192.0.2.0/24" ∷ []

test_split_list : split_list (codes " a, b") ≡ codes "a" ∷ codes "b" ∷ []
unfolding split_list trim_space split
test_split_list = refl

abbrev flags : Flags
flags name =
    if bytes_eq name (codes "public-ip")
    then some (192 ∷ 0 ∷ 2 ∷ 1 ∷ [])
    else if bytes_eq name (codes "overlay")
    then some (10 ∷ 0 ∷ 0 ∷ 0 ∷ 24 ∷ [])
    else if bytes_eq name (codes "gateway")
    then some (10 ∷ 0 ∷ 0 ∷ 1 ∷ [])
    else none

abbrev around : Around
around = record {
  parse = λ args. some flags;
  host = bare_host;
  init_host = record { exists = false; makes_directory = true; makes_certificates = true };
  key = some key_bytes;
  mac = some six;
  rotates = true;
}

abbrev empty_directory : Disk
empty_directory = record { state_file = none; relay_file = none; writes = replicate 6 true }

empty_directory-IsSound : IsSound raw empty_directory
empty_directory-IsSound state e = ground arith

run_all-IsSound_example :
    IsSound raw (
      run_all raw
        ((around, codes "init" ∷ []) ∷ (around, codes "enroll" ∷ []) ∷ [])
        empty_directory)
run_all-IsSound_example =
    run_all-IsSound raw raw-ReadsBack
      ((around, codes "init" ∷ []) ∷ (around, codes "enroll" ∷ []) ∷ []) empty_directory
      ((key-IsFilled, six-IsFilled), ((key-IsFilled, six-IsFilled), tt)) empty_directory-IsSound

test_usage : (wsnctl raw around (codes "help" ∷ []) empty_directory).0 ≡ usage
unfolding wsnctl command_of
test_usage = refl

test_no_state : (wsnctl raw around (codes "list-clients" ∷ []) empty_directory).0 ≡ failure
unfolding wsnctl command_of run_command list_clients load_state
test_no_state = refl

abbrev refused : Bytes → Result Bytes ClientConfig
refused path = err path

abbrev no_check : ClientConfig → Result Bytes (Unit {0})
no_check cfg = err []

abbrev no_gateway_check : ClientConfig → Bytes → Result Bytes (Unit {0})
no_gateway_check cfg egress = err egress

abbrev no_new : ClientConfig → Result Bytes Runner
no_new cfg = err []

abbrev no_run : Runner → Result Bytes (Unit {0})
no_run runner = err []

-- A service writes the error to its own log.
test_no_config :
    client_main no_check no_gateway_check no_new no_run
      (record { config = []; check_network = []; egress = [] })
      (some (log_file, true))
      refused
    ≡ fatal_to_log no_config
unfolding client_main
test_no_config = refl
