-- ===== src/Commands/Client.antt =====
-- `main` of cmd/wsn-client/main.go. What LogOutput, LoadClient and daemon.Run return, and the checks of
-- package netcheck and `New`, are given; the flags are parsed.
use wsn.Prelude.{
  Bool, true, false, if◌then◌else◌, Option, none, some, Result, ok, err, bytes_eq, [],
}
use wsn.Protocol.{Bytes, codes}
use wsn.Config.Client.{ClientConfig}
use wsn.Client.Session.{Runner}
use wsn.Daemon.Service.{LogOutput}

-- The flags, with their defaults filled in.
pub record ClientFlags : Type 0 where
  pub config : Bytes
  pub check_network : Bytes
  pub egress : Bytes

pub data Failure : Type 0 where
  no_log no_config unsafe_network egress_required unknown_check no_runner run_failed : Failure

-- Where `main` ends: after a check that passed, after the daemon, or with an error and status 1, which
-- was also written to the service's own log or not.
pub data Ended : Type 0 where
  network_is_safe stopped : Ended
  fatal fatal_to_log : Failure → Ended

-- `fatalTo`: the error goes to the log too where that is a service's own.
abbrev fatal_to : Bool → Failure → Ended
fatal_to true e = fatal_to_log e
fatal_to false e = fatal e

abbrev fatal_if : {E : Type 0} → Result E (Unit {0}) → Ended
fatal_if (ok t) = network_is_safe
fatal_if (err e) = fatal unsafe_network

module _ {E : Type 0} (client_check : ClientConfig → Result E (Unit {0}))
    (gateway_check : ClientConfig → Bytes → Result E (Unit {0}))
    (new : ClientConfig → Result E Runner) (run : Runner → Result E (Unit {0})) where
  -- `-check-network`: no session is started.
  unfoldable pub check_network : ClientFlags → ClientConfig → Ended
  check_network flags cfg =
      if bytes_eq flags.check_network (codes "client")
      then fatal_if (client_check cfg)
      else if bytes_eq flags.check_network (codes "gateway")
      then if bytes_eq flags.egress []
        then fatal egress_required
        else fatal_if (gateway_check cfg flags.egress)
      else fatal unknown_check

  abbrev running : Bool → Result E (Unit {0}) → Ended
  running service_log (ok t) = stopped
  running service_log (err e) = fatal_to service_log run_failed

  abbrev started : Bool → Result E Runner → Ended
  started service_log (err e) = fatal_to service_log no_runner
  started service_log (ok runner) = running service_log (run runner)

  abbrev configured : ClientFlags → Bool → Result E ClientConfig → Ended
  configured flags service_log (err e) = fatal_to service_log no_config
  configured flags service_log (ok cfg) =
      if bytes_eq flags.check_network []
      then started service_log (new cfg)
      else check_network flags cfg

  unfoldable pub client_main :
      ClientFlags → Option (LogOutput × Bool) → (Bytes → Result E ClientConfig) → Ended
  unfolding check_network
  client_main flags none load = fatal no_log
  client_main flags (some (output, service_log)) load =
      configured flags service_log (load flags.config)
