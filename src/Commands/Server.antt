-- ===== src/Commands/Server.antt =====
-- `main` and `healthcheck` of cmd/wsn-server/main.go, and how `ListenAndServe` of
-- internal/relay/relay.go starts. The flags are parsed; what loadJSON makes of the configuration file
-- and what the listener and the signals lead to are given.
pub mod Starts
mod Examples
use wsn.Prelude.{
  ◌==◌, if◌then◌else◌, bytes_eq, nat_eq, Result, ok, err, ℕ, Option, none, some, List, [], ◌∷◌,
}
use wsn.Protocol.{Bytes, codes}
use wsn.Formats.{Formats}
use wsn.Config.{ConfigError, RelayConfig, load_relay}
use wsn.Relay.Peer.{Peer}
use wsn.Relay.Http.{ServeMux, handler}
use wsn.Relay.Server.{
  Server, ServerError, of_config, panics, LoopEvent, Status, running, returned_nil, returned_error,
  new_server, serve_loop,
}

-- How the process ends: status 0, status 1 after `fatal`, or a panic; `serving` while it does not.
pub data Ended : Type 0 where
  serving success fatal panicked : Ended

-- What `client.Get` returns: an error, or the status of the response.
abbrev checked : {E : Type 0} → Result E ℕ → Ended
checked (err e) = fatal
checked (ok status) = if status == 200 then success else fatal

unfoldable pub healthcheck : {E : Type 0} → (Bytes → Result E ℕ) → Bytes → Ended
healthcheck get url = checked (get url)

abbrev pub ended : Status → Ended
ended running = serving
ended returned_nil = success
ended returned_error = fatal

-- The values of the two flags, with their defaults filled in.
pub record ServerFlags : Type 0 where
  pub config : Bytes
  pub url : Bytes

module _ (f : Formats) (m : ServeMux) (peers : ℕ → Peer) where
  abbrev handled : Option m.Mux → Server → List LoopEvent → Ended
  handled none server events = panicked
  handled (some mux) server events = ended (serve_loop f events server).0

  -- `make(chan, n)` panics for a negative `n`.
  abbrev created : RelayConfig → Result ServerError Server → List LoopEvent → Ended
  created cfg (err (of_config e)) events = fatal
  created cfg (err panics) events = panicked
  created cfg (ok server) events = handled (handler m cfg) server events

  -- `ListenAndServe`, with what its `select` finds.
  unfoldable pub listen_and_serve : RelayConfig → List LoopEvent → Ended
  listen_and_serve cfg events = created cfg (new_server f peers cfg) events

  abbrev with_config : Result ConfigError RelayConfig → List LoopEvent → Ended
  with_config (err e) events = fatal
  with_config (ok cfg) events = listen_and_serve cfg events

  abbrev with_file : Option RelayConfig → List LoopEvent → Ended
  with_file none events = fatal
  with_file (some file) events = with_config (load_relay f file) events

  module _ {E : Type 0} (get : Bytes → Result E ℕ) (read : Bytes → Option RelayConfig) where
    -- `main`: the arguments after the program's name, the flags, and the events while it serves.
    unfoldable pub server_main : List Bytes → ServerFlags → List LoopEvent → Ended
    unfolding healthcheck listen_and_serve
    server_main [] flags events = with_file (read flags.config) events
    server_main (arg ∷ args) flags events =
        if bytes_eq arg (codes "healthcheck")
        then healthcheck get flags.url
        else with_file (read flags.config) events
