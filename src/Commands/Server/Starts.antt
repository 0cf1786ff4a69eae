-- ===== src/Commands/Server/Starts.antt =====
-- A relay that cmd/wsn-server/main.go starts with a configuration that LoadRelay accepts, and its
-- health check.
use wsn.Prelude.{
  if◌then◌else◌, bytes_key, bytes_eq_refl, bytes_eq, nat_eq, zero, suc, bytes_eq_iff, Result-cases,
  inl, inr, Result, ok, ℕ, ◌≡◌, refl, ◌∙◌, true, false, Option, none, some, List, [], ◌∷◌, arith,
}
use wsn.Protocol.{Bytes, codes}
use wsn.Formats.{Formats, ReadsBack}
use wsn.Config.{ℤ, pos, negsuc, or_default, RelayConfig, load_relay}
use wsn.Config.Valid.{IsBetween, load_relay-IsValidRelay}
use wsn.Relay.Peer.{Peer}
use wsn.Relay.Http.{
  Endpoint, health, web_socket, ServeMux, IsServeMux, is_plain, answer_health, get_status, handler,
}
use wsn.Relay.Server.{Server, channel_size, new_server, watch_reload}
use wsn.Relay.Server.Table.{authorized_clients-IsTable}
use wsn.Relay.Server.Reloads.{files-running}
use wsn.Commands.Server.{serving, success, ServerFlags, healthcheck, listen_and_serve, server_main}

channel_size-IsBetween :
    (z : ℤ) → IsBetween 1 4096 z → (n : ℕ) × (channel_size (or_default z 32) ≡ ok n)
channel_size-IsBetween (pos zero) h = (32, refl)
channel_size-IsBetween (pos (suc n)) h = (suc n, refl)
channel_size-IsBetween (negsuc n) h = absurd h

-- The path that a request asks for decides alone.
abbrev pub endpoint_of : RelayConfig → Bytes → Option Endpoint
endpoint_of cfg path =
    if bytes_eq path cfg.path
    then some web_socket
    else if bytes_eq path cfg.health_path
    then some health
    else none

module _ (f : Formats) (r : ReadsBack f) (m : ServeMux) (laws : IsServeMux m)
    (peers : ℕ → Peer) where
  -- New returns a server for every configuration that LoadRelay returns.
  new_server-load_relay :
      (file cfg : RelayConfig)
      → load_relay f file ≡ ok cfg
      → (s : Server) × (new_server f peers cfg ≡ ok s)
  unfolding new_server
  new_server-load_relay file cfg h =
      let v = load_relay-IsValidRelay f file cfg h in
      let (clients, e, t) = authorized_clients-IsTable f r file cfg h in
      let (n, size) = channel_size-IsBetween cfg.max_pending_handshakes v.pending_between in
      elim (Result-cases (new_server f peers cfg)) [
        | inl (bad, refused) ↦ ground (arith, e, size)
        | inr made ↦ made
      ]

  handler-finds :
      (cfg : RelayConfig)
      → bytes_eq cfg.path cfg.health_path ≡ false
      → is_plain cfg.path ≡ true
      → is_plain cfg.health_path ≡ true
      → (mux : m.Mux) × (handler m cfg ≡ some mux)
        × ((path : Bytes) → m.find mux path ≡ endpoint_of cfg path)
  unfolding handler
  handler-finds cfg differ plain plain_health =
      let (first, a) =
        laws.registers cfg.health_path health m.new plain_health (laws.empty cfg.health_path) in
      let nowhere = laws.empty cfg.path in
      let before = a.finds cfg.path in
      let (mux, b) = laws.registers cfg.path web_socket first plain (ground arith) in
      (
        mux,
        rw a.registered b.registered,
        λ path.
            let at_first = a.finds path in
            let at_none = laws.empty path in rw (b.finds path) (rw at_first (rw at_none refl)),
      )

  module _ {E : Type 0} (get : Bytes → Result E ℕ) (read : Bytes → Option RelayConfig) where
    -- The process serves for as long as only SIGHUPs arrive.
    server_main-running :
        (flags : ServerFlags) (file cfg : RelayConfig) (mux : m.Mux)
        (files : List (Option RelayConfig))
        → read flags.config ≡ some file
        → load_relay f file ≡ ok cfg
        → handler m cfg ≡ some mux
        → server_main f m peers get read [] flags (watch_reload f files) ≡ serving
    unfolding server_main listen_and_serve
    server_main-running flags file cfg mux files found h made =
        let (s, e) = new_server-load_relay file cfg h in
        let alive = files-running f r files s in rw found (rw h (rw e (rw made (rw alive refl))))

    healthcheck-handler :
        (upgrade : Result E ℕ) (path_of : Bytes → Bytes) (cfg : RelayConfig) (mux : m.Mux)
        (flags : ServerFlags)
        → bytes_eq cfg.path cfg.health_path ≡ false
        → ((path : Bytes) → m.find mux path ≡ endpoint_of cfg path)
        → path_of flags.url ≡ cfg.health_path
        → server_main f m peers
            (λ url. get_status upgrade (m.find mux (path_of url)))
            read
            (codes "healthcheck" ∷ [])
            flags
            []
          ≡ success
    unfolding server_main healthcheck answer_health
    healthcheck-handler upgrade path_of cfg mux flags differ finds asked =
        let at_health : m.find mux cfg.health_path ≡ some health =
          finds cfg.health_path
          ∙ (ground (
            arith,
            differ,
            bytes_eq_refl cfg.health_path,
            bytes_eq_iff cfg.path cfg.health_path,
            bytes_eq_iff cfg.health_path cfg.path,
          )) in
        rw asked (rw at_health refl)

    -- Where the configuration file is one that LoadRelay accepts, and its two paths are a slash and then
    -- letters, digits, `-` and `_`, wsn-server starts: Handler does not panic and sends a request to
    -- the WebSocket function or to the health check by its path alone, and nowhere for any other path;
    -- the process goes on serving through any number of SIGHUPs, whatever the file holds by then; and
    -- the health check, when its URL leads to the relay's health path, ends with status 0.
    pub server_main-starts :
        (upgrade : Result E ℕ) (path_of : Bytes → Bytes) (flags : ServerFlags)
        (file cfg : RelayConfig)
        → read flags.config ≡ some file
        → load_relay f file ≡ ok cfg
        → is_plain cfg.path ≡ true
        → is_plain cfg.health_path ≡ true
        → path_of flags.url ≡ cfg.health_path
        → (mux : m.Mux) × (handler m cfg ≡ some mux)
          × ((path : Bytes) → m.find mux path ≡ endpoint_of cfg path)
          × ((files : List (Option RelayConfig))
              → server_main f m peers get read [] flags (watch_reload f files) ≡ serving)
          × (server_main f m peers
                (λ url. get_status upgrade (m.find mux (path_of url)))
                read
                (codes "healthcheck" ∷ [])
                flags
                []
              ≡ success)
    server_main-starts upgrade path_of flags file cfg found h plain plain_health asked =
        let differ = (load_relay-IsValidRelay f file cfg h).paths_differ in
        let (mux, made, finds) = handler-finds cfg differ plain plain_health in
        (
          mux,
          made,
          finds,
          λ files. server_main-running flags file cfg mux files found h made,
          healthcheck-handler upgrade path_of cfg mux flags differ finds asked,
        )
