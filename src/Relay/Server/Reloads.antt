-- ===== src/Relay/Server/Reloads.antt =====
-- What a reload of internal/relay/relay.go does, and what a SIGHUP to cmd/wsn-server/main.go leads
-- to.
use wsn.Prelude.{
  lookup, nat_eq, bytes_key, Result, Result-cases, ok, err, ℕ, ◌≡◌, refl, ◌⊎◌, inl, inr, false,
  Option, none, some, List, [], ◌∷◌, subst, sym,
}
use wsn.Protocol.{Bytes}
use wsn.Formats.{Formats, ReadsBack}
use wsn.Config.{ConfigError, RelayConfig, load_relay}
use wsn.Relay.Hub.{retain_authorized, Hub}
use wsn.Relay.Hub.Registry.{IsRegistry}
use wsn.Relay.Hub.Authorized.{IsAuthorized, retain-IsAuthorized-safe, retain_authorized-IsRegistry}
use wsn.Prelude.{false, arith}
use wsn.Relay.Server.{WatchEvent, taken_files}
use wsn.Relay.Server.{
  Clients, Server, running, authorized_clients, reload, reload_to, serve_loop, watch_reload,
}
use wsn.Relay.Server.Table.{IsTable, authorized_clients-IsTable}

-- A registered peer.
abbrev pub IsReachable : Hub → ℕ → Type 0
IsReachable h q =
    ((id : Bytes) × (lookup id h.by_id ≡ some q)) ⊎ ((k : ℕ) × (lookup k h.by_mac ≡ some q))

abbrev pub KeepsSettings : Server → Server → Type 0
KeepsSettings s s' =
    (s'.handshake ≡ s.handshake)
    × (s'.idle ≡ s.idle)
    × (s'.auth_slots ≡ s.auth_slots)
    × (s'.max_frame_size ≡ s.max_frame_size)
    × (s'.client_queue_size ≡ s.client_queue_size)

-- The server after a reload that succeeded with the table `clients`.
pub record IsReloaded (s s' : Server) (clients : Clients) : Type 0 where
  pub swapped : s'.clients ≡ clients
  pub settings : KeepsSettings s s'
  pub registry : IsRegistry s'.hub
  pub authorized :
      (q : ℕ)
      → IsReachable s'.hub q
      → (s'.hub.peers q).stopped ≡ false
      → IsAuthorized clients (s'.hub.peers q).id (s'.hub.peers q).mac

module _ (f : Formats) where
  reload_to-IsReloaded :
      (s : Server) (clients : Clients)
      → IsRegistry s.hub
      → IsReloaded s (reload_to f s (ok clients)).1 clients
  unfolding reload_to
  reload_to-IsReloaded s clients r = record {
    swapped = refl;
    settings = (refl, refl, refl, refl, refl);
    registry = retain_authorized-IsRegistry clients s.hub r;
    authorized = retain-IsAuthorized-safe clients s.hub r;
  }

  -- A reload whose clients do not decode reports the error and leaves the server as it was; any other
  -- swaps the table, keeps every setting and the registry, and leaves no registered live peer that the
  -- new table does not authorize.
  reload_lem :
      (cfg : RelayConfig) (s : Server)
      → IsRegistry s.hub
      → ((e : ConfigError) × (authorized_clients f cfg ≡ err e) × (reload f cfg s ≡ (err e, s)))
        ⊎ ((clients : Clients) × (authorized_clients f cfg ≡ ok clients)
            × IsReloaded s (reload f cfg s).1 clients)
  unfolding reload
  reload_lem cfg s r = elim (Result-cases (authorized_clients f cfg)) [
    | inl (e, bad) ↦ inl (e, bad, rw bad)
    | inr (clients, good) ↦ inr (clients, good, rw good (reload_to-IsReloaded s clients r))
  ]

  -- One SIGHUP, with a file that LoadRelay returns as it is.
  pub serve_loop-accepted :
      (cfg : RelayConfig) (clients : Clients) (s : Server)
      → load_relay f cfg ≡ ok cfg
      → authorized_clients f cfg ≡ ok clients
      → serve_loop f (watch_reload f (some cfg ∷ [])) s
        ≡ (running, record s { clients = clients; hub = (retain_authorized clients s.hub).0 })
  unfolding watch_reload serve_loop reload reload_to
  serve_loop-accepted cfg clients s loads made = rw (loads, made) refl

  abbrev loaded : Result ConfigError RelayConfig → Option RelayConfig
  loaded (ok cfg) = some cfg
  loaded (err e) = none

  abbrev later_or : Option RelayConfig → Option RelayConfig → Option RelayConfig
  later_or none earlier = earlier
  later_or (some cfg) earlier = some cfg

  -- The configuration that LoadRelay makes of the last file that it accepts.
  abbrev pub last_loaded : List (Option RelayConfig) → Option RelayConfig
  last_loaded [] = none
  last_loaded (none ∷ files) = last_loaded files
  last_loaded (some file ∷ files) = later_or (last_loaded files) (loaded (load_relay f file))

  -- Without a file that was accepted the server is as it was. Otherwise it has the table of the last
  -- one, and its hub was reloaded for it.
  abbrev pub Serves : Server → Server → Option RelayConfig → Type 0
  Serves s s' none = s' ≡ s
  Serves s s' (some cfg) = IsTable f s'.clients cfg.clients × IsReloaded s s' s'.clients

  Serves-refused :
      (s s' : Server) (later : Option RelayConfig)
      → Serves s s' later
      → Serves s s' (later_or later none)
  Serves-refused s s' none h = h
  Serves-refused s s' (some cfg) h = h

  IsReloaded-trans :
      (s t u : Server)
      → IsReloaded s t t.clients
      → IsReloaded t u u.clients
      → IsReloaded s u u.clients
  IsReloaded-trans s t u a b = record {
    swapped = refl;
    settings = ground (arith, a.settings, b.settings);
    registry = b.registry;
    authorized = b.authorized;
  }

  Serves-accepted :
      (s t u : Server) (cfg : RelayConfig) (later : Option RelayConfig)
      → IsTable f t.clients cfg.clients
      → IsReloaded s t t.clients
      → Serves t u later
      → Serves s u (later_or later (some cfg))
  Serves-accepted s t u cfg none table reloaded h =
      subst (λ (x : Server). IsTable f x.clients cfg.clients × IsReloaded s x x.clients) (sym h)
        (table, reloaded)
  Serves-accepted s t u cfg (some last) table reloaded (t', r') =
      (t', IsReloaded-trans s t u reloaded r')

  module _ (r : ReadsBack f) where
    accepted-IsReloaded :
        (file cfg : RelayConfig) (s : Server)
        → load_relay f file ≡ ok cfg
        → IsRegistry s.hub
        → IsTable f (reload f cfg s).1.clients cfg.clients
          × IsReloaded s (reload f cfg s).1 (reload f cfg s).1.clients
    unfolding reload reload_to
    accepted-IsReloaded file cfg s h registry =
        let (clients, e, t) = authorized_clients-IsTable f r file cfg h in
        rw e (t, reload_to-IsReloaded s clients registry)

    pub files-running :
        (files : List (Option RelayConfig)) (s : Server)
        → (serve_loop f (watch_reload f files) s).0 ≡ running
    unfolding watch_reload serve_loop
    files-running [] s = refl
    files-running (none ∷ files) s = files-running files s
    files-running (some file ∷ files) s = elim (Result-cases (load_relay f file)) [
      | inl (e, bad) ↦ rw bad (files-running files s)
      | inr (cfg, good) ↦ rw good (files-running files (reload f cfg s).1)
    ]

    files-Serve :
        (files : List (Option RelayConfig)) (s : Server)
        → IsRegistry s.hub
        → Serves s (serve_loop f (watch_reload f files) s).1 (last_loaded files)
    unfolding watch_reload serve_loop
    files-Serve [] s registry = refl
    files-Serve (none ∷ files) s registry = files-Serve files s registry
    files-Serve (some file ∷ files) s registry = elim (Result-cases (load_relay f file)) [
      | inl (e, bad) ↦
          let rest = files-Serve files s registry in
          rw bad (Serves-refused s _ (last_loaded files) rest)
      | inr (cfg, good) ↦
          let (table, reloaded) = accepted-IsReloaded file cfg s good registry in
          let rest = files-Serve files (reload f cfg s).1 reloaded.registry in
          rw good
            (Serves-accepted s (reload f cfg s).1 _ cfg (last_loaded files) table reloaded rest)
    ]

    -- However SIGHUPs come, those that come while one waits joining it, a relay with a registry goes on
    -- running. Where LoadRelay refuses every file that is then read, the server is as it was. Otherwise
    -- it has the table of the last file that was accepted, the settings that it had and a registry, and
    -- every peer that the hub can reach and that is not stopped is one that this table lists with the
    -- same virtual MAC; given formats that read back what they print.
    pub watch_reload-Serves :
        (events : List WatchEvent) (s : Server)
        → IsRegistry s.hub
        → ((serve_loop f (watch_reload f (taken_files false events)) s).0 ≡ running)
          × Serves s
              (serve_loop f (watch_reload f (taken_files false events)) s).1
              (last_loaded (taken_files false events))
    watch_reload-Serves events s registry =
        let files = taken_files false events in
        (files-running files s, files-Serve files s registry)
