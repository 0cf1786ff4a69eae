-- ===== src/Client/Session.antt =====
-- `New`, `runSession` and `pingLoop` of internal/client/client.go, over any implementation of the TAP
-- devices. What the dialled connection is, which of the three pumps ends first and whether the
-- context is done are given; the connection's handle is counted with the handles of the device.
pub mod Created
pub mod Closed
mod Examples
use wsn.Prelude.{
  ℕ, Bool, true, false, not, List, [], ◌∷◌, Option, none, some, Result, ok, err, bytes_eq,
  if◌then◌else◌, nat_eq, suc, ◌||◌,
}
use wsn.Prelude.Steps.{Steps}
use wsn.Protocol.{Bytes, codes, subprotocol}
use wsn.Conn.{Conn, Incoming}
use wsn.Config.{ℤ, pos, negsuc}
use wsn.Config.Client.{ClientConfig}
use wsn.Client.Backoff.{Attempt}
use wsn.Client.Auth.{ClientError, authenticate}
use wsn.Client.Tunnel.{TunnelError, tap_to_web_socket, web_socket_to_tap}
use wsn.Tap.{TapError, System, Tap, release}

pub data SessionError : Type 0 where
  no_device : TapError → SessionError
  connect_relay other_subprotocol relay_ping : SessionError
  not_admitted : ClientError → SessionError
  tunnel : TunnelError → SessionError

-- What DialContext returns: an error, or a connection with its handle and the subprotocol that the
-- relay chose.
pub data Dialled : Type 0 where
  refused : Dialled
  connected : ℕ → Bytes → Conn → Dialled

-- The case that `select` takes.
pub data Ending : Type 0 where
  cancelled tap_pump relay_pump ping : Ending

-- What a session meets: the dialled connection, what `Read` of the device returns and whether the
-- write to the relay succeeds, what the device takes of each message, whether each ping is sent, and
-- the case that `select` takes.
pub record Meeting : Type 0 where
  pub dialled : Dialled
  pub device_rounds : List (Option Bytes × Bool)
  pub device_writes : List (List (Option ℕ))
  pub pings : List Bool
  pub ending : Ending

-- `pingLoop`: its error, and the pings that were sent before it.
unfoldable pub ping_loop : List Bool → SessionError × ℕ
ping_loop [] = (relay_ping, 0)
ping_loop (false ∷ rest) = (relay_ping, 0)
ping_loop (true ∷ rest) = let (e, sent) = ping_loop rest in (e, suc sent)

-- The messages of the connection, each with the outcomes of its writes to the device.
rounds_of : List Incoming → List (List (Option ℕ)) → List (Incoming × List (Option ℕ))
rounds_of [] writes = []
rounds_of (m ∷ ms) [] = (m, []) ∷ rounds_of ms []
rounds_of (m ∷ ms) (w ∷ writes) = (m, w) ∷ rounds_of ms writes

-- `Runner`, less the logger; `roots` are the certificates that its dialer trusts.
pub record Runner : Type 0 where
  pub cfg : ClientConfig
  pub key : Bytes
  pub mac : Bytes
  pub roots : Bytes

-- LoadClient leaves no negative size.
abbrev pub size_of : ℤ → ℕ
size_of (pos n) = n
size_of (negsuc n) = 0

module _ (hmac : Bytes → Bytes → Bytes) (r : Runner) where
  -- `select`: the end of the context, or the first error of the three pumps.
  unfoldable pub selected : Meeting → Ending → Conn → Result SessionError (Unit {0})
  unfolding rounds_of
  selected m cancelled conn = ok tt
  selected m tap_pump conn =
      err (tunnel (tap_to_web_socket (size_of r.cfg.max_frame_size) r.mac m.device_rounds).0)
  selected m relay_pump conn = err (
      tunnel
        (web_socket_to_tap (size_of r.cfg.max_frame_size)
          (rounds_of conn.incoming m.device_writes)).0)
  selected m ping conn = err (ping_loop m.pings).0

  -- The session on its connection, after DialContext.
  unfoldable pub on_connection : Meeting → Bytes → Conn → Result SessionError (Unit {0})
  on_connection m chosen conn =
      if not (bytes_eq chosen subprotocol)
      then err other_subprotocol
      else elim (authenticate hmac r.key r.cfg.id r.mac conn).0 [
        | err e ↦ err (not_admitted e)
        | ok t ↦ selected m m.ending (authenticate hmac r.key r.cfg.id r.mac conn).1
      ]

  -- DialContext and what follows; the deferred `conn.Close` ends it.
  dialled_session : Meeting → Dialled → System → Result SessionError (Unit {0}) × System
  dialled_session m refused s = (err connect_relay, s)
  dialled_session m (connected handle chosen conn) s =
      (on_connection m chosen conn, (release handle (record s { opened = handle ∷ s.opened })).1)

  module _ (tap : Tap) where
    -- The deferred `device.Close` ends it.
    with_device :
        Meeting → Result TapError tap.Device × System → Result SessionError (Unit {0}) × System
    unfolding dialled_session
    with_device m (err e, s) = (err (no_device e), s)
    with_device m (ok device, s) = (
      (dialled_session m m.dialled s).0,
      tap.close_device device (dialled_session m m.dialled s).1,
    )

    unfoldable pub run_session : Meeting → System → Result SessionError (Unit {0}) × System
    unfolding with_device
    run_session m s = with_device m (tap.open_device r.cfg.device s)

    -- The sessions of `Run`, one for each of its rounds.
    unfoldable pub run_sessions : List (Attempt × Meeting) → System → System
    unfolding run_session
    run_sessions [] s = s
    run_sessions ((a, m) ∷ rest) s =
        let after = (run_session m s).1 in
        let more = run_sessions rest after in
        if a.cancelled_before
        then s
        else if a.cancelled_after || a.cancelled_waiting
        then after
        else more
