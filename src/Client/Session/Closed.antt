-- ===== src/Client/Session/Closed.antt =====
-- What the sessions of internal/client/client.go leave open, and when a session ends without an error.
use wsn.Prelude.{
  ℕ, List, [], ◌∷◌, Result, ok, err, bytes_eq, bytes_eq_iff, ap, ◌≡◌, refl, arith, nat_eq, inl, inr,
  ◌↔◌, Result-cases, Bool-cases,
}
use wsn.Protocol.{Bytes, subprotocol}
use wsn.Conn.{Conn}
use wsn.Client.Auth.{authenticate}
use wsn.Client.Backoff.{Attempt}
use wsn.Tap.{TapError, System, Tap, release}
use wsn.Tap.Handles.{Opens, IsLawful}
use wsn.Client.Session.{
  Meeting, Runner, Dialled, Ending, run_session, run_sessions, dialled_session, on_connection,
  tap_pump, relay_pump, ping, refused, connected, cancelled, with_device, selected,
}

module _ (hmac : Bytes → Bytes → Bytes) (r : Runner) where
  dialled_session-Opens :
      (m : Meeting) (d : Dialled) (s : System) → Opens [] s (dialled_session hmac r m d s).1
  unfolding dialled_session release
  dialled_session-Opens m refused s a = omega arith
  dialled_session-Opens m (connected handle chosen conn) s a = omega arith

  module _ (tap : Tap) (lawful : IsLawful tap) where
    run_session-Opens : (m : Meeting) (s : System) → Opens [] s (run_session hmac r tap m s).1
    unfolding run_session with_device
    run_session-Opens m s = opened (tap.open_device r.cfg.device s) refl
      where
        opened :
            (o : Result TapError tap.Device × System)
            → tap.open_device r.cfg.device s ≡ o
            → Opens [] s (with_device hmac r tap m o).1
        opened (err e, t) h = lawful.failed_open_device r.cfg.device s t e h
        opened (ok d, t) h =
            lawful.close_device-open_device r.cfg.device s t _ d h
              (dialled_session-Opens m m.dialled t)

    -- However often the client connects, and however its sessions end, the device, its events and the
    -- connection of every session are closed as often as they were opened, for any implementation of
    -- the devices whose Close gives back what Open took.
    pub run_sessions-Opens :
        (rounds : List (Attempt × Meeting)) (s : System)
        → Opens [] s (run_sessions hmac r tap rounds s)
    unfolding run_sessions
    run_sessions-Opens [] s a = omega arith
    run_sessions-Opens ((round, m) ∷ rest) s a =
        let one = run_session-Opens m s a in
        let more = run_sessions-Opens rest (run_session hmac r tap m s).1 a in ground arith

  -- A session as it has to be to end without an error: the device opens, the connection has the
  -- subprotocol, the relay admits the client, and the context ends.
  pub record IsServed (tap : Tap) (m : Meeting) (s : System) : Type 0 where
    pub device : tap.Device
    pub after : System
    pub device_opens : tap.open_device r.cfg.device s ≡ (ok device, after)
    pub handle : ℕ
    pub conn : Conn
    pub connects : m.dialled ≡ connected handle subprotocol conn
    pub admitted : (authenticate hmac r.key r.cfg.id r.mac conn).0 ≡ ok tt
    pub ends : m.ending ≡ cancelled

  selected-ok :
      (m : Meeting) (e : Ending) (conn : Conn) → selected hmac r m e conn ≡ ok tt → e ≡ cancelled
  unfolding selected
  selected-ok m cancelled conn h = refl
  selected-ok m tap_pump conn h = ground arith
  selected-ok m relay_pump conn h = ground arith
  selected-ok m ping conn h = ground arith

  on_connection-ok :
      (m : Meeting) (chosen : Bytes) (conn : Conn)
      → on_connection hmac r m chosen conn ≡ ok tt
      → (chosen ≡ subprotocol)
        × ((authenticate hmac r.key r.cfg.id r.mac conn).0 ≡ ok tt)
        × (m.ending ≡ cancelled)
  unfolding on_connection
  on_connection-ok m chosen conn h = elim (Bool-cases (bytes_eq chosen subprotocol)) [
    | inr other ↦ ground arith
    | inl same ↦ elim (Result-cases (authenticate hmac r.key r.cfg.id r.mac conn).0) [
      | inl (e, failed) ↦ ground arith
      | inr (t, admitted) ↦ (
        (bytes_eq_iff chosen subprotocol).0 same,
        admitted,
        selected-ok m m.ending (authenticate hmac r.key r.cfg.id r.mac conn).1 (ground arith),
      )
    ]
  ]

  module _ (tap : Tap) (m : Meeting) (s : System) where
    IsServed-run_session : IsServed tap m s → (run_session hmac r tap m s).0 ≡ ok tt
    unfolding run_session with_device dialled_session on_connection selected
    IsServed-run_session h = rw (h.device_opens, h.connects, h.admitted, h.ends) refl

    dialled-ok :
        (d : Dialled) (t : System)
        → (dialled_session hmac r m d t).0 ≡ ok tt
        → (handle : ℕ) × (conn : Conn) × (d ≡ connected handle subprotocol conn)
          × ((authenticate hmac r.key r.cfg.id r.mac conn).0 ≡ ok tt)
          × (m.ending ≡ cancelled)
    unfolding dialled_session
    dialled-ok refused t h = ground arith
    dialled-ok (connected handle chosen conn) t h =
        let (same, admitted, ends) = on_connection-ok m chosen conn h in
        (handle, conn, ap (λ c. connected handle c conn) same, admitted, ends)

    opened-ok :
        (o : Result TapError tap.Device × System)
        → tap.open_device r.cfg.device s ≡ o
        → (with_device hmac r tap m o).0 ≡ ok tt
        → IsServed tap m s
    unfolding with_device
    opened-ok (err e, t) h k = ground arith
    opened-ok (ok d, t) h k =
        let (handle, conn, connects, admitted, ends) = dialled-ok m.dialled t k in
        record {
          device = d;
          after = t;
          device_opens = h;
          handle = handle;
          conn = conn;
          connects = connects;
          admitted = admitted;
          ends = ends;
        }

    -- A session returns without an error exactly when its device opens, the relay is reached and
    -- chooses the subprotocol of this version, the handshake succeeds, and the context ends before
    -- one of the pumps does.
    pub run_session-iff-IsServed : ((run_session hmac r tap m s).0 ≡ ok tt) ↔ IsServed tap m s
    unfolding run_session
    run_session-iff-IsServed =
        (λ h. opened-ok (tap.open_device r.cfg.device s) refl h, λ h. IsServed-run_session h)
