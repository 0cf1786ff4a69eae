-- ===== src/Tap/Windows/Opened.antt =====
-- What `open` of internal/tap/tap_windows.go leaves open on each of its paths.
use wsn.Prelude.{ℕ, List, [], ◌∷◌, ok, err, ◌≡◌, arith, nat_eq, false, ◌<◌}
use wsn.Protocol.{Bytes}
use wsn.Tap.{TapError, System, acquire, call, release, Tap}
use wsn.Tap.Handles.{Opens, IsLawful}
use wsn.Tap.Adapters.{Registry}
use wsn.Tap.Windows.{WindowsDevice, open_device, close, init, close_event, await}

abbrev pub windows_tap : Registry → Tap
windows_tap r = record {
  Device = WindowsDevice;
  open_device = open_device r;
  close_device = λ d s. (close d s).1;
}

await-Opens : (s : System) → Opens [] s (await s).1
unfolding await call
await-Opens s = ground arith

failed_open_device :
    (r : Registry) (name : Bytes) (s t : System) (e : TapError)
    → open_device r name s ≡ (err e, t)
    → Opens [] s t
unfolding open_device acquire release init close close_event call await
failed_open_device r name s t e h = ground arith

-- The three handles of an open device.
abbrev pub handles : WindowsDevice → List ℕ
handles d = d.handle ∷ d.read_event ∷ d.write_event ∷ []

record IsOpen (d : WindowsDevice) : Type 0 where
  not_closed : d.closed ≡ false
  read_made : 0 < d.read_event
  write_made : 0 < d.write_event

open_device-IsOpen :
    (r : Registry) (name : Bytes) (s t : System) (d : WindowsDevice)
    → open_device r name s ≡ (ok d, t)
    → IsOpen d
unfolding open_device acquire release init close close_event call await
open_device-IsOpen r name s t d h = record {
  not_closed = ground arith;
  read_made = ground arith;
  write_made = ground arith;
}

-- What the calls of a successful open opened and closed.
open_device-opened :
    (r : Registry) (name : Bytes) (s t : System) (d : WindowsDevice)
    → open_device r name s ≡ (ok d, t)
    → t.opened ≡ d.write_event ∷ d.read_event ∷ d.handle ∷ s.opened
unfolding open_device acquire release init close close_event call await
open_device-opened r name s t d h = ground arith

open_device-closed :
    (r : Registry) (name : Bytes) (s t : System) (d : WindowsDevice)
    → open_device r name s ≡ (ok d, t)
    → t.closed ≡ s.closed
unfolding open_device acquire release init close close_event call await
open_device-closed r name s t d h = ground arith

open_device-Opens :
    (r : Registry) (name : Bytes) (s t : System) (d : WindowsDevice)
    → open_device r name s ≡ (ok d, t)
    → Opens (handles d) s t
open_device-Opens r name s t d h a =
    rw (open_device-opened r name s t d h, open_device-closed r name s t d h) (omega arith)

close-Opens :
    (s t : System) (d : WindowsDevice) → IsOpen d → Opens (handles d) s t → Opens [] s (close d t).1
unfolding close release close_event call
close-Opens s t d o h a =
    let e = o.not_closed in let r = o.read_made in let w = o.write_made in ground (arith, h a)

Opens-trans : (hs : List ℕ) (s t u : System) → Opens hs s t → Opens [] t u → Opens hs s u
Opens-trans hs s t u h k a = omega (arith, h a, k a)

close_device-open_device :
    (r : Registry) (name : Bytes) (s t u : System) (d : WindowsDevice)
    → open_device r name s ≡ (ok d, t)
    → Opens [] t u
    → Opens [] s (close d u).1
close_device-open_device r name s t u d h same =
    close-Opens s u d (open_device-IsOpen r name s t d h)
      (Opens-trans (handles d) s t u (open_device-Opens r name s t d h) same)

close-close : (d : WindowsDevice) (u v : System) → close (close d u).0 v ≡ ((close d u).0, v)
unfolding close
close-close d u v = ground arith

windows_tap-IsLawful : (r : Registry) → IsLawful (windows_tap r)
windows_tap-IsLawful r = record {
  failed_open_device = failed_open_device r;
  close_device-open_device = close_device-open_device r;
}

-- A device that open returned has three handles, the adapter's and an event for each direction, that
-- were opened for it and stay open until Close; then each of them is closed once, a second Close
-- makes no call, and where open fails it has closed what it opened.
pub open_device-close :
    (r : Registry) (name : Bytes) (s : System)
    → ((e : TapError) (t : System) → open_device r name s ≡ (err e, t) → Opens [] s t)
      × ((d : WindowsDevice) (t : System)
          → open_device r name s ≡ (ok d, t)
          → Opens (handles d) s t
            × ((u : System) → Opens [] t u → Opens [] s (close d u).1)
            × ((u v : System) → close (close d u).0 v ≡ ((close d u).0, v)))
open_device-close r name s = (
  λ e t h. failed_open_device r name s t e h,
  λ d t h. (
    open_device-Opens r name s t d h,
    λ u same. close_device-open_device r name s t u d h same,
    close-close d,
  ),
)
