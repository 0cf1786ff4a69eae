-- ===== src/Tap/Windows.antt =====
-- The device of internal/tap/tap_windows.go: `open`, `await`, `Read`, `Write` and `Close`. The two
-- directions have an event each; a request runs to its end within `await`. The mutexes are those of Tap.Windows.Locks.
pub mod Opened
pub mod Locks
use wsn.Prelude.{
  ℕ, Bool, true, false, not, List, [], ◌∷◌, ◌++◌, Result, ok, err, ◌==◌, if◌then◌else◌, nat_eq,
  or_err, refuse_if,
}
use wsn.Prelude.Steps.{◌>>=◌, ◌>>◌, lift, Steps}
use wsn.Protocol.{Bytes, codes}
use wsn.Text.{all_bytes}
use wsn.Tap.{
  TapError, System, Answer, acquire, call, release, Tap, done, pending, failed, bad_path,
  open_failed, no_event, reset_failed, io_failed, no_media,
}
use wsn.Tap.Adapters.{Registry, find_adapter}

-- `windowsDevice`; `closed` is what `closeOnce` remembers.
pub record WindowsDevice : Type 0 where
  pub handle : ℕ
  pub name : Bytes
  pub read_event : ℕ
  pub write_event : ℕ
  pub closed : Bool

-- `operation.init`.
unfoldable pub init : Steps System TapError ℕ
init = acquire no_event

-- `operation.close`: a zero event was closed before, or never made.
unfoldable pub close_event : ℕ → System → System
close_event event s = if event == 0 then s else (release event s).1

finished : Answer → Result TapError ℕ
finished (done n) = ok n
finished pending = err io_failed
finished failed = err io_failed

-- The request that `start` made, where it pends, is waited for.
started : Answer × System → Result TapError ℕ × System
unfolding finished
started (done n, s) = (ok n, s)
started (pending, s) = (finished (call s).0, (call s).1)
started (failed, s) = (err io_failed, s)

after_reset : Answer × System → Result TapError ℕ × System
unfolding started
after_reset (done n, s) = started (call s)
after_reset (pending, s) = (err reset_failed, s)
after_reset (failed, s) = (err reset_failed, s)

-- `await`; ResetEvent, the request and GetOverlappedResult are the calls.
unfoldable pub await : Steps System TapError ℕ
unfolding after_reset
await s = after_reset (call s)

-- `Close`: what CloseHandle returned is its error.
unfoldable pub close : WindowsDevice → System → WindowsDevice × System
close d s = if d.closed then (d, s) else (
  record d { read_event = 0; write_event = 0; closed = true },
  close_event d.write_event (close_event d.read_event (release d.handle (call s).1).1),
)

-- An error of a step gives back what the steps before it took.
abbrev or_close :
    {A : Type 0} → Steps System TapError A → (System → System) → Steps System TapError A
or_close m undo s = elim (m s).0 [ ok a ↦ (ok a, (m s).1) | err e ↦ (err e, undo (m s).1) ]

-- `or_close` with the error that the source wraps.
abbrev media : Steps System TapError ℕ → (System → System) → Steps System TapError ℕ
media m undo s = elim (m s).0 [ ok a ↦ (ok a, (m s).1) | err e ↦ (err no_media, undo (m s).1) ]

abbrev device_of : ℕ → Bytes → ℕ → ℕ → WindowsDevice
device_of handle name read_event write_event = record {
  handle = handle;
  name = name;
  read_event = read_event;
  write_event = write_event;
  closed = false;
}

-- The path of the device; UTF16PtrFromString refuses a zero byte.
abbrev path_of : Bytes → Result TapError Bytes
path_of guid =
    let path = codes "\\\\.\\Global\\" ++ guid ++ codes ".tap" in
    if all_bytes (λ c. not (c == 0)) path then ok path else err bad_path

unfoldable pub open_device : Registry → Bytes → Steps System TapError WindowsDevice
open_device r name = do
  guid ← lift (find_adapter r name)
  path ← lift (path_of guid)
  handle ← acquire open_failed
  read_event ← or_close init (λ s. (release handle s).1)
  write_event ← or_close init (λ s. (release handle (close_event read_event s)).1)
  status ← media await (λ s. (close (device_of handle name read_event write_event) s).1)
  lift (ok (device_of handle name read_event write_event))
