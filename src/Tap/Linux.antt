-- ===== src/Tap/Linux.antt =====
-- `open` of internal/tap/tap_linux.go.
use wsn.Prelude.{ℕ, [], Result, ok, err, ◌≡◌, ◌==◌, arith, nat_eq, leb, ◌||◌, length, refuse_if}
use wsn.Prelude.Steps.{◌>>=◌, ◌>>◌, lift, Steps}
use wsn.Protocol.{Bytes}
use wsn.Tap.{
  TapError, System, Answer, acquire, call, release, Tap, invalid_name, no_tun, attach_failed, done,
  pending, failed,
}
use wsn.Tap.Handles.{Opens, IsLawful}

pub record LinuxDevice : Type 0 where
  pub file : ℕ
  pub name : Bytes

-- unix.IFNAMSIZ.
abbrev pub interface_name_size : ℕ
interface_name_size = 16

-- The end of `open` after the request TUNSETIFF; its status is an error number, and `pending` is one.
attached : Answer × System → ℕ → Bytes → Result TapError LinuxDevice × System
attached (done n, s) file name = (ok (record { file = file; name = name }), s)
attached (pending, s) file name = (err attach_failed, (release file s).1)
attached (failed, s) file name = (err attach_failed, (release file s).1)

attach : ℕ → Bytes → Steps System TapError LinuxDevice
unfolding attached
attach file name s = attached (call s) file name

unfoldable pub open_device : Bytes → Steps System TapError LinuxDevice
unfolding attach
open_device name = do
  lift (refuse_if ((length name == 0) || leb interface_name_size (length name)) invalid_name)
  file ← acquire no_tun
  attach file name

abbrev pub close_device : LinuxDevice → System → System
close_device d s = (release d.file s).1

abbrev pub linux_tap : Tap
linux_tap = record { Device = LinuxDevice; open_device = open_device; close_device = close_device }

failed_open_device :
    (name : Bytes) (s t : System) (e : TapError) → open_device name s ≡ (err e, t) → Opens [] s t
unfolding open_device acquire call release
failed_open_device name s t e h = ground arith

close_device-open_device :
    (name : Bytes) (s t u : System) (d : LinuxDevice)
    → open_device name s ≡ (ok d, t)
    → Opens [] t u
    → Opens [] s (close_device d u)
unfolding open_device acquire call release
close_device-open_device name s t u d h same a = ground (arith, same a)

pub linux_tap-IsLawful : IsLawful linux_tap
linux_tap-IsLawful = record {
  failed_open_device = failed_open_device;
  close_device-open_device = close_device-open_device;
}
