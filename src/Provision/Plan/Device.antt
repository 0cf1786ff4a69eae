-- ===== src/Provision/Plan/Device.antt =====
-- The device names that internal/provision/provision.go gives out, on internal/tap/tap_linux.go.
use wsn.Provision.Plan.Checked.{plan_client-IsPlanned}
use wsn.Provision.Plan.{AddOptions, ProvisionedClient, State, linux, plan_client}
use wsn.Provision.Names.{safe_interface_name}
use wsn.Protocol.{Bytes}
use wsn.Formats.{Formats}
use wsn.Prelude.{arith, bytes_eq, err, length, ok, true, ◌<◌, ◌≡◌, ◌≤◌, ◌≢◌}
use wsn.Tap.{System, acquire, call, invalid_name}
use wsn.Tap.Linux.{open_device}

safe_interface_name-length : (s : Bytes) → safe_interface_name s ≡ true → 1 ≤ length s
unfolding safe_interface_name
safe_interface_name-length s h = ground arith

fitting_name :
    (name : Bytes) (s : System)
    → 1 ≤ length name
    → length name < 16
    → (open_device name s).0 ≢ err invalid_name
unfolding open_device acquire call
fitting_name name s low high e = ground arith

-- Every name that AddClient accepts for a client on Linux fits in a request to the kernel: the device
-- of that client is never refused for its name.
pub planned_device-opens :
    (f : Formats) (options : AddOptions) (state : State) (c : ProvisionedClient) (s : System)
    → plan_client f options state ≡ ok c
    → bytes_eq c.os linux ≡ true
    → (open_device c.device s).0 ≢ err invalid_name
planned_device-opens f options state c s planned on_linux =
    let p = plan_client-IsPlanned f options state c planned in
    fitting_name c.device s (safe_interface_name-length c.device p.device_safe)
      (p.device_short on_linux)
