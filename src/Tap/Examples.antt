-- ===== src/Tap/Examples.antt =====
-- A machine with two adapters, and devices that open or fail to.
use wsn.Prelude.{
  List, [], ◌∷◌, ok, err, ◌≡◌, refl, some, nat_eq, bytes_key, ◌⊎◌, Elem, bytes_eq, if◌then◌else◌,
}
use wsn.Protocol.{Bytes, codes}
use wsn.Text.{to_lower}
use wsn.Tap.{TapError, System, done, pending, failed, no_adapter, no_media, acquire, release, call}
use wsn.Tap.Handles.{Opens}
use wsn.Tap.Linux
use wsn.Tap.Adapters.{
  Adapter, Registry, IsAdapter, find_adapter, trim_prefix, is_tap_component, equal_fold,
  find_adapter-IsAdapter,
}
use wsn.Tap.Windows.{WindowsDevice, open_device, close, init, close_event, await}
use wsn.Tap.Windows.Opened.{handles, open_device-close}

abbrev subkeys : List Bytes
subkeys = codes "0001" ∷ codes "0002" ∷ []

abbrev ethernet : Adapter
ethernet = record { component_id = codes "pci"; guid = codes "{A}" }

abbrev virtual : Adapter
virtual = record { component_id = codes "ROOT\\TAP0901"; guid = codes "{B}" }

abbrev registry : Registry
registry = record {
  subkeys = some subkeys;
  adapter = λ k. if bytes_eq k (codes "0001") then some ethernet else some virtual;
  connection = λ g. some (codes "WSN");
}

find_adapter-IsAdapter_example :
    ((guid subkey : Bytes) × (find_adapter registry (codes "wsn") ≡ ok guid)
      × Elem subkey subkeys
      × IsAdapter registry (codes "wsn") guid subkey)
    ⊎ ((find_adapter registry (codes "wsn") ≡ err no_adapter)
        × ((guid subkey : Bytes)
            → Elem subkey subkeys
            → ¬ IsAdapter registry (codes "wsn") guid subkey))
find_adapter-IsAdapter_example = find_adapter-IsAdapter registry (codes "wsn") subkeys refl

test_found : find_adapter registry (codes "wsn") ≡ ok (codes "{B}")
unfolding find_adapter trim_prefix is_tap_component equal_fold to_lower
test_found = refl

-- The control request pends and then fails, as its fifth and sixth calls say.
abbrev machine : System
machine = record {
  answers = done 6 ∷ done 7 ∷ done 8 ∷ done 0 ∷ pending ∷ failed ∷ [];
  opened = [];
  closed = [];
}

test_no_media : (open_device registry (codes "wsn") machine).0 ≡ err no_media
unfolding open_device await init acquire call close release close_event find_adapter trim_prefix
    is_tap_component equal_fold to_lower
test_no_media = refl

test_all_closed : (open_device registry (codes "wsn") machine).1.closed ≡ 9 ∷ 8 ∷ 7 ∷ []
unfolding open_device await init acquire call close release close_event find_adapter trim_prefix
    is_tap_component equal_fold to_lower
test_all_closed = refl

open_device-close_example :
    ((e : TapError) (t : System)
      → open_device registry (codes "wsn") machine ≡ (err e, t)
      → Opens [] machine t)
    × ((d : WindowsDevice) (t : System)
        → open_device registry (codes "wsn") machine ≡ (ok d, t)
        → Opens (handles d) machine t
          × ((u : System) → Opens [] t u → Opens [] machine (close d u).1)
          × ((u v : System) → close (close d u).0 v ≡ ((close d u).0, v)))
open_device-close_example = open_device-close registry (codes "wsn") machine

test_attach : Linux.open_device (codes "wsn0") machine ≡ (
  ok (record { file = 7; name = codes "wsn0" }),
  record { answers = done 8 ∷ done 0 ∷ pending ∷ failed ∷ []; opened = 7 ∷ []; closed = [] },
)
unfolding Linux.open_device acquire call
test_attach = refl
