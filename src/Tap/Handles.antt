-- ===== src/Tap/Handles.antt =====
-- Which handles the code leaves open, whatever their order.
use wsn.Prelude.{ℕ, List, [], ◌∷◌, ok, err, ◌+◌, ◌≡◌, ◌==◌, if◌then◌else◌, nat_eq}
use wsn.Protocol.{Bytes}
use wsn.Tap.{TapError, System, Tap}

abbrev pub count : ℕ → List ℕ → ℕ
count a [] = 0
count a (x ∷ xs) = (if x == a then 1 else 0) + count a xs

-- Between the two states the handles of the list were opened and stay open.
abbrev pub Opens : List ℕ → System → System → Type 0
Opens hs s t =
    (a : ℕ) → count a t.opened + count a s.closed ≡ count a s.opened + count a t.closed + count a hs

-- What the client needs of the devices: a failed `Open` leaves nothing open, and `Close` gives back
-- what `Open` took.
pub record IsLawful (tap : Tap) : Type 0 where
  pub failed_open_device :
      (name : Bytes) (s t : System) (e : TapError)
      → tap.open_device name s ≡ (err e, t)
      → Opens [] s t
  pub close_device-open_device :
      (name : Bytes) (s t u : System) (d : tap.Device)
      → tap.open_device name s ≡ (ok d, t)
      → Opens [] t u
      → Opens [] s (tap.close_device d u)
