-- ===== src/Provision/Mac.antt =====
-- `randomMAC` of internal/provision/provision.go.
use wsn.Provision.{local_mac}
use wsn.Protocol.{Bytes, IsByte}
use wsn.Config.{first_byte}
use Prim.Native.Nat.{ℕ, bit_and, bit_or}
use wsn.Prelude.{
  all_below_lem, all_below, All, [], arith, length, refl, ◌%◌, ◌==◌, ◌∷◌, ◌&&◌, true, Bool, ◌≡◌,
  ltb,
}

-- A byte with its second lowest bit set and its lowest bit clear.
abbrev is_local_unicast : ℕ → Bool
is_local_unicast b = (b % 4 == 2) && ltb b 256

first_byte_table : all_below 256 (λ (b : ℕ). is_local_unicast (bit_and (bit_or b 2) 0xfe)) ≡ true
first_byte_table = refl

-- What randomMAC makes of six random bytes is six bytes whose first says unicast and locally
-- administered.
pub local_mac-IsUnicast :
    (b : Bytes)
    → length b ≡ 6
    → All IsByte b
    → (length (local_mac b) ≡ 6)
      × All IsByte (local_mac b)
      × (first_byte (local_mac b) % 2 ≡ 0)
      × (first_byte (local_mac b) % 4 ≡ 2)
unfolding first_byte
local_mac-IsUnicast [] h bytes = absurd (omega arith)
local_mac-IsUnicast (b ∷ rest) h bytes =
    let good =
      all_below_lem 256 (λ (x : ℕ). is_local_unicast (bit_and (bit_or x 2) 0xfe)) b first_byte_table
        bytes.0 in
    (h, (ground arith, bytes.1), ground arith, ground arith)
