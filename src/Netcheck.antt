-- ===== src/Netcheck.antt =====
-- internal/netcheck/netcheck_linux.go: the routes of the kernel against the networks of a client.
-- The file that lists the kernel's routes and its splitting into fields are input and output.
pub mod Routes
pub mod Table
pub mod Masks
pub mod Check
mod Examples
use wsn.Prelude.{
  ltb, leb, ◌==◌, if◌then◌else◌, ltb→lt, leb→le, ==_iff, Bool-cases, Option-cases, bytes_eq,
  bytes_eq_iff, bytes_eq_refl, among, Eq, nat_eq, bytes_key, length, take, drop, Elem,
  length-append, take-append-drop, length-take, length-drop, All, All-append, Map, lookup, insert,
  remove, Distinct, Entry, lookup-insert, lookup-remove, insert-Distinct, remove-Distinct,
  Entry-of_lookup, lookup-of_Entry, Result, ◌>>=◌, ◌>>◌, refuse_if, or_err, Result-cases, ok, err,
  ℕ, zero, suc, ◌+◌, ◌-◌, ◌*◌, ◌/◌, ◌%◌, ◌^◌, ◌≤◌, ◌<◌, ◌≡◌, refl, sym, ap, subst, ◌∙◌, ◌≢◌, ◌↔◌,
  ◌⊎◌, inl, inr, Bool, true, false, not, ◌&&◌, ◌||◌, Option, none, some, List, [], ◌∷◌, ◌++◌, map,
  append_assoc, append-nil, arith,
}
use wsn.Protocol.{Bytes}
use wsn.Netip.{Prefix, masked, prefixes_overlap}

pub record SystemRoute : Type 0 where
  pub prefix : Prefix
  pub interface_name : Bytes

-- The networks of a client configuration that parse, and its device. A text that does not parse gives
-- the zero `netip.Prefix`, which overlaps nothing.
pub record Networks : Type 0 where
  pub device : Bytes
  pub address : Option Prefix
  pub routes : List Prefix

-- `existing.prefix.Bits() == 0 || existing.interfaceName == cfg.Device`.
abbrev pub is_exempt : Bytes → SystemRoute → Bool
is_exempt device existing = (existing.prefix.bits == 0) || bytes_eq existing.interface_name device

-- The pair in the error: the configured network and the route that it overlaps.
abbrev pub Conflict : Type 0
Conflict = Prefix × SystemRoute

-- The inner loop over the routes, for one target.
unfoldable pub check_target :
    (SystemRoute → Bool) → Prefix → List SystemRoute → Result Conflict (Unit {0})
check_target exempt target [] = ok tt
check_target exempt target (existing ∷ rest) =
    let more = check_target exempt target rest in
    if not (exempt existing) && prefixes_overlap target existing.prefix
    then err (target, existing)
    else more

unfoldable pub check_targets :
    (SystemRoute → Bool) → List Prefix → List SystemRoute → Result Conflict (Unit {0})
check_targets exempt [] routes = ok tt
check_targets exempt (target ∷ targets) routes = do
  check_target exempt target routes
  check_targets exempt targets routes

-- `address.Masked()`.
abbrev pub overlay_of : Option Prefix → List Prefix
overlay_of none = []
overlay_of (some address) = masked address ∷ []

unfoldable pub client_with_routes : Networks → List SystemRoute → Result Conflict (Unit {0})
client_with_routes cfg routes =
    check_targets (is_exempt cfg.device) (overlay_of cfg.address ++ map masked cfg.routes) routes

-- The targets of the second loop are not masked, as in the source.
unfoldable pub gateway_with_routes :
    Networks → Bytes → List SystemRoute → Result Conflict (Unit {0})
gateway_with_routes cfg egress routes = do
  check_targets (is_exempt cfg.device) (overlay_of cfg.address) routes
  check_targets
      (λ existing. is_exempt cfg.device existing || bytes_eq existing.interface_name egress)
      cfg.routes routes

-- The bits of one byte, the highest first, as `netMaskBits` reads them: `value&(1<<bit) != 0`.
abbrev pub byte_bits : ℕ → List Bool
byte_bits value =
    not (value / 128 % 2 == 0)
    ∷ not (value / 64 % 2 == 0)
    ∷ not (value / 32 % 2 == 0)
    ∷ not (value / 16 % 2 == 0)
    ∷ not (value / 8 % 2 == 0)
    ∷ not (value / 4 % 2 == 0)
    ∷ not (value / 2 % 2 == 0)
    ∷ not (value % 2 == 0)
    ∷ []

-- The two loops of `netMaskBits`; `none` is the result -1.
unfoldable pub mask_loop : ℕ → Bool → List Bool → Option ℕ
mask_loop bits zero_seen [] = some bits
mask_loop bits true (true ∷ rest) = none
mask_loop bits true (false ∷ rest) = mask_loop bits true rest
mask_loop bits false (true ∷ rest) = mask_loop (bits + 1) false rest
mask_loop bits false (false ∷ rest) = mask_loop bits true rest

unfoldable pub net_mask_bits : ℕ → ℕ → ℕ → ℕ → Option ℕ
unfolding mask_loop
net_mask_bits a b c d =
    mask_loop 0 false (byte_bits a ++ (byte_bits b ++ (byte_bits c ++ byte_bits d)))
