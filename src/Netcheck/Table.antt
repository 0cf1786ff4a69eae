-- ===== src/Netcheck/Table.antt =====
-- `systemRoutes` of internal/netcheck/netcheck_linux.go: the kernel's routes from the lines of
-- /proc/net/route. What the scanner reads is the argument.
pub mod Hex
pub mod Reads
use wsn.Text.{cons_first, is_space}
use wsn.Protocol.{Bytes}
use wsn.Prelude.{
  List, Option, [], if◌then◌else◌, leb, length, ltb, none, some, suc, zero, ℕ, ◌%◌, ◌&&◌, ◌*◌, ◌+◌,
  ◌-◌, ◌/◌, ◌^◌, ◌∷◌,
}
use wsn.Netip.{masked}
use wsn.Netcheck.{SystemRoute, net_mask_bits}

-- The parts of a text before and after its first white space; with more white space a part is empty.
unfoldable pub split_space : Bytes → List Bytes
split_space [] = [] ∷ []
split_space (c ∷ s) =
    let parts = split_space s in if is_space c then [] ∷ parts else cons_first c parts

abbrev not_empty : List Bytes → List Bytes
not_empty [] = []
not_empty ([] ∷ parts) = not_empty parts
not_empty ((c ∷ s) ∷ parts) = (c ∷ s) ∷ not_empty parts

-- `strings.Fields` on ASCII.
unfoldable pub fields_of : Bytes → List Bytes
unfolding split_space
fields_of line = not_empty (split_space line)

abbrev pub hex_digit : ℕ → Option ℕ
hex_digit c =
    if leb b'0' c && leb c b'9'
    then some (c - b'0')
    else if leb b'a' c && leb c b'f'
    then some (c - b'a' + 10)
    else if leb b'A' c && leb c b'F'
    then some (c - b'A' + 10)
    else none

abbrev shift_in : ℕ → Option ℕ → Option ℕ
shift_in value none = none
shift_in value (some digit) =
    if ltb (value * 16 + digit) (2 ^ 32) then some (value * 16 + digit) else none

abbrev pub and_digits : (ℕ → Option ℕ) → Option ℕ → Option ℕ
and_digits rest none = none
and_digits rest (some value) = rest value

-- The digits from a value on; a value that does not fit in 32 bits is an error.
unfoldable pub hex_from : Bytes → ℕ → Option ℕ
hex_from [] value = some value
hex_from (c ∷ s) value = and_digits (hex_from s) (shift_in value (hex_digit c))

-- `strconv.ParseUint(s, 16, 32)`.
unfoldable pub parse_hex : Bytes → Option ℕ
unfolding hex_from
parse_hex [] = none
parse_hex (c ∷ s) = hex_from (c ∷ s) 0

-- The four bytes of `binary.LittleEndian.PutUint32`, in their order, as `netip.AddrFrom4` reads them.
abbrev pub swapped_bytes : ℕ → ℕ
swapped_bytes v =
    v % 256 * 2 ^ 24 + v / 256 % 256 * 2 ^ 16 + v / 65536 % 256 * 2 ^ 8 + v / 16777216 % 256

abbrev pub mask_of : ℕ → Option ℕ
unfolding net_mask_bits
mask_of v = net_mask_bits (v % 256) (v / 256 % 256) (v / 65536 % 256) (v / 16777216 % 256)

-- The route that the interface's name, the destination and the mask make.
abbrev pub route_of : Bytes → Option ℕ → Option ℕ → Option SystemRoute
route_of name (some destination) (some bits) = some (record {
  prefix = masked (record { addr = swapped_bytes destination; bits = bits });
  interface_name = name;
})
route_of name _ _ = none

abbrev field_at : List Bytes → ℕ → Bytes
field_at [] n = []
field_at (s ∷ l) zero = s
field_at (s ∷ l) (suc n) = field_at l n

-- One round of the loop; `none` is a line that is skipped.
unfoldable pub line_route : List Bytes → Option SystemRoute
unfolding parse_hex
line_route fields =
    if ltb (length fields) 8
    then none
    else route_of (field_at fields 0) (parse_hex (field_at fields 1))
        (and_digits mask_of (parse_hex (field_at fields 7)))

abbrev with_route : Option SystemRoute → List SystemRoute → List SystemRoute
with_route none routes = routes
with_route (some route) routes = route ∷ routes

unfoldable pub routes_of : List Bytes → List SystemRoute
unfolding line_route fields_of
routes_of [] = []
routes_of (line ∷ lines) = with_route (line_route (fields_of line)) (routes_of lines)

-- The first line is the header.
unfoldable pub system_routes : List Bytes → List SystemRoute
unfolding routes_of
system_routes [] = []
system_routes (header ∷ lines) = routes_of lines
