-- ===== src/Netcheck/Check/Examples.antt =====
-- A client with a route that the kernel has on another interface.
use mathlib.Core.Option
use wsn.Protocol.{Bytes, codes}
use wsn.Prelude.{
  Bool, Option, [], arith, err, none, ok, List, map, refl, some, true, ◌*◌, ◌^◌, ◌↔◌, ◌∷◌, ◌≡◌,
}
use wsn.Netip.{Prefix, contains, masked, prefixes_overlap}
use wsn.Netcheck.Table.Reads.{IsKernelLine, KernelLine}
use wsn.Netcheck.Table.{system_routes}
use wsn.Netcheck.Check.Clear.{
  ClientIsClear, GatewayIsClear, checks-load_client, kernel_file, kernel_routes,
}
use wsn.Netcheck.{check_target, check_targets, gateway_with_routes, net_mask_bits}
use wsn.Config.Client.{ClientConfig, load_client}
use wsn.Config.{parse_mac, pos, validate_id}
use wsn.Formats.Raw.{raw}
use wsn.Netcheck.Check.{RouteFile, gateway, no_table, client}

abbrev is_abs : Bytes → Bool
is_abs _ = true

abbrev loaded : ClientConfig
loaded = record {
  server = codes "wss://relay/wsn";
  ca_file = codes "/ca";
  id = codes "one";
  key_file = codes "/key";
  device = codes "wsn0";
  mac = 2 ∷ 0 ∷ 0 ∷ 0 ∷ 0 ∷ 1 ∷ [];
  address = 10 ∷ 0 ∷ 0 ∷ 2 ∷ 24 ∷ [];
  gateway = 10 ∷ 0 ∷ 0 ∷ 1 ∷ [];
  routes = (172 ∷ 16 ∷ 0 ∷ 0 ∷ 16 ∷ []) ∷ [];
  max_frame_size = pos 2048;
}

was_loaded : load_client raw is_abs loaded ≡ ok loaded
unfolding load_client validate_id parse_mac contains masked prefixes_overlap
was_loaded = refl

abbrev line : KernelLine
line = record {
  route = record {
    prefix = record { addr = 172 * 2 ^ 24; bits = 8 };
    interface_name = codes "eth0";
  };
  gateway = codes "0100000A";
  flags = codes "0003";
  references = codes "0";
  uses = codes "0";
  metric = codes "100";
  rest = codes "0  ";
}

line-IsKernelLine : IsKernelLine line
unfolding masked
line-IsKernelLine = (record { addr_fits = omega arith; bits_fit = omega arith }, refl, ground arith)

abbrev file : Option RouteFile
file = kernel_file (codes "Iface") (line ∷ [])

abbrev egress : Bytes
egress = codes "eth0"

checks-load_client_example :
    (address : Prefix) × (prefixes : List Prefix) × (raw.parse_prefix loaded.address ≡ some address)
    × (map raw.parse_prefix loaded.routes ≡ map some prefixes)
    × ((client raw loaded file ≡ ok tt)
        ↔ ClientIsClear loaded.device address prefixes (kernel_routes (line ∷ [])))
    × ((gateway raw loaded egress file ≡ ok tt)
        ↔ GatewayIsClear loaded.device egress address prefixes (kernel_routes (line ∷ [])))
checks-load_client_example =
    checks-load_client raw is_abs loaded loaded egress (codes "Iface") (line ∷ []) was_loaded
      (line-IsKernelLine, tt)

test_gateway : gateway raw loaded egress file ≡ ok tt
unfolding gateway gateway_with_routes check_target check_targets masked prefixes_overlap
    system_routes net_mask_bits Option.bind
test_gateway = refl

test_no_table : client raw loaded none ≡ err no_table
unfolding client
test_no_table = refl
