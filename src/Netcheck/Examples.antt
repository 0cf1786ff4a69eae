-- ===== src/Netcheck/Examples.antt =====
-- An overlay against a default route and a route of the local network.
use wsn.Netcheck.Table.Reads.{KernelLine, line_text}
use wsn.Prelude.{nat_eq, bytes_key, ◌≡◌, refl, List, [], ◌∷◌, ok, some, ◌*◌, ◌^◌, ◌+◌}
use wsn.Protocol.{codes, Bytes}
use wsn.Netip.{masked, prefixes_overlap}
use wsn.Netcheck.{SystemRoute, Networks, gateway_with_routes, check_target, check_targets}

abbrev networks : Networks
networks = record {
  device = 119 ∷ [];
  address = some (record { addr = 10 * 2 ^ 24 + 1; bits = 24 });
  routes = record { addr = 172 * 2 ^ 24; bits = 16 } ∷ [];
}

abbrev eth : Bytes
eth = 101 ∷ []

abbrev routes : List SystemRoute
routes =
    record { prefix = record { addr = 0; bits = 0 }; interface_name = eth }
    ∷ record { prefix = record { addr = 172 * 2 ^ 24; bits = 12 }; interface_name = eth }
    ∷ []

test_gateway_with_routes : gateway_with_routes networks eth routes ≡ ok tt
unfolding gateway_with_routes check_target check_targets masked prefixes_overlap
test_gateway_with_routes = refl

abbrev line : KernelLine
line = record {
  route = record { prefix = record { addr = 172 * 2 ^ 24; bits = 12 }; interface_name = eth };
  gateway = codes "0100000A";
  flags = codes "0003";
  references = codes "0";
  uses = codes "0";
  metric = codes "100";
  rest = codes "0  ";
}

test_line_text : line_text line ≡ codes "e\t000000AC\t0100000A\t0003\t0\t0\t100\t0000F0FF\t0  "
test_line_text = refl
