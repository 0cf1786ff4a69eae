-- ===== src/Netcheck/Check.antt =====
-- `Client` and `Gateway` of internal/netcheck/netcheck_linux.go and of netcheck_windows.go, on a
-- configuration of internal/config/config.go.
pub mod Clear
mod Examples
use wsn.Prelude.{◌>>=◌}
use wsn.Protocol.{Bytes}
use wsn.Prelude.{Bool, List, Option, Result, [], err, if◌then◌else◌, none, ok, or_err, some, ◌∷◌}
use wsn.Netip.{Prefix}
use wsn.Netcheck.Table.{system_routes}
use wsn.Netcheck.{Conflict, Networks, SystemRoute, client_with_routes, gateway_with_routes}
use wsn.Formats.{Formats}
use wsn.Config.Client.{ClientConfig}

-- /proc/net/route, as the scanner splits it into lines, and whether it could be read to its end.
pub record RouteFile : Type 0 where
  pub lines : List Bytes
  pub read_whole : Bool

pub data CheckError : Type 0 where
  no_table cut_table not_on_windows : CheckError
  overlaps : Conflict → CheckError

-- `systemRoutes`, from the opening of the file on; `none` is a file that cannot be opened.
read_routes : Option RouteFile → Result CheckError (List SystemRoute)
read_routes none = err no_table
read_routes (some file) = if file.read_whole then ok (system_routes file.lines) else err cut_table

abbrev of_conflict : Result Conflict (Unit {0}) → Result CheckError (Unit {0})
of_conflict (ok t) = ok t
of_conflict (err e) = err (overlaps e)

abbrev pub and_parsed : Option Prefix → List Prefix → List Prefix
and_parsed none rest = rest
and_parsed (some p) rest = p ∷ rest

module _ (f : Formats) where
  -- The texts of the list that `netip.ParsePrefix` reads; the others are passed over.
  unfoldable pub parse_all : List Bytes → List Prefix
  parse_all [] = []
  parse_all (text ∷ texts) = and_parsed (f.parse_prefix text) (parse_all texts)

  unfoldable pub networks_of : ClientConfig → Networks
  unfolding parse_all
  networks_of cfg = record {
    device = cfg.device;
    address = f.parse_prefix cfg.address;
    routes = parse_all cfg.routes;
  }

  -- `Client` on Linux.
  unfoldable pub client : ClientConfig → Option RouteFile → Result CheckError (Unit {0})
  unfolding networks_of read_routes
  client cfg table = do
    routes ← read_routes table
    of_conflict (client_with_routes (networks_of cfg) routes)

  -- `Gateway` on Linux.
  unfoldable pub gateway : ClientConfig → Bytes → Option RouteFile → Result CheckError (Unit {0})
  unfolding networks_of read_routes
  gateway cfg egress table = do
    routes ← read_routes table
    of_conflict (gateway_with_routes (networks_of cfg) egress routes)

-- On Windows both refuse.
abbrev pub windows_client : ClientConfig → Result CheckError (Unit {0})
windows_client cfg = err not_on_windows

abbrev pub windows_gateway : ClientConfig → Bytes → Result CheckError (Unit {0})
windows_gateway cfg egress = err not_on_windows
