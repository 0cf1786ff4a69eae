-- ===== src/Netcheck/Check/Clear.antt =====
-- The checks of internal/netcheck/netcheck_linux.go on a configuration that `LoadClient` of
-- internal/config/config.go accepted.
use mathlib.Core.Logic.Iff
use wsn.Netcheck.Routes.{IsClear, client_with_routes_iff, gateway_with_routes_iff}
use wsn.Protocol.{Bytes}
use wsn.Prelude.{
  subst, sym, Result, bytes_eq, err, ok, ◌||◌, ◌↔◌, All, Bool, List, Option, [], map, refl, some,
  true, ◌∷◌, ◌≡◌,
}
use wsn.Netip.{Prefix, masked}
use wsn.Netcheck.Table.Reads.{system_routes-line_text, IsKernelLine, KernelLine, line_text}
use wsn.Netcheck.Check.{RouteFile, client, gateway, networks_of, of_conflict, parse_all}
use wsn.Netcheck.{
  Conflict, is_exempt, Networks, SystemRoute, client_with_routes, gateway_with_routes,
}
use wsn.Formats.{Formats}
use wsn.Config.Client.Sound.{load_client-IsValidClient, IsOutside}
use wsn.Config.Client.{load_client, ClientConfig}

of_conflict_iff : (r : Result Conflict (Unit {0})) → (of_conflict r ≡ ok tt) ↔ (r ≡ ok tt)
of_conflict_iff (ok t) = (λ h. refl, λ h. refl)
of_conflict_iff (err e) = (λ h. cc, λ h. cc)

-- The networks of a client and those of a gateway are clear of the routes of the kernel.
abbrev pub ClientIsClear : Bytes → Prefix → List Prefix → List SystemRoute → Type 0
ClientIsClear device address prefixes routes =
    All (IsClear (is_exempt device) routes) (masked address ∷ map masked prefixes)

abbrev pub GatewayIsClear : Bytes → Bytes → Prefix → List Prefix → List SystemRoute → Type 0
GatewayIsClear device egress address prefixes routes =
    All (IsClear (is_exempt device) routes) (masked address ∷ [])
    × All
        (IsClear (λ existing. is_exempt device existing || bytes_eq existing.interface_name egress)
          routes)
        prefixes

abbrev pub kernel_file : Bytes → List KernelLine → Option RouteFile
kernel_file header ls = some (record { lines = header ∷ map line_text ls; read_whole = true })

abbrev pub kernel_routes : List KernelLine → List SystemRoute
kernel_routes ls = map (λ (l : KernelLine). l.route) ls

module _ (f : Formats) where
  parse_all-IsOutside :
      (overlay : Prefix) (routes : List Bytes)
      → All (IsOutside f overlay) routes
      → (prefixes : List Prefix) × (map f.parse_prefix routes ≡ map some prefixes)
        × (parse_all f routes ≡ prefixes)
  unfolding parse_all
  parse_all-IsOutside overlay [] h = ([], refl, refl)
  parse_all-IsOutside overlay (route ∷ routes) ((p, parsed, apart), h) =
      let (prefixes, each, all) = parse_all-IsOutside overlay routes h in
      (p ∷ prefixes, rw parsed (rw each refl), rw parsed (rw all refl))

  module _ (cfg : ClientConfig) (header : Bytes) (ls : List KernelLine)
      (lines : All IsKernelLine ls) where
    client-kernel_file :
        client f cfg (kernel_file header ls)
        ≡ of_conflict (client_with_routes (networks_of f cfg) (kernel_routes ls))
    unfolding client
    client-kernel_file = let read = system_routes-line_text header ls lines in rw read refl

    gateway-kernel_file :
        (egress : Bytes)
        → gateway f cfg egress (kernel_file header ls)
          ≡ of_conflict (gateway_with_routes (networks_of f cfg) egress (kernel_routes ls))
    unfolding gateway
    gateway-kernel_file egress = let read = system_routes-line_text header ls lines in rw read refl

  -- On a configuration that LoadClient returned, no text is passed over: its address and its routes
  -- parse, all of them. The check of a client then passes exactly when its network and its routes
  -- share no address with a route in the kernel's table that is neither a default route nor on the
  -- client's device, and the check of a gateway when its network does not, and its routes share none
  -- with a route that does not leave by the egress interface either; the table being one that the
  -- kernel writes for routes with canonical prefixes.
  pub checks-load_client :
      (is_abs : Bytes → Bool) (file cfg : ClientConfig) (egress header : Bytes)
      (ls : List KernelLine)
      → load_client f is_abs file ≡ ok cfg
      → All IsKernelLine ls
      → (address : Prefix) × (prefixes : List Prefix) × (f.parse_prefix cfg.address ≡ some address)
        × (map f.parse_prefix cfg.routes ≡ map some prefixes)
        × ((client f cfg (kernel_file header ls) ≡ ok tt)
            ↔ ClientIsClear cfg.device address prefixes (kernel_routes ls))
        × ((gateway f cfg egress (kernel_file header ls) ≡ ok tt)
            ↔ GatewayIsClear cfg.device egress address prefixes (kernel_routes ls))
  unfolding networks_of
  checks-load_client is_abs file cfg egress header ls accepted lines =
      let v = load_client-IsValidClient f is_abs file cfg accepted in
      let (prefixes, each, all) =
        parse_all-IsOutside (masked v.address) cfg.routes v.routes_outside in
      let made : Networks = record {
        device = cfg.device;
        address = some v.address;
        routes = prefixes;
      } in
      let same : networks_of f cfg ≡ made = rw v.address_parsed (rw all refl) in
      (
        v.address,
        prefixes,
        v.address_parsed,
        each,
        Iff.trans (rw (client-kernel_file cfg header ls lines) (of_conflict_iff _)) (
            subst
              (λ n.
                (client_with_routes n (kernel_routes ls) ≡ ok tt)
                ↔ ClientIsClear cfg.device v.address prefixes (kernel_routes ls))
              (sym same) (client_with_routes_iff made (kernel_routes ls))),
        Iff.trans (rw (gateway-kernel_file cfg header ls lines egress) (of_conflict_iff _)) (
            subst
              (λ n.
                (gateway_with_routes n egress (kernel_routes ls) ≡ ok tt)
                ↔ GatewayIsClear cfg.device egress v.address prefixes (kernel_routes ls))
              (sym same) (gateway_with_routes_iff made egress (kernel_routes ls))),
      )
