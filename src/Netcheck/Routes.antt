-- ===== src/Netcheck/Routes.antt =====
-- The route checks of internal/netcheck/netcheck_linux.go find every conflict.
use wsn.Prelude.{
  Bool-cases, bytes_eq, nat_eq, bytes_key, All, ok, ◌≡◌, refl, ◌↔◌, inl, inr, Bool, false, ◌||◌,
  List, [], ◌∷◌, ◌++◌, map, arith,
}
use wsn.Protocol.{Bytes}
use wsn.Netip.{Prefix, masked}
use wsn.Netip.Overlap.{AreDisjoint, not_overlap_iff}
use wsn.Netcheck.{
  SystemRoute, Networks, overlay_of, is_exempt, check_target, check_targets, client_with_routes,
  gateway_with_routes,
}

-- No address of the target is in a route that is not exempt.
abbrev pub IsClear : (SystemRoute → Bool) → List SystemRoute → Prefix → Type 0
IsClear exempt routes target =
    All (λ (r : SystemRoute). exempt r ≡ false → AreDisjoint target r.prefix) routes

module _ (exempt : SystemRoute → Bool) where
  IsClear-of_ok :
      (target : Prefix) (routes : List SystemRoute)
      → check_target exempt target routes ≡ ok tt
      → IsClear exempt routes target
  unfolding check_target
  IsClear-of_ok target [] h = tt
  IsClear-of_ok target (existing ∷ rest) h = (
    λ counts. (not_overlap_iff target existing.prefix).0 (ground arith),
    IsClear-of_ok target rest (ground arith),
  )

  ok-of_clear :
      (target : Prefix) (routes : List SystemRoute)
      → IsClear exempt routes target
      → check_target exempt target routes ≡ ok tt
  unfolding check_target
  ok-of_clear target [] h = refl
  ok-of_clear target (existing ∷ rest) h = elim (Bool-cases (exempt existing)) [
    | inl skip ↦ let more = ok-of_clear target rest h.1 in ground arith
    | inr counts ↦
        let more = ok-of_clear target rest h.1 in
        let apart = (not_overlap_iff target existing.prefix).1 (h.0 counts) in ground arith
  ]

  IsClear-All-of_ok :
      (targets : List Prefix) (routes : List SystemRoute)
      → check_targets exempt targets routes ≡ ok tt
      → All (IsClear exempt routes) targets
  unfolding check_targets
  IsClear-All-of_ok [] routes h = tt
  IsClear-All-of_ok (target ∷ targets) routes h =
      let first : check_target exempt target routes ≡ ok tt = ground arith in
      (IsClear-of_ok target routes first, IsClear-All-of_ok targets routes (ground arith))

  ok-of_clear-All :
      (targets : List Prefix) (routes : List SystemRoute)
      → All (IsClear exempt routes) targets
      → check_targets exempt targets routes ≡ ok tt
  unfolding check_targets
  ok-of_clear-All [] routes h = refl
  ok-of_clear-All (target ∷ targets) routes h =
      rw (ok-of_clear target routes h.0) (ok-of_clear-All targets routes h.1)

-- The check of a client passes exactly when neither the overlay nor any configured route shares an
-- address with a kernel route that is neither a default route nor on the client's own device.
pub client_with_routes_iff :
    (cfg : Networks) (routes : List SystemRoute)
    → (client_with_routes cfg routes ≡ ok tt)
      ↔ All
          (IsClear (is_exempt cfg.device) routes)
          (overlay_of cfg.address ++ map masked cfg.routes)
unfolding client_with_routes
client_with_routes_iff cfg routes = (
  IsClear-All-of_ok (is_exempt cfg.device) _ routes,
  ok-of_clear-All (is_exempt cfg.device) _ routes,
)

-- The check of a gateway passes exactly when its overlay is clear of the kernel routes as for a
-- client, and each of its destinations is clear of those that do not leave by the egress interface.
pub gateway_with_routes_iff :
    (cfg : Networks) (egress : Bytes) (routes : List SystemRoute)
    → (gateway_with_routes cfg egress routes ≡ ok tt) ↔ (
        All (IsClear (is_exempt cfg.device) routes) (overlay_of cfg.address)
        × All
            (IsClear
              (λ existing. is_exempt cfg.device existing || bytes_eq existing.interface_name egress)
              routes)
            cfg.routes)
unfolding gateway_with_routes
gateway_with_routes_iff cfg egress routes = (into, back)
  where
    leaves : SystemRoute → Bool
    leaves existing = is_exempt cfg.device existing || bytes_eq existing.interface_name egress

    into :
        gateway_with_routes cfg egress routes ≡ ok tt
        → All (IsClear (is_exempt cfg.device) routes) (overlay_of cfg.address)
          × All (IsClear leaves routes) cfg.routes
    into h =
        let first : check_targets (is_exempt cfg.device) (overlay_of cfg.address) routes ≡ ok tt =
          ground arith in
        (
          IsClear-All-of_ok (is_exempt cfg.device) (overlay_of cfg.address) routes first,
          IsClear-All-of_ok leaves cfg.routes routes (ground arith),
        )

    back :
        All (IsClear (is_exempt cfg.device) routes) (overlay_of cfg.address)
          × All (IsClear leaves routes) cfg.routes
        → gateway_with_routes cfg egress routes ≡ ok tt
    back (first, rest) =
        rw (ok-of_clear-All (is_exempt cfg.device) (overlay_of cfg.address) routes first)
          (ok-of_clear-All leaves cfg.routes routes rest)
