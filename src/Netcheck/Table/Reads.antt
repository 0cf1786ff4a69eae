-- ===== src/Netcheck/Table/Reads.antt =====
-- `systemRoutes` of internal/netcheck/netcheck_linux.go reads what the kernel writes.
use wsn.Netcheck.Table.Hex.{
  hex_char, mask_number, mask_of-mask_number, parse_hex-print_hex, print_hex, swapped_bytes-lt,
  swapped_bytes-swapped_bytes,
}
use mathlib.Core.Path.{ap₂}
use wsn.Netip.{IsPrefix, masked}
use wsn.Text.{is_space}
use wsn.Netcheck.{SystemRoute}
use wsn.Protocol.{Bytes}
use wsn.Prelude.{
  map, length, All, List, ap, false, refl, ◌++◌, [], arith, ltb, some, ℕ, ◌%◌, ◌/◌, ◌^◌, ◌∙◌, ◌∷◌,
  ◌≡◌,
}
use wsn.Netcheck.Table.{
  routes_of, system_routes, and_digits, route_of, line_route, fields_of, mask_of, split_space,
  parse_hex, swapped_bytes,
}

-- A part of a line: not empty, and without white space.
abbrev pub IsField : Bytes → Type 0
IsField [] = ⊥
IsField (c ∷ s) = All (λ x. is_space x ≡ false) (c ∷ s)

split_space-append :
    (s rest : Bytes)
    → All (λ x. is_space x ≡ false) s
    → split_space (s ++ 9 ∷ rest) ≡ s ∷ split_space rest
unfolding split_space
split_space-append [] rest h = refl
split_space-append (c ∷ s) rest h = let more = split_space-append s rest h.1 in ground arith

fields_of-IsField : (s rest : Bytes) → IsField s → fields_of (s ++ 9 ∷ rest) ≡ s ∷ fields_of rest
unfolding fields_of
fields_of-IsField [] rest h = absurd h
fields_of-IsField (c ∷ s) rest h = let more = split_space-append (c ∷ s) rest h in ground arith

-- The parts, each with a tab behind it, and the rest of the line.
abbrev pub tabbed : List Bytes → Bytes → Bytes
tabbed [] rest = rest
tabbed (s ∷ l) rest = s ++ 9 ∷ tabbed l rest

fields_of-tabbed :
    (l : List Bytes) (rest : Bytes)
    → All IsField l
    → fields_of (tabbed l rest) ≡ l ++ fields_of rest
fields_of-tabbed [] rest h = refl
fields_of-tabbed (s ∷ l) rest h =
    fields_of-IsField s (tabbed l rest) h.0 ∙ ap (◌∷◌ s) (fields_of-tabbed l rest h.1)

-- The first eight parts of a line of the kernel for a route: the interface, the destination, five
-- parts that are not read, and the mask. The numbers are in the byte order of the network, read as
-- numbers of a little-endian machine.
abbrev pub kernel_fields : SystemRoute → Bytes → Bytes → Bytes → Bytes → Bytes → List Bytes
kernel_fields r a b c d e =
    r.interface_name
    ∷ print_hex (swapped_bytes r.prefix.addr)
    ∷ a
    ∷ b
    ∷ c
    ∷ d
    ∷ e
    ∷ print_hex (swapped_bytes (mask_number r.prefix.bits))
    ∷ []

line_route-fields :
    (s t a b c d e m : Bytes) (more : List Bytes)
    → line_route (s ∷ t ∷ a ∷ b ∷ c ∷ d ∷ e ∷ m ∷ more)
      ≡ route_of s (parse_hex t) (and_digits mask_of (parse_hex m))
unfolding line_route
line_route-fields s t a b c d e m more =
    let long : ltb (length (s ∷ t ∷ a ∷ b ∷ c ∷ d ∷ e ∷ m ∷ more)) 8 ≡ false = ground arith in
    rw long

line_route-kernel_fields :
    (r : SystemRoute) (a b c d e : Bytes) (more : List Bytes)
    → IsPrefix r.prefix
    → masked r.prefix ≡ r.prefix
    → line_route (kernel_fields r a b c d e ++ more) ≡ some r
line_route-kernel_fields r a b c d e more p whole =
    let destination =
      parse_hex-print_hex (swapped_bytes r.prefix.addr) (swapped_bytes-lt r.prefix.addr) in
    let mask =
      parse_hex-print_hex (swapped_bytes (mask_number r.prefix.bits))
        (swapped_bytes-lt (mask_number r.prefix.bits)) in
    let bits = mask_of-mask_number r.prefix.bits p.bits_fit in
    let addr = swapped_bytes-swapped_bytes r.prefix.addr p.addr_fits in
    let made : line_route (kernel_fields r a b c d e ++ more)
        ≡ route_of r.interface_name (some (swapped_bytes r.prefix.addr)) (some r.prefix.bits) =
      line_route-fields r.interface_name _ a b c d e _ more
      ∙ ap₂ (route_of r.interface_name) destination (ap (and_digits mask_of) mask ∙ bits) in
    made ∙ rw addr (rw whole refl)

-- A line that the kernel writes for a route: its other parts, and what stands behind the mask.
pub record KernelLine : Type 0 where
  pub route : SystemRoute
  pub gateway : Bytes
  pub flags : Bytes
  pub references : Bytes
  pub uses : Bytes
  pub metric : Bytes
  pub rest : Bytes

abbrev pub line_fields : KernelLine → List Bytes
line_fields l = kernel_fields l.route l.gateway l.flags l.references l.uses l.metric

abbrev pub line_text : KernelLine → Bytes
line_text l = tabbed (line_fields l) l.rest

-- The route has a canonical prefix, and no part is empty or has white space in it.
abbrev pub IsKernelLine : KernelLine → Type 0
IsKernelLine l =
    IsPrefix l.route.prefix
    × (masked l.route.prefix ≡ l.route.prefix)
    × All IsField
        (l.route.interface_name ∷ l.gateway ∷ l.flags ∷ l.references ∷ l.uses ∷ l.metric ∷ [])

hex_char-not_space : (v : ℕ) → is_space (hex_char (v % 16)) ≡ false
hex_char-not_space v = ground arith

print_hex-IsField : (v : ℕ) → IsField (print_hex v)
print_hex-IsField v =
    let at = λ (k : ℕ). hex_char-not_space (v / k) in
    (
      at (16 ^ 7),
      (
        at (16 ^ 6),
        (
          at (16 ^ 5),
          (at (16 ^ 4), (at (16 ^ 3), (at (16 ^ 2), (at 16, (hex_char-not_space v, tt))))),
        ),
      ),
    )

line_route-line_text :
    (l : KernelLine) → IsKernelLine l → line_route (fields_of (line_text l)) ≡ some l.route
line_route-line_text l (p, whole, (i, (g, (fl, (re, (us, (me, _))))))) =
    let parts : All IsField (line_fields l) = (
      i,
      (
        print_hex-IsField (swapped_bytes l.route.prefix.addr),
        (
          g,
          (
            fl,
            (
              re,
              (us, (me, (print_hex-IsField (swapped_bytes (mask_number l.route.prefix.bits)), tt))),
            ),
          ),
        ),
      ),
    ) in
    ap line_route (fields_of-tabbed (line_fields l) l.rest parts)
    ∙ line_route-kernel_fields l.route l.gateway l.flags l.references l.uses l.metric
        (fields_of l.rest) p whole

routes_of-line_text :
    (ls : List KernelLine)
    → All IsKernelLine ls
    → routes_of (map line_text ls) ≡ map (λ (l : KernelLine). l.route) ls
unfolding routes_of
routes_of-line_text [] h = refl
routes_of-line_text (l ∷ ls) h =
    let first = line_route-line_text l h.0 in let more = routes_of-line_text ls h.1 in ground arith

-- From a header and the lines that the kernel writes for routes with canonical prefixes, systemRoutes
-- reads exactly these routes, in their order, whatever the parts of a line are that it does not use,
-- as long as they are not empty and have no white space, and whatever stands behind the mask.
pub system_routes-line_text :
    (header : Bytes) (ls : List KernelLine)
    → All IsKernelLine ls
    → system_routes (header ∷ map line_text ls) ≡ map (λ (l : KernelLine). l.route) ls
unfolding system_routes
system_routes-line_text header ls h = routes_of-line_text ls h
