-- ===== src/Provision/Environment/Planned.antt =====
-- The environment files of internal/provision/provision.go for a client that AddClient makes.
use wsn.Provision.Resolver.Normal.{IsResolver, normalize_resolver-IsResolver}
use wsn.Provision.Resolver.{domain_of, normalize_resolver}
use wsn.Provision.Render.{gateway_environment, network_environment}
use wsn.Provision.Plan.Checked.{IsRoute}
use wsn.Provision.Plan.{AddOptions, ProvisionedClient, State}
use wsn.Provision.Names.{safe_interface_name}
use wsn.Provision.Environment.Lines.{gateway_settings, network_settings, read_settings-environment}
use wsn.Provision.Environment.{read_settings}
use wsn.Provision.Deployment.Commands.{prepare-IsPrepared}
use wsn.Provision.Deployment.{IsNetwork}
use wsn.Provision.{Disk, local_mac, prepare}
use wsn.Protocol.{Bytes}
use wsn.Prelude.{
  All, Elem, List, Option, [], false, inl, inr, ok, refl, some, subst, sym, true, ℕ, ◌∷◌, ◌≡◌,
}
use wsn.Netip.{Prefix}
use wsn.Formats.{Formats}
use wsn.Provision.Names.Quotes.{IsPlain, safe_name-IsPlain, safe_domain-IsPlain}
use wsn.Provision.Plan.{is_empty}
use wsn.Provision.Resolver.Normal.{IsNamed}

-- No address, prefix or hardware address that the standard library prints or parses has a quote.
pub record PrintsPlain (f : Formats) : Type 0 where
  pub addr_printed : (a : ℕ) → IsPlain (f.print_addr a)
  pub addr_parsed : (s : Bytes) (a : ℕ) → f.parse_addr s ≡ some a → IsPlain s
  pub prefix_printed : (p : Prefix) → IsPlain (f.print_prefix p)
  pub prefix_parsed : (s : Bytes) (p : Prefix) → f.parse_prefix s ≡ some p → IsPlain s
  pub mac_printed : (m : Bytes) → IsPlain (f.print_mac m)

egress-IsPlain : (s : Bytes) → (is_empty s ≡ false → safe_interface_name s ≡ true) → IsPlain s
unfolding is_empty
egress-IsPlain [] h = tt
egress-IsPlain (c ∷ s) h = safe_name-IsPlain (c ∷ s) (h refl)

named-IsPlain : (d : Bytes) (values : List Bytes) → IsNamed d values → IsPlain d
named-IsPlain d [] n = absurd n
named-IsPlain d (value ∷ values) (inl (safe, present, same)) =
    subst IsPlain (sym same) (safe_domain-IsPlain (domain_of value) safe)
named-IsPlain d (value ∷ values) (inr n) = named-IsPlain d values n

all-IsPlain : (result : List Bytes) → ((d : Bytes) → Elem d result → IsPlain d) → All IsPlain result
all-IsPlain [] h = tt
all-IsPlain (d ∷ result) h = (h d (inl refl), all-IsPlain result (λ e m. h e (inr m)))

module _ (f : Formats) (p : PrintsPlain f) where
  routes-IsPlain :
      (overlay : Prefix) (routes : List Bytes) → All (IsRoute f overlay) routes → All IsPlain routes
  routes-IsPlain overlay [] h = tt
  routes-IsPlain overlay (route ∷ routes) ((prefix, text, printed, parsed, whole, outside), h) =
      (subst IsPlain (sym printed) (p.prefix_printed prefix), routes-IsPlain overlay routes h)

  resolver-IsPlain :
      (value : Bytes) (overlay : Prefix) (dns : Bytes) (domains : List Bytes)
      → IsResolver f value overlay dns domains
      → IsPlain dns
  resolver-IsPlain value overlay dns domains (inl (blank, none_there, no_search)) =
      subst IsPlain (sym none_there) tt
  resolver-IsPlain value overlay dns domains (inr (a, parsed, printed, outside, present)) =
      subst IsPlain (sym printed) (p.addr_printed a)

  -- For a client that AddClient makes in a deployment whose network and resolver Init made, the
  -- environment files of a bundle, which the scripts read as root, hold the settings of the client and
  -- nothing else: the shell takes every value as it is, and no value ends its quotes; given that no
  -- address, prefix or hardware address that is printed or parsed has a quote.
  pub environment-prepare :
      (options : AddOptions) (key mac : Option Bytes) (d : Disk) (state : State)
      (c : ProvisionedClient) (value : Bytes) (domains : List Bytes) (overlay : Prefix)
      → IsNetwork f state
      → normalize_resolver f value domains overlay ≡ ok (state.dns, state.search)
      → prepare f options key mac d ≡ ok (state, c)
      → (read_settings (network_environment state c) ≡ some (network_settings state c))
        × (read_settings (gateway_environment state c) ≡ some (gateway_settings state c))
  environment-prepare options key mac d state c value domains overlay network resolver made =
      let prepared = prepare-IsPrepared f options key mac d state c made in
      let planned = prepared.planned in
      let (found, resolves) =
        normalize_resolver-IsResolver f value domains overlay state.dns state.search resolver in
      read_settings-environment state c planned.device_safe (record {
        mac_plain =
            subst IsPlain (sym prepared.mac_printed) (p.mac_printed (local_mac prepared.mac_bytes));
        address_plain = subst IsPlain (sym planned.place_printed) (p.prefix_printed planned.place);
        routes_plain = routes-IsPlain planned.overlay c.routes planned.routes_outside;
        egress_plain = egress-IsPlain c.egress planned.egress_safe;
        overlay_plain = p.prefix_parsed state.overlay planned.overlay planned.overlay_parsed;
        gateway_plain = p.addr_parsed state.gateway network.gateway network.gateway_parsed;
        dns_plain = resolver-IsPlain value overlay state.dns state.search resolves;
        search_plain =
            all-IsPlain state.search (λ e m. named-IsPlain e domains ((found.exactly e).0 m));
      })
