-- ===== src/Provision/Plan/Checked.antt =====
-- What the checks of `AddClient` of internal/provision/provision.go guarantee of a new client.
use wsn.Prelude.{
  subst, ◌||◌, some, none, Option-cases, [], bytes_eq, nat_eq, bytes_key, length, All, Result-cases,
  ok, ℕ, ◌<◌, ◌≡◌, refl, inl, inr, Bool, true, false, Option, List, ◌∷◌, arith,
}
use wsn.Protocol.{Bytes}
use wsn.Formats.{Formats}
use wsn.Text.{trim_space}
use wsn.Text.Sets.{add_text, All-add_text}
use wsn.Netip.{prefixes_overlap, masked, Prefix, usable_address}
use wsn.Config.{validate_id}
use wsn.Provision.Names.{safe_interface_name}
use wsn.Provision.Plan.{
  windows, overlaps_overlay, prefix_eq, ProvisionedClient, State, AddOptions, gateway_role, linux,
  check_options, check_place, check_reach, check_device, check_existing, same_address,
  normalize_address, normalize_routes, is_reachable, is_empty, plan_client,
}

-- The new client against those that are there.
pub record IsNew (id address role : Bytes) (l : List ProvisionedClient) : Type 0 where
  pub ids_new : All (λ (e : ProvisionedClient). bytes_eq e.id id ≡ false) l
  pub addresses_new : All (λ (e : ProvisionedClient). bytes_eq e.address address ≡ false) l
  pub gateway_new :
      bytes_eq role gateway_role ≡ true
      → All (λ (e : ProvisionedClient). bytes_eq e.role gateway_role ≡ false) l

check_existing-IsNew :
    (id address role : Bytes) (l : List ProvisionedClient)
    → check_existing id address (bytes_eq role gateway_role) l ≡ ok tt
    → IsNew id address role l
unfolding check_existing
check_existing-IsNew id address role [] h = record {
  ids_new = tt;
  addresses_new = tt;
  gateway_new = λ g. tt;
}
check_existing-IsNew id address role (e ∷ l) h =
    let rest = check_existing-IsNew id address role l (ground arith) in
    record {
      ids_new = (ground arith, rest.ids_new);
      addresses_new = (ground arith, rest.addresses_new);
      gateway_new = λ g. (ground arith, rest.gateway_new g);
    }

module _ (f : Formats) where
  -- The printed form of a canonical prefix that has no address in common with the overlay.
  abbrev pub IsRoute : Prefix → Bytes → Type 0
  IsRoute overlay route =
      (p : Prefix) × (text : Bytes) × (route ≡ f.print_prefix p)
      × (f.parse_prefix text ≡ some p)
      × (masked p ≡ p)
      × (prefixes_overlap p overlay ≡ false)

  -- What is planned for a client.
  pub record IsPlanned (state : State) (c : ProvisionedClient) : Type 0 where
    pub id_valid : validate_id c.id ≡ ok tt
    pub new : IsNew c.id c.address c.role state.clients
    pub place : Prefix
    pub overlay : Prefix
    pub overlay_parsed : f.parse_prefix state.overlay ≡ some overlay
    pub place_parsed : (text : Bytes) × (f.parse_addr text ≡ some place.addr)
    pub place_printed : c.address ≡ f.print_prefix place
    pub place_bits : place.bits ≡ overlay.bits
    pub place_usable : usable_address overlay place.addr ≡ true
    pub gateway_placed :
        bytes_eq c.role gateway_role ≡ same_address (f.parse_addr state.gateway) place.addr
    pub device_safe : safe_interface_name c.device ≡ true
    pub egress_safe : is_empty c.egress ≡ false → safe_interface_name c.egress ≡ true
    pub device_short : bytes_eq c.os linux ≡ true → length c.device < 16
    pub system_known : (bytes_eq c.os linux || bytes_eq c.os windows) ≡ true
    pub gateway_ready :
        bytes_eq c.role gateway_role ≡ true
        → (bytes_eq c.os linux ≡ true) × (is_empty c.egress ≡ false) × (is_empty c.routes ≡ false)
    pub routes_outside : All (IsRoute overlay) c.routes
    pub dns_reached :
        is_empty state.dns ≡ false
        → bytes_eq c.role gateway_role ≡ false
        → is_reachable f (f.parse_addr state.dns) c.routes ≡ true

  normalize_address_lem :
      (value : Bytes) (o : Option Prefix) (p : Prefix)
      → normalize_address f value o ≡ ok p
      → (overlay : Prefix) × (o ≡ some overlay)
        × (usable_address overlay p.addr ≡ true)
        × (p.bits ≡ overlay.bits)
        × (f.parse_addr value ≡ some p.addr)
  unfolding normalize_address
  normalize_address_lem value none p h = cc
  normalize_address_lem value (some overlay) p h = elim (Option-cases (f.parse_addr value)) [
    | inl bad ↦ ground arith
    | inr (a, e) ↦ (overlay, refl, ground arith, ground arith, ground arith)
  ]

  pub canonical : (p : Prefix) → prefix_eq p (masked p) ≡ true → masked p ≡ p
  unfolding prefix_eq masked
  canonical p h = ground arith

  normalize_routes-IsRoute :
      (values : List Bytes) (overlay : Prefix) (routes : List Bytes)
      → normalize_routes f values (some overlay) ≡ ok routes
      → All (IsRoute overlay) routes
  unfolding normalize_routes overlaps_overlay
  normalize_routes-IsRoute [] overlay routes h =
      subst (All (IsRoute overlay)) {x = []} (ground arith) tt
  normalize_routes-IsRoute (value ∷ values) overlay routes h =
      elim (Option-cases (f.parse_prefix (trim_space value))) [
        | inl bad ↦ ground arith
        | inr (p, e) ↦ elim (Result-cases (normalize_routes f values (some overlay))) [
          | inl (bad, r) ↦ ground arith
          | inr (rest, r) ↦
              let same : add_text (f.print_prefix p) rest ≡ routes = ground arith in
              let own : IsRoute overlay (f.print_prefix p) =
                (p, trim_space value, refl, e, canonical p (ground arith), ground arith) in
              subst (All (IsRoute overlay)) same (
                All-add_text (IsRoute overlay) (f.print_prefix p) rest own
                  (normalize_routes-IsRoute values overlay rest r))
        ]
      ]

  options_lem :
      (options : AddOptions) (role : Bytes)
      → check_options options role ≡ ok tt
      → (validate_id options.id ≡ ok tt)
        × ((bytes_eq options.os linux || bytes_eq options.os windows) ≡ true)
        × (bytes_eq role gateway_role ≡ true
            → (bytes_eq options.os linux ≡ true) × (is_empty options.egress ≡ false))
  unfolding check_options
  options_lem options role h = elim (Result-cases (validate_id options.id)) [
    | inl (bad, e) ↦ ground arith
    | inr (u, e) ↦ (e, ground arith, λ g. (ground arith, ground arith))
  ]

  place_lem :
      (is_gateway : Bool) (gateway : Option ℕ) (address : ℕ)
      → check_place f is_gateway gateway address ≡ ok tt
      → is_gateway ≡ same_address gateway address
  unfolding check_place
  place_lem is_gateway gateway address h = ground arith

  device_lem :
      (options : AddOptions) (device : Bytes)
      → check_device options device ≡ ok tt
      → (safe_interface_name device ≡ true)
        × (bytes_eq options.os linux ≡ true → length device < 16)
        × (is_empty options.egress ≡ false → safe_interface_name options.egress ≡ true)
  unfolding check_device
  device_lem options device h = (ground arith, λ l. ground arith, λ e. ground arith)

  reach_lem :
      (is_gateway : Bool) (state : State) (routes : List Bytes)
      → check_reach f is_gateway state routes ≡ ok tt
      → is_empty state.dns ≡ false
      → is_gateway ≡ false
      → is_reachable f (f.parse_addr state.dns) routes ≡ true
  unfolding check_reach
  reach_lem is_gateway state routes h d g = ground arith

  routes_lem :
      (is_gateway : Bool) (state : State) (routes : List Bytes)
      → check_reach f is_gateway state routes ≡ ok tt
      → is_gateway ≡ true
      → is_empty routes ≡ false
  unfolding check_reach
  routes_lem is_gateway state routes h g = ground arith

  -- The parts of a plan that succeeded.
  plan_parts :
      (options : AddOptions) (state : State) (c : ProvisionedClient)
      → plan_client f options state ≡ ok c
      → (place : Prefix) × (check_options options c.role ≡ ok tt)
        × (normalize_address f options.address (f.parse_prefix state.overlay) ≡ ok place)
        × (check_existing c.id c.address (bytes_eq c.role gateway_role) state.clients ≡ ok tt)
        × (check_place f (bytes_eq c.role gateway_role) (f.parse_addr state.gateway) place.addr
            ≡ ok tt)
        × (check_reach f (bytes_eq c.role gateway_role) state c.routes ≡ ok tt)
        × (check_device options c.device ≡ ok tt)
        × (c.address ≡ f.print_prefix place)
        × (c.id ≡ options.id)
        × (c.os ≡ options.os)
        × (c.egress ≡ options.egress)
        × (normalize_routes f options.routes (f.parse_prefix state.overlay) ≡ ok c.routes)
  unfolding plan_client
  plan_parts options state c h =
      elim (Result-cases (normalize_address f options.address (f.parse_prefix state.overlay))) [
        | inl (bad, a) ↦ ground arith
        | inr (place, a) ↦
            elim (Result-cases (normalize_routes f options.routes (f.parse_prefix state.overlay))) [
              | inl (bad, r) ↦ ground arith
              | inr (routes, r) ↦ (
                place,
                ground arith,
                a,
                ground arith,
                ground arith,
                ground arith,
                ground arith,
                ground arith,
                ground arith,
                ground arith,
                ground arith,
                ground arith,
              )
            ]
      ]

  pub plan_client-id :
      (options : AddOptions) (state : State) (c : ProvisionedClient)
      → plan_client f options state ≡ ok c
      → c.id ≡ options.id
  plan_client-id options state c h =
      let (_, _, _, _, _, _, _, _, same, _, _, _) = plan_parts options state c h in same

  -- A client that passes the checks has a valid identity, and an identity and an address that no other
  -- client has; it is the only gateway if it is one; its address is the printed form of a usable
  -- address of the overlay, the configured one exactly for a gateway; its system is known, and its
  -- device name is safe and, on Linux, short, and the name of its egress is safe if it has one; a
  -- gateway runs Linux with an egress and a route; its routes are printed canonical prefixes outside
  -- the overlay, and where the deployment has a resolver a client that is no gateway reaches it.
  pub plan_client-IsPlanned :
      (options : AddOptions) (state : State) (c : ProvisionedClient)
      → plan_client f options state ≡ ok c
      → IsPlanned state c
  plan_client-IsPlanned options state c h =
      let parts = plan_parts options state c h in
      let (place, o, a, e, p, r, d, printed, id_same, os_same, egress_same, planned) = parts in
      let (overlay, parsed, usable, bits, read) = normalize_address_lem options.address _ place a in
      let (id_valid, system, ready) = options_lem options c.role o in
      record {
        id_valid = rw id_same id_valid;
        new = check_existing-IsNew c.id c.address c.role state.clients e;
        place = place;
        overlay = overlay;
        overlay_parsed = parsed;
        place_parsed = (options.address, read);
        place_printed = printed;
        place_bits = bits;
        place_usable = usable;
        gateway_placed = place_lem (bytes_eq c.role gateway_role) _ place.addr p;
        device_safe = (device_lem options c.device d).0;
        device_short = rw os_same (device_lem options c.device d).1;
        egress_safe = rw egress_same (device_lem options c.device d).2;
        system_known = rw os_same system;
        gateway_ready = λ g.
            (rw os_same (ready g).0, rw egress_same (ready g).1, routes_lem _ state c.routes r g);
        routes_outside =
            normalize_routes-IsRoute options.routes overlay c.routes (rw parsed at planned);
        dns_reached = reach_lem (bytes_eq c.role gateway_role) state c.routes r;
      }
