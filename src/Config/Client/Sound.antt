-- ===== src/Config/Client/Sound.antt =====
-- What a client configuration that `LoadClient` of internal/config/config.go accepts satisfies.
use wsn.Prelude.{
  Option-cases, nat_eq, bytes_key, All, Result-cases, ok, ℕ, ◌≡◌, refl, inl, inr, Bool, true, false,
  some, List, [], ◌∷◌, arith,
}
use wsn.Protocol.{Bytes}
use wsn.Netip.{Prefix, masked, contains, prefixes_overlap}
use wsn.Formats.{Formats}
use wsn.Config.{or_default, validate_id, parse_mac}
use wsn.Config.Valid.{IsBetween, IsBetween-bounds}
use wsn.Config.Client.{ClientConfig, check_routes, load_client}

module _ (f : Formats) where
  -- The text is an IPv4 prefix that has no address in common with the overlay's.
  abbrev pub IsOutside : Prefix → Bytes → Type 0
  IsOutside overlay route =
      (prefix : Prefix) × (f.parse_prefix route ≡ some prefix)
      × (prefixes_overlap overlay (masked prefix) ≡ false)

  pub record IsValidClient (is_abs : Bytes → Bool) (cfg : ClientConfig) : Type 0 where
    pub id_valid : validate_id cfg.id ≡ ok tt
    pub ca_file_absolute : is_abs cfg.ca_file ≡ true
    pub key_file_absolute : is_abs cfg.key_file ≡ true
    pub mac : Bytes
    pub mac_printed : cfg.mac ≡ f.print_mac mac
    pub address : Prefix
    pub address_parsed : f.parse_prefix cfg.address ≡ some address
    pub gateway : ℕ
    pub gateway_parsed : f.parse_addr cfg.gateway ≡ some gateway
    pub gateway_inside : contains (masked address) gateway ≡ true
    pub routes_outside : All (IsOutside (masked address)) cfg.routes
    pub frame_between : IsBetween 64 65535 cfg.max_frame_size

  check_routes-IsOutside :
      (address : Prefix) (routes : List Bytes)
      → check_routes f address routes ≡ ok tt
      → All (IsOutside (masked address)) routes
  unfolding check_routes
  check_routes-IsOutside address [] h = tt
  check_routes-IsOutside address (route ∷ routes) h = elim (Option-cases (f.parse_prefix route)) [
    | inl bad ↦ ground arith
    | inr (prefix, e) ↦
        ((prefix, e, ground arith), check_routes-IsOutside address routes (ground arith))
  ]

  -- A client configuration that LoadClient accepts has a valid identity, absolute paths, the printed
  -- form of a hardware address, an IPv4 address whose network holds the gateway, routes that
  -- are IPv4 prefixes and do not overlap that network, and a frame size between 64 and 65535.
  pub load_client-IsValidClient :
      (is_abs : Bytes → Bool) (cfg cfg' : ClientConfig)
      → load_client f is_abs cfg ≡ ok cfg'
      → IsValidClient is_abs cfg'
  unfolding load_client
  load_client-IsValidClient is_abs cfg cfg' h = elim (Result-cases (parse_mac f cfg.mac)) [
    | inl (bad, m) ↦ ground arith
    | inr (mac, m) ↦ elim (Option-cases (f.parse_prefix cfg.address)) [
      | inl a ↦ ground arith
      | inr (address, a) ↦ elim (Option-cases (f.parse_addr cfg.gateway)) [
        | inl g ↦ ground arith
        | inr (gateway, g) ↦
            let same : cfg' ≡ record cfg {
              mac = f.print_mac mac;
              max_frame_size = or_default cfg.max_frame_size 2048;
            } =
              ground arith in
            rw same (record {
              id_valid = ground arith;
              ca_file_absolute = ground arith;
              key_file_absolute = ground arith;
              mac = mac;
              mac_printed = refl;
              address = address;
              address_parsed = a;
              gateway = gateway;
              gateway_parsed = g;
              gateway_inside = ground arith;
              routes_outside = check_routes-IsOutside address cfg.routes (ground arith);
              frame_between =
                  IsBetween-bounds 64 65535 (or_default cfg.max_frame_size 2048) (ground arith);
            })
      ]
    ]
  ]
