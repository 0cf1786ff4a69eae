-- ===== src/Config/Valid.antt =====
-- What LoadRelay of internal/config/config.go guarantees of the configuration that it returns.
use wsn.Prelude.{
  some, Option-cases, bytes_eq, nat_eq, bytes_key, length, All, Result-cases, ok, ℕ, ◌%◌, ◌≤◌, ◌≡◌,
  refl, subst, inl, inr, false, ◌||◌, List, [], ◌∷◌, map, arith,
}
use wsn.Protocol.{Bytes, IsByte}
use wsn.Formats.{Formats, ReadsBack}
use wsn.Config.{
  ℤ, pos, negsuc, below, above, RelayClient, RelayConfig, validate_id, decode_key, parse_mac,
  first_byte, is_seen, check_clients, check_relay, load_relay, with_defaults,
}

-- Every text differs from those behind it.
abbrev pub AreDistinct : List Bytes → Type 0
AreDistinct [] = Unit
AreDistinct (s ∷ l) = All (λ t. bytes_eq s t ≡ false) l × AreDistinct l

abbrev pub ids_of : List RelayClient → List Bytes
ids_of l = map (λ (c : RelayClient). c.id) l

abbrev pub macs_of : List RelayClient → List Bytes
macs_of l = map (λ (c : RelayClient). c.mac) l

module _ (f : Formats) where
  -- A client with a valid identity, a key of 32 bytes and a printed unicast address of six bytes.
  pub record IsClient (c : RelayClient) : Type 0 where
    pub id_valid : validate_id c.id ≡ ok tt
    pub key : Bytes
    pub key_decodes : decode_key f c.key ≡ ok key
    pub mac : Bytes
    pub text : Bytes
    pub mac_parsed : f.parse_mac text ≡ some mac
    pub mac_printed : c.mac ≡ f.print_mac mac
    pub mac_six : length mac ≡ 6
    pub mac_unicast : first_byte mac % 2 ≡ 0

  -- The result of the loop, given what was seen before.
  record IsCheckedAfter (ids macs : List Bytes) (l : List RelayClient) : Type 0 where
    each : All IsClient l
    ids_distinct : AreDistinct (ids_of l)
    macs_distinct : AreDistinct (macs_of l)
    ids_new : All (λ s. is_seen s ids ≡ false) (ids_of l)
    macs_new : All (λ s. is_seen s macs ≡ false) (macs_of l)

  parse_mac_lem :
      (value mac : Bytes)
      → parse_mac f value ≡ ok mac
      → (length mac ≡ 6) × (first_byte mac % 2 ≡ 0) × (f.parse_mac value ≡ some mac)
  unfolding parse_mac
  parse_mac_lem value mac h = elim (Option-cases (f.parse_mac value)) [
    | inl bad ↦ ground arith
    | inr (m, e) ↦ (ground arith, ground arith, ground arith)
  ]

  -- What is new after one more text was seen differs from it and was new before.
  not_seen :
      (s : Bytes) (seen l : List Bytes)
      → All (λ t. is_seen t (s ∷ seen) ≡ false) l
      → All (λ t. bytes_eq s t ≡ false) l × All (λ t. is_seen t seen ≡ false) l
  not_seen s seen [] h = (tt, tt)
  not_seen s seen (t ∷ l) h =
      let (apart, older) = not_seen s seen l h.1 in ((ground arith, apart), (ground arith, older))

  check_clients-IsCheckedAfter :
      (ids macs : List Bytes) (l l' : List RelayClient)
      → check_clients f ids macs l ≡ ok l'
      → IsCheckedAfter ids macs l'
  unfolding check_clients
  check_clients-IsCheckedAfter ids macs [] l' h =
      subst (IsCheckedAfter ids macs) {x = []} (ground arith)
        (record { each = tt; ids_distinct = tt; macs_distinct = tt; ids_new = tt; macs_new = tt })
  check_clients-IsCheckedAfter ids macs (client ∷ rest) l' h =
      elim (Result-cases (parse_mac f client.mac)) [
        | inl (bad, e) ↦ ground arith
        | inr (mac, e) ↦ elim (Result-cases (decode_key f client.key)) [
          | inl (bad, k) ↦ ground arith
          | inr (key, k) ↦
              elim (Result-cases
                (check_clients f (client.id ∷ ids) (f.print_mac mac ∷ macs) rest)) [
                  | inl (bad, r) ↦ ground arith
                  | inr (done, r) ↦ extend mac key done e k r (
                      check_clients-IsCheckedAfter (client.id ∷ ids) (f.print_mac mac ∷ macs) rest
                        done r)
                ]
        ]
      ]
    where
      extend :
          (mac key : Bytes) (done : List RelayClient)
          → parse_mac f client.mac ≡ ok mac
          → decode_key f client.key ≡ ok key
          → check_clients f (client.id ∷ ids) (f.print_mac mac ∷ macs) rest ≡ ok done
          → IsCheckedAfter (client.id ∷ ids) (f.print_mac mac ∷ macs) done
          → IsCheckedAfter ids macs l'
      extend mac key done e k r ih =
          let checked : RelayClient = record client { mac = f.print_mac mac } in
          let (ids_apart, ids_older) = not_seen client.id ids (ids_of done) ih.ids_new in
          let (macs_apart, macs_older) =
            not_seen (f.print_mac mac) macs (macs_of done) ih.macs_new in
          let client_ok : IsClient checked = record {
            id_valid = ground arith;
            key = key;
            key_decodes = k;
            mac = mac;
            text = client.mac;
            mac_parsed = (parse_mac_lem client.mac mac e).2;
            mac_printed = refl;
            mac_six = (parse_mac_lem client.mac mac e).0;
            mac_unicast = (parse_mac_lem client.mac mac e).1;
          } in
          subst (IsCheckedAfter ids macs) {x = checked ∷ done} (ground arith) (record {
            each = (client_ok, ih.each);
            ids_distinct = (ids_apart, ih.ids_distinct);
            macs_distinct = (macs_apart, ih.macs_distinct);
            ids_new = (ground arith, ids_older);
            macs_new = (ground arith, macs_older);
          })

-- The number is there and lies between the bounds.
abbrev pub IsBetween : ℕ → ℕ → ℤ → Type 0
IsBetween lo hi (pos n) = (lo ≤ n) × (n ≤ hi)
IsBetween lo hi (negsuc n) = ⊥

pub IsBetween-bounds : (lo hi : ℕ) (z : ℤ) → (below z lo || above z hi) ≡ false → IsBetween lo hi z
IsBetween-bounds lo hi (pos n) h = ground arith
IsBetween-bounds lo hi (negsuc n) h = cc

-- A configuration that the relay can run with.
pub record IsValidRelay (f : Formats) (cfg : RelayConfig) : Type 0 where
  pub paths_differ : bytes_eq cfg.path cfg.health_path ≡ false
  pub frame_between : IsBetween 64 65535 cfg.max_frame_size
  pub queue_between : IsBetween 1 65536 cfg.client_queue_size
  pub pending_between : IsBetween 1 4096 cfg.max_pending_handshakes
  pub handshake_between : IsBetween 1000 60000 cfg.handshake_timeout_ms
  pub idle_between : IsBetween 10000 3600000 cfg.idle_timeout_ms
  pub clients_valid : All (IsClient f) cfg.clients
  pub ids_differ : AreDistinct (ids_of cfg.clients)
  pub macs_differ : AreDistinct (macs_of cfg.clients)

module _ (f : Formats) where
  check_relay-IsValidRelay :
      (cfg cfg' : RelayConfig) → check_relay f cfg ≡ ok cfg' → IsValidRelay f cfg'
  unfolding check_relay
  check_relay-IsValidRelay cfg cfg' h = elim (Result-cases (check_clients f [] [] cfg.clients)) [
    | inl (bad, e) ↦ ground arith
    | inr (clients, e) ↦
        let v = check_clients-IsCheckedAfter f [] [] cfg.clients clients e in
        let same : cfg' ≡ record cfg { clients = clients } = ground arith in
        rw same (record {
          paths_differ = ground arith;
          frame_between = IsBetween-bounds 64 65535 cfg.max_frame_size (ground arith);
          queue_between = IsBetween-bounds 1 65536 cfg.client_queue_size (ground arith);
          pending_between = IsBetween-bounds 1 4096 cfg.max_pending_handshakes (ground arith);
          handshake_between = IsBetween-bounds 1000 60000 cfg.handshake_timeout_ms (ground arith);
          idle_between = IsBetween-bounds 10000 3600000 cfg.idle_timeout_ms (ground arith);
          clients_valid = v.each;
          ids_differ = v.ids_distinct;
          macs_differ = v.macs_distinct;
        })
  ]

  -- A configuration that LoadRelay accepts, with the defaults filled in, has its sizes and timeouts
  -- within the documented bounds and two different paths; every client has a valid identity, a key
  -- that decodes to 32 bytes and the printed form of a unicast address of six bytes; and no two
  -- clients share an identity or a printed address.
  pub load_relay-IsValidRelay :
      (cfg cfg' : RelayConfig) → load_relay f cfg ≡ ok cfg' → IsValidRelay f cfg'
  unfolding load_relay
  load_relay-IsValidRelay cfg cfg' h = check_relay-IsValidRelay (with_defaults f cfg) cfg' h

-- A unicast address of six bytes is read back from its printed form.
pub parse_mac-print_mac :
    (f : Formats) (r : ReadsBack f) (mac : Bytes)
    → length mac ≡ 6
    → All IsByte mac
    → first_byte mac % 2 ≡ 0
    → parse_mac f (f.print_mac mac) ≡ ok mac
unfolding parse_mac
parse_mac-print_mac f r mac six bytes unicast = let read = r.mac_reads mac six bytes in ground arith
