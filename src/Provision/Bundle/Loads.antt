-- ===== src/Provision/Bundle/Loads.antt =====
-- The configurations that internal/provision/provision.go writes, against the loaders of
-- internal/config/config.go.
use wsn.Provision.Render.{client_config, file, is_windows}
use wsn.Config.Valid.{parse_mac-print_mac}
use wsn.Text.Order.{IsRising, bytes_lt, bytes_lt_irrefl, bytes_lt_trans}
use wsn.Text.{trim_space}
use wsn.Provision.Deployment.Commands.{IsFilled, prepare-IsPrepared, prepared-IsProvisioned}
use wsn.Provision.{relay_config, Disk, client_id, prepare}
use wsn.Config.Valid.{AreDistinct, macs_of}
use wsn.Provision.Plan.{AddOptions, ProvisionedClient, State, linux, windows}
use wsn.Provision.Deployment.{IsDeployment, IsNetwork, IsProvisioned}
use wsn.Provision.Plan.Checked.{IsPlanned, IsRoute}
use wsn.Provision.Names.{safe_interface_name}
use wsn.Protocol.{Bytes}
use wsn.Prelude.{
  Option, bytes_eq, bytes_eq_iff, map, Bool, Bool-cases, ap, inl, inr, some, subst, sym, ◌≤◌, All,
  List, [], arith, false, ok, refl, true, ℕ, ◌∙◌, ◌∷◌, ◌≡◌,
}
use wsn.Netip.{IsPrefix, Prefix, contains, masked, prefixes_overlap, usable_address}
use wsn.Config.Client.{load_client, is_blank, check_routes}
use wsn.Config.{load_relay, RelayClient, check_clients, decode_key, is_seen, parse_mac}
use wsn.Formats.{Formats, ReadsBack}

masked-contains : (p q : Prefix) → q.bits ≡ p.bits → contains p q.addr ≡ true → masked q ≡ masked p
unfolding masked contains
masked-contains p q b h = ground arith

prefixes_overlap_sym : (p q : Prefix) → prefixes_overlap p q ≡ prefixes_overlap q p
unfolding prefixes_overlap
prefixes_overlap_sym p q = ground arith

usable-contains : (p : Prefix) (a : ℕ) → usable_address p a ≡ true → contains p a ≡ true
unfolding usable_address
usable-contains p a h = ground arith

safe_name-is_blank : (s : Bytes) → safe_interface_name s ≡ true → is_blank s ≡ false
unfolding safe_interface_name
safe_name-is_blank [] h = ground arith
safe_name-is_blank (c ∷ s) h = refl

module _ (f : Formats) (r : ReadsBack f) where
  check_routes-IsRoute :
      (address overlay : Prefix) (routes : List Bytes)
      → masked address ≡ overlay
      → All (IsRoute f overlay) routes
      → check_routes f address routes ≡ ok tt
  unfolding check_routes
  check_routes-IsRoute address overlay [] m h = refl
  check_routes-IsRoute address overlay (route ∷ routes) m
        ((p, text, printed, parsed, same, apart), rest) =
      let read = r.prefix_reads p (r.prefix_parsed text p parsed) in
      let more = check_routes-IsRoute address overlay routes m rest in
      let clear = prefixes_overlap_sym overlay p ∙ apart in ground arith

  module _ (is_abs : Bytes → Bool) (state : State) (c : ProvisionedClient) where
    planned-load_client :
        IsNetwork f state
        → IsPlanned f state c
        → IsProvisioned f c
        → is_abs (client_config state c).ca_file ≡ true
        → is_abs (client_config state c).key_file ≡ true
        → load_client f is_abs (client_config state c) ≡ ok (client_config state c)
    unfolding load_client client_config
    planned-load_client n p v ca key =
        let place : Prefix = p.place in
        let (text, parsed) = p.place_parsed in
        let same_overlay : p.overlay ≡ n.overlay =
          ground (arith, p.overlay_parsed, n.overlay_parsed) in
        let in_overlay : contains n.overlay place.addr ≡ true =
          rw same_overlay at (usable-contains p.overlay place.addr p.place_usable) in
        let bits : place.bits ≡ n.overlay.bits =
          p.place_bits ∙ ap (λ (x : Prefix). x.bits) same_overlay in
        let fits : IsPrefix place = record {
          addr_fits = r.addr_parsed text place.addr parsed;
          bits_fit =
              subst (λ (b : ℕ). b ≤ 32) (sym bits)
                (r.prefix_parsed state.overlay n.overlay n.overlay_parsed).bits_fit;
        } in
        let address : f.parse_prefix c.address ≡ some place =
          ap f.parse_prefix p.place_printed ∙ r.prefix_reads place fits in
        let network : masked place ≡ n.overlay =
          masked-contains n.overlay place bits in_overlay ∙ n.canonical in
        let inside : contains (masked place) n.gateway ≡ true =
          ap (λ (x : Prefix). contains x n.gateway) network
          ∙ usable-contains n.overlay n.gateway n.gateway_usable in
        let routes =
          check_routes-IsRoute place n.overlay c.routes network
            (subst (λ (x : Prefix). All (IsRoute f x) c.routes) same_overlay p.routes_outside) in
        let mac : parse_mac f c.mac ≡ ok v.mac =
          ap (parse_mac f) v.mac_printed
          ∙ parse_mac-print_mac f r v.mac v.mac_six v.mac_bytes v.mac_unicast in
        let device = safe_name-is_blank c.device p.device_safe in
        let id = v.id_valid in
        let printed = v.mac_printed in
        let gateway = n.gateway_parsed in
        elim (Bool-cases (is_windows c)) [ inl windows ↦ ground arith | inr linux ↦ ground arith ]

    -- The configuration that the bundle of a new client carries is the one that LoadClient returns for
    -- it, unchanged: given the deployment's network as Init makes it, a random source that fills what
    -- it is given, formats that read back what they print, and the paths of the target system, which
    -- are absolute there.
    pub client_config-load_client :
        (options : AddOptions) (key mac : Option Bytes) (d : Disk)
        → IsFilled 32 key
        → IsFilled 6 mac
        → IsNetwork f state
        → prepare f options key mac d ≡ ok (state, c)
        → is_abs (client_config state c).ca_file ≡ true
        → is_abs (client_config state c).key_file ≡ true
        → load_client f is_abs (client_config state c) ≡ ok (client_config state c)
    client_config-load_client options key mac d fk fm n h ca file =
        let made = prepare-IsPrepared f options key mac d state c h in
        planned-load_client n made.planned
          (prepared-IsProvisioned f options key mac d state c fk fm made) ca file

  -- The form in which the relay's configuration holds a client.
  abbrev listed : ProvisionedClient → RelayClient
  listed c = record { id = c.id; key = c.key; mac = c.mac }

  key-decodes : (c : ProvisionedClient) (v : IsProvisioned f c) → decode_key f c.key ≡ ok v.key
  unfolding decode_key
  key-decodes c v =
      let text : trim_space c.key ≡ f.encode_base64 v.key =
        ap trim_space v.key_printed ∙ r.key_trimmed v.key in
      let read = r.key_reads v.key in let size = v.key_size in ground arith

  not_seen-below :
      (id : Bytes) (seen : List Bytes)
      → All (λ s. bytes_lt s id ≡ true) seen
      → is_seen id seen ≡ false
  not_seen-below id [] h = refl
  not_seen-below id (s ∷ seen) h =
      ground (arith, bytes_eq_iff s id, bytes_lt_irrefl id, not_seen-below id seen h.1)

  seen_below :
      (id next : Bytes) (seen : List Bytes)
      → bytes_lt id next ≡ true
      → All (λ s. bytes_lt s id ≡ true) seen
      → All (λ s. bytes_lt s next ≡ true) seen
  seen_below id next [] h k = tt
  seen_below id next (s ∷ seen) h k =
      (bytes_lt_trans s id next k.0 h, seen_below id next seen h k.1)

  -- Every text before stands below every client to come.
  abbrev AreBefore : List Bytes → List ProvisionedClient → Type 0
  AreBefore ids l = All (λ (c : ProvisionedClient). All (λ s. bytes_lt s c.id ≡ true) ids) l

  before_next :
      (id : Bytes) (ids : List Bytes) (l : List ProvisionedClient)
      → All (λ (c : ProvisionedClient). bytes_lt id c.id ≡ true) l
      → All (λ s. bytes_lt s id ≡ true) ids
      → AreBefore (id ∷ ids) l
  before_next id ids [] h k = tt
  before_next id ids (c ∷ l) h k = ((h.0, seen_below id c.id ids h.0 k), before_next id ids l h.1 k)

  -- No text to come was seen.
  abbrev AreUnseen : List Bytes → List RelayClient → Type 0
  AreUnseen macs l = All (λ (c : RelayClient). is_seen c.mac macs ≡ false) l

  unseen_next :
      (mac : Bytes) (macs : List Bytes) (l : List RelayClient)
      → All (λ t. bytes_eq mac t ≡ false) (macs_of l)
      → AreUnseen macs l
      → AreUnseen (mac ∷ macs) l
  unseen_next mac macs [] h k = tt
  unseen_next mac macs (c ∷ l) h k = (ground arith, unseen_next mac macs l h.1 k.1)

  check_clients-provisioned :
      (ids macs : List Bytes) (l : List ProvisionedClient)
      → IsRising client_id l
      → AreBefore ids l
      → AreUnseen macs (map listed l)
      → AreDistinct (macs_of (map listed l))
      → All (IsProvisioned f) l
      → check_clients f ids macs (map listed l) ≡ ok (map listed l)
  unfolding check_clients
  check_clients-provisioned ids macs [] rising before unseen distinct v = refl
  check_clients-provisioned ids macs (c ∷ l) rising before unseen distinct (v, vs) =
      let valid = v.id_valid in
      let new = not_seen-below c.id ids before.0 in
      let key = key-decodes c v in
      let mac : parse_mac f c.mac ≡ ok v.mac =
        ap (parse_mac f) v.mac_printed
        ∙ parse_mac-print_mac f r v.mac v.mac_six v.mac_bytes v.mac_unicast in
      let printed : f.print_mac v.mac ≡ c.mac = sym v.mac_printed in
      let rest =
        check_clients-provisioned (c.id ∷ ids) (c.mac ∷ macs) l rising.1
          (before_next c.id ids l rising.0 before.0)
          (unseen_next c.mac macs (map listed l) distinct.0 unseen.1) distinct.1 vs in
      ground arith

  nothing_before : (l : List ProvisionedClient) → AreBefore [] l
  nothing_before [] = tt
  nothing_before (c ∷ l) = (tt, nothing_before l)

  nothing_seen : (l : List RelayClient) → AreUnseen [] l
  nothing_seen [] = tt
  nothing_seen (c ∷ l) = (refl, nothing_seen l)

  -- The configuration of the relay that AddClient and RevokeClient write for a sound deployment, no two
  -- of whose random addresses are the same, is the one that LoadRelay returns for it, unchanged, given
  -- formats that read back what they print.
  pub relay_config-load_relay :
      (state : State)
      → IsDeployment f state
      → AreDistinct (macs_of (relay_config state.clients).clients)
      → load_relay f (relay_config state.clients) ≡ ok (relay_config state.clients)
  unfolding load_relay relay_config
  relay_config-load_relay state v distinct =
      let checked =
        check_clients-provisioned [] [] state.clients v.rising (nothing_before state.clients)
          (nothing_seen (map listed state.clients)) distinct v.provisioned in
      ground arith
