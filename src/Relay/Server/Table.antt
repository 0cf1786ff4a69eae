-- ===== src/Relay/Server/Table.antt =====
-- `authorizedClients` of internal/relay/relay.go on a configuration that `LoadRelay` of
-- internal/config/config.go accepted.
use wsn.Config.Valid.{parse_mac-print_mac}
use wsn.Prelude.{
  bytes_eq, bytes_eq_iff, bytes_eq_refl, nat_eq, bytes_key, All, lookup, insert, lookup-insert, ok,
  ◌≡◌, refl, sym, ap, ◌∙◌, false, none, some, List, [], ◌∷◌, arith, length,
}
use wsn.Protocol.{Bytes}
use wsn.Formats.{Formats, ReadsBack}
use wsn.Config.{RelayClient, RelayConfig, is_seen, decode_key, parse_mac, load_relay}
use wsn.Config.Valid.{AreDistinct, ids_of, IsClient, load_relay-IsValidRelay}
use wsn.Relay.Hub.{AuthorizedClient}
use wsn.Relay.Server.{Clients, authorized_from, authorized_clients}

-- A text that differs from all others was not seen.
not-is_seen : (s : Bytes) (l : List Bytes) → All (λ t. bytes_eq s t ≡ false) l → is_seen s l ≡ false
not-is_seen s [] h = refl
not-is_seen s (t ∷ l) h = ground (arith, bytes_eq_iff s t, bytes_eq_iff t s, not-is_seen s l h.1)

module _ (f : Formats) where
  -- The client stands in the table under its identity, with its decoded key and its address.
  abbrev pub IsListed : Clients → RelayClient → Type 0
  IsListed clients c =
      (a : AuthorizedClient) × (lookup c.id clients ≡ some a)
      × (a.id ≡ c.id)
      × (decode_key f c.key ≡ ok a.key)
      × (f.print_mac a.mac ≡ c.mac)
      × (length a.mac ≡ 6)
      × (parse_mac f c.mac ≡ ok a.mac)

  -- The table holds the clients of the list, and nothing else.
  pub record IsTable (clients : Clients) (l : List RelayClient) : Type 0 where
    pub listed : All (IsListed clients) l
    pub nobody_else : (id : Bytes) → is_seen id (ids_of l) ≡ false → lookup id clients ≡ none

  -- What the loop makes of the table `before`.
  record IsBuilt (before clients : Clients) (l : List RelayClient) : Type 0 where
    built : All (IsListed clients) l
    kept : (id : Bytes) → is_seen id (ids_of l) ≡ false → lookup id clients ≡ lookup id before

  module _ (r : ReadsBack f) where
    authorized_from-IsBuilt :
        (before : Clients) (l : List RelayClient)
        → All (IsClient f) l
        → AreDistinct (ids_of l)
        → (clients : Clients) × (authorized_from f before l ≡ ok clients) × IsBuilt before clients l
    unfolding authorized_from
    authorized_from-IsBuilt before [] v d =
        (before, refl, record { built = tt; kept = λ id h. refl })
    authorized_from-IsBuilt before (c ∷ l) v d =
        let a : AuthorizedClient = record { id = c.id; key = v.0.key; mac = v.0.mac } in
        let printed =
          parse_mac-print_mac f r v.0.mac v.0.mac_six (r.mac_bytes v.0.text v.0.mac v.0.mac_parsed)
            v.0.mac_unicast in
        let parsed : parse_mac f c.mac ≡ ok v.0.mac = ap (parse_mac f) v.0.mac_printed ∙ printed in
        let (clients, e, b) = authorized_from-IsBuilt (insert c.id a before) l v.1 d.1 in
        let own =
          b.kept c.id (not-is_seen c.id (ids_of l) d.0) ∙ lookup-insert c.id c.id a before in
        (
          clients,
          ground (arith, v.0.key_decodes),
          record {
            built = (
              (
                a,
                ground (arith, bytes_eq_refl c.id),
                refl,
                v.0.key_decodes,
                sym v.0.mac_printed,
                v.0.mac_six,
                parsed,
              ),
              b.built,
            );
            kept = λ id h. ground (arith, b.kept id, lookup-insert c.id id a before);
          },
        )

    -- Whatever configuration LoadRelay returns, New and Reload make a table of it: every client of
    -- the configuration is listed under its identity with its decoded key and the six-byte address
    -- that its text prints, and no other identity is listed.
    pub authorized_clients-IsTable :
        (cfg cfg' : RelayConfig)
        → load_relay f cfg ≡ ok cfg'
        → (clients : Clients) × (authorized_clients f cfg' ≡ ok clients)
          × IsTable clients cfg'.clients
    unfolding authorized_clients
    authorized_clients-IsTable cfg cfg' h =
        let v = load_relay-IsValidRelay f cfg cfg' h in
        let (clients, e, b) =
          authorized_from-IsBuilt [] cfg'.clients v.clients_valid v.ids_differ in
        (clients, e, record { listed = b.built; nobody_else = b.kept })
