-- ===== src/Handshake/Deployed.antt =====
-- A deployment of internal/provision/provision.go end to end: the relay with the configuration that is
-- written for it, and a client with the key and the address of its bundle.
use wsn.Relay.Hub.{AuthorizedClient}
use wsn.Provision.Deployment.{IsDeployment, IsProvisioned}
use wsn.Provision.Bundle.Loads.{relay_config-load_relay}
use wsn.Handshake.{fresh, handshake_agrees}
use wsn.Config.Valid.{AreDistinct, macs_of}
use wsn.Config.Ids.{validate_id_iff}
use wsn.Conn.{binary}
use wsn.Relay.Auth
use wsn.Client.Auth as ClientAuth
use wsn.Text.{trim_space}
use wsn.Relay.Server.Table.{authorized_clients-IsTable, IsListed}
use wsn.Relay.Server.{authorized_clients, Clients}
use wsn.Provision.Plan.{State, ProvisionedClient}
use wsn.Provision.{relay_config}
use wsn.Protocol.{auth_ok, Bytes}
use wsn.Prelude.{
  some, subst, sym, ℕ, All, Elem, List, Option-cases, [], arith, inl, inr, length, ok, ◌∷◌, ◌≡◌,
}
use wsn.Formats.{ReadsBack, Formats}
use wsn.Config.{load_relay, parse_mac, decode_key}

decode_key-length :
    (f : Formats) (value key : Bytes) → decode_key f value ≡ ok key → length key ≡ 32
unfolding decode_key
decode_key-length f value key h = elim (Option-cases (f.decode_base64 (trim_space value))) [
  | inl bad ↦ ground arith
  | inr (k, e) ↦ ground arith
]

module _ (f : Formats) where
  -- A listed client of a list of clients of the deployment.
  IsListed-Elem :
      (clients : Clients) (l : List ProvisionedClient) (c : ProvisionedClient)
      → Elem c l
      → All (IsListed f clients) (relay_config l).clients
      → IsListed f clients (record { id = c.id; key = c.key; mac = c.mac })
  unfolding relay_config
  IsListed-Elem clients [] c e h = absurd e
  IsListed-Elem clients (x ∷ l) c (inl same) h =
      subst
        (λ (y : ProvisionedClient).
          IsListed f clients (record { id = y.id; key = y.key; mac = y.mac }))
        (sym same) h.0
  IsListed-Elem clients (x ∷ l) c (inr e) h = IsListed-Elem clients l c e h.1

  IsProvisioned-Elem :
      (l : List ProvisionedClient) (c : ProvisionedClient)
      → Elem c l
      → All (IsProvisioned f) l
      → IsProvisioned f c
  IsProvisioned-Elem [] c e h = absurd e
  IsProvisioned-Elem (x ∷ l) c (inl same) h = subst (IsProvisioned f) (sym same) h.0
  IsProvisioned-Elem (x ∷ l) c (inr e) h = IsProvisioned-Elem l c e h.1

  -- Every client of a sound deployment, no two of whose virtual MACs are the same, gets into the relay:
  -- LoadRelay accepts the configuration that is written for the deployment, a table is made of it, and
  -- with the key and the address that the client's own texts give, and any challenge of 32 bytes,
  -- each side of the handshake accepts what the other wrote, the relay under the client's identity;
  -- given formats that read back what they print.
  pub deployed_handshake :
      (hmac : Bytes → Bytes → Bytes) (state : State) (c : ProvisionedClient) (challenge : Bytes)
      (max_frame_size : ℕ)
      → ReadsBack f
      → IsDeployment f state
      → AreDistinct (macs_of (relay_config state.clients).clients)
      → Elem c state.clients
      → length challenge ≡ 32
      → (clients : Clients) × (a : AuthorizedClient) × (hello answer : Bytes) × (load_relay f
            (relay_config state.clients)
          ≡ ok (relay_config state.clients))
        × (authorized_clients f (relay_config state.clients) ≡ ok clients)
        × (decode_key f c.key ≡ ok a.key)
        × (parse_mac f c.mac ≡ ok a.mac)
        × (a.id ≡ c.id)
        × (ClientAuth.authenticate hmac a.key c.id a.mac
              (fresh (binary challenge ∷ binary (auth_ok ∷ []) ∷ []))
            ≡ (
              ok tt,
              record { incoming = []; writes = []; sent = hello ∷ answer ∷ []; read_limit = 0 },
            ))
        × (Auth.authenticate hmac clients
              (some challenge)
              max_frame_size
              (fresh (binary hello ∷ binary answer ∷ []))
            ≡ (
              ok a,
              record {
                incoming = [];
                writes = [];
                sent = challenge ∷ (auth_ok ∷ []) ∷ [];
                read_limit = max_frame_size;
              },
            ))
  deployed_handshake hmac state c challenge max_frame_size r v distinct e size =
      let loads = relay_config-load_relay f r state v distinct in
      let (clients, made, table) =
        authorized_clients-IsTable f r (relay_config state.clients) (relay_config state.clients)
          loads in
      let (a, found, id, key, printed, six, mac) =
        IsListed-Elem clients state.clients c e table.listed in
      let able = IsProvisioned-Elem state.clients c e v.provisioned in
      let (low, high, chars) = (validate_id_iff c.id).0 able.id_valid in
      let (hello, answer, client_side, relay_side) =
        handshake_agrees hmac clients challenge c.id max_frame_size a found
          (decode_key-length f c.key a.key key) six size low high in
      (clients, a, hello, answer, loads, made, key, mac, id, client_side, relay_side)
