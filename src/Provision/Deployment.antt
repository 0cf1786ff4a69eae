-- ===== src/Provision/Deployment.antt =====
-- The invariant of the deployment state that the commands of internal/provision/provision.go keep.
pub mod Commands
use wsn.Netip.{Prefix, masked, usable_address}
use wsn.Config.{first_byte, validate_id}
use wsn.Prelude.{
  refl, ℕ, length, ◌%◌, Bool-cases, Option-cases, bytes_eq, bytes_eq_iff, nat_eq, bytes_key, All,
  Result-cases, ok, ◌≡◌, sym, ap, subst, ◌∙◌, ◌⊎◌, inl, inr, true, false, Option, some, List, [],
  ◌∷◌, arith,
}
use wsn.Protocol.{IsByte, Bytes}
use wsn.Text.{insert_by, IsRising, insert_by-IsRising, sort_by-append, bytes_lt}
use wsn.Formats.{Formats}
use wsn.Provision.Plan.{ProvisionedClient, State, AddOptions, gateway_role, plan_client}
use wsn.Provision.Plan.Checked.{IsNew, plan_client-IsPlanned}
use wsn.Provision.{
  Disk, load_state, next_write, save_state, write_relay_config, store, finish, client_id,
  with_client, prepare, add_prepared, add_client, without_id, has_id, revoke_loaded, revoke_client,
}

-- Every two clients, the first before the second.
abbrev pub Pairs :
    (ProvisionedClient → ProvisionedClient → Type 0) → List ProvisionedClient → Type 0
Pairs R [] = Unit
Pairs R (c ∷ l) = All (R c) l × Pairs R l

abbrev pub DifferInAddress : ProvisionedClient → ProvisionedClient → Type 0
DifferInAddress a b = bytes_eq a.address b.address ≡ false

abbrev pub NotBothGateways : ProvisionedClient → ProvisionedClient → Type 0
NotBothGateways a b = bytes_eq a.role gateway_role ≡ true → bytes_eq b.role gateway_role ≡ false

module _ (f : Formats) where
  -- A client that the relay can authenticate: a valid identity, the printed form of a key of 32 bytes
  -- and that of a unicast address of six bytes.
  pub record IsProvisioned (c : ProvisionedClient) : Type 0 where
    pub id_valid : validate_id c.id ≡ ok tt
    pub key : Bytes
    pub key_printed : c.key ≡ f.encode_base64 key
    pub key_size : length key ≡ 32
    pub mac : Bytes
    pub mac_printed : c.mac ≡ f.print_mac mac
    pub mac_six : length mac ≡ 6
    pub mac_bytes : All IsByte mac
    pub mac_unicast : first_byte mac % 2 ≡ 0

  -- The overlay is canonical, and the gateway's address is usable in it.
  pub record IsNetwork (state : State) : Type 0 where
    pub overlay : Prefix
    pub overlay_parsed : f.parse_prefix state.overlay ≡ some overlay
    pub canonical : masked overlay ≡ overlay
    pub gateway : ℕ
    pub gateway_parsed : f.parse_addr state.gateway ≡ some gateway
    pub gateway_usable : usable_address overlay gateway ≡ true

  -- The network is as `Init` makes it. The clients stand in the order of their identities, which differ; no two have one address, at
  -- most one is a gateway, and the relay can authenticate each.
  pub record IsDeployment (state : State) : Type 0 where
    pub network : IsNetwork state
    pub rising : IsRising client_id state.clients
    pub addresses_differ : Pairs DifferInAddress state.clients
    pub one_gateway : Pairs NotBothGateways state.clients
    pub provisioned : All IsProvisioned state.clients

  -- The deployment state on the disk, if it is there, satisfies the invariant.
  abbrev pub IsSound : Disk → Type 0
  IsSound d = (state : State) → d.state_file ≡ some state → IsDeployment state

All-insert_by :
    (P : ProvisionedClient → Type 0) (c : ProvisionedClient) (l : List ProvisionedClient)
    → P c
    → All P l
    → All P (insert_by client_id c l)
All-insert_by P c [] p h = (p, tt)
All-insert_by P c (b ∷ l) p h = elim (Bool-cases (bytes_lt b.id c.id)) [
  | inl less ↦ rw less (h.0, All-insert_by P c l p h.1)
  | inr more ↦ rw more (p, h)
]

module _ (R : ProvisionedClient → ProvisionedClient → Type 0) where
  Pairs-insert_by :
      (c : ProvisionedClient) (l : List ProvisionedClient)
      → All (R c) l
      → All (λ b. R b c) l
      → Pairs R l
      → Pairs R (insert_by client_id c l)
  Pairs-insert_by c [] h k p = (tt, tt)
  Pairs-insert_by c (b ∷ l) h k p = elim (Bool-cases (bytes_lt b.id c.id)) [
    | inl less ↦ rw less (All-insert_by (R b) c l k.0 p.0, Pairs-insert_by c l h.1 k.1 p.1)
    | inr more ↦ rw more (h, p)
  ]

pub All-without_id :
    (P : ProvisionedClient → Type 0) (id : Bytes) (l : List ProvisionedClient)
    → All P l
    → All P (without_id id l)
All-without_id P id [] h = tt
All-without_id P id (c ∷ l) h = elim (Bool-cases (bytes_eq c.id id)) [
  | inl gone ↦ rw gone (All-without_id P id l h.1)
  | inr stays ↦ rw stays (h.0, All-without_id P id l h.1)
]

Pairs-without_id :
    (R : ProvisionedClient → ProvisionedClient → Type 0) (id : Bytes) (l : List ProvisionedClient)
    → Pairs R l
    → Pairs R (without_id id l)
Pairs-without_id R id [] p = tt
Pairs-without_id R id (c ∷ l) p = elim (Bool-cases (bytes_eq c.id id)) [
  | inl gone ↦ rw gone (Pairs-without_id R id l p.1)
  | inr stays ↦ rw stays (All-without_id (R c) id l p.0, Pairs-without_id R id l p.1)
]

IsRising-without_id :
    (id : Bytes) (l : List ProvisionedClient)
    → IsRising client_id l
    → IsRising client_id (without_id id l)
IsRising-without_id id [] p = tt
IsRising-without_id id (c ∷ l) p = elim (Bool-cases (bytes_eq c.id id)) [
  | inl gone ↦ rw gone (IsRising-without_id id l p.1)
  | inr stays ↦ rw stays (All-without_id _ id l p.0, IsRising-without_id id l p.1)
]

bytes_eq_sym : (a b : Bytes) → bytes_eq a b ≡ false → bytes_eq b a ≡ false
bytes_eq_sym a b h = ground (arith, bytes_eq_iff a b, bytes_eq_iff b a)

flip_addresses :
    (c : ProvisionedClient) (l : List ProvisionedClient)
    → All (λ (e : ProvisionedClient). bytes_eq e.address c.address ≡ false) l
    → All (DifferInAddress c) l
flip_addresses c [] h = tt
flip_addresses c (e ∷ l) h = (bytes_eq_sym e.address c.address h.0, flip_addresses c l h.1)

single_gateway :
    (c : ProvisionedClient) (l : List ProvisionedClient)
    → (bytes_eq c.role gateway_role ≡ true
        → All (λ (e : ProvisionedClient). bytes_eq e.role gateway_role ≡ false) l)
    → All (NotBothGateways c) l × All (λ e. NotBothGateways e c) l
single_gateway c [] h = (tt, tt)
single_gateway c (e ∷ l) h =
    let (rest, rest') = single_gateway c l (λ g. (h g).1) in
    ((λ g. (h g).0, rest), (λ g. flipped g (Bool-cases (bytes_eq c.role gateway_role)), rest'))
  where
    flipped :
        bytes_eq e.role gateway_role ≡ true
        → (bytes_eq c.role gateway_role ≡ true) ⊎ (bytes_eq c.role gateway_role ≡ false)
        → bytes_eq c.role gateway_role ≡ false
    flipped g (inl both) = let other = (h both).0 in cc
    flipped g (inr single) = single

module _ (f : Formats) where
  keep-IsNetwork :
      (state state' : State)
      → state'.overlay ≡ state.overlay
      → state'.gateway ≡ state.gateway
      → IsNetwork f state
      → IsNetwork f state'
  keep-IsNetwork state state' o g n = record {
    overlay = n.overlay;
    overlay_parsed = ap f.parse_prefix o ∙ n.overlay_parsed;
    canonical = n.canonical;
    gateway = n.gateway;
    gateway_parsed = ap f.parse_addr g ∙ n.gateway_parsed;
    gateway_usable = n.gateway_usable;
  }

  pub with_client-IsDeployment :
      (state : State) (c : ProvisionedClient)
      → IsDeployment f state
      → IsProvisioned f c
      → IsNew c.id c.address c.role state.clients
      → (with_client state c ≡ record state { clients = insert_by client_id c state.clients })
        × IsDeployment f (with_client state c)
  unfolding with_client
  with_client-IsDeployment state c v p n =
      let sorted = sort_by-append client_id c state.clients n.ids_new v.rising in
      let (gateways, gateways') = single_gateway c state.clients n.gateway_new in
      (
        ap (λ (l : List ProvisionedClient). record state { clients = l }) sorted,
        record {
          network = keep-IsNetwork state (with_client state c) refl refl v.network;
          rising = rw sorted (insert_by-IsRising client_id c state.clients n.ids_new v.rising);
          addresses_differ = rw sorted (
              Pairs-insert_by DifferInAddress c state.clients
                (flip_addresses c state.clients n.addresses_new) n.addresses_new
                v.addresses_differ);
          one_gateway =
              rw sorted
                (Pairs-insert_by NotBothGateways c state.clients gateways gateways' v.one_gateway);
          provisioned = rw sorted (All-insert_by (IsProvisioned f) c state.clients p v.provisioned);
        },
      )

  pub revoked-IsDeployment :
      (state : State) (id : Bytes)
      → IsDeployment f state
      → IsDeployment f (record state { clients = without_id id state.clients })
  revoked-IsDeployment state id v = record {
    network = keep-IsNetwork state _ refl refl v.network;
    rising = IsRising-without_id id state.clients v.rising;
    addresses_differ = Pairs-without_id DifferInAddress id state.clients v.addresses_differ;
    one_gateway = Pairs-without_id NotBothGateways id state.clients v.one_gateway;
    provisioned = All-without_id (IsProvisioned f) id state.clients v.provisioned;
  }
