-- ===== src/Provision/Deployment/Commands.antt =====
-- The commands of internal/provision/provision.go keep the invariant of the deployment.
use mathlib.Core.Path.{subst₂}
use wsn.Provision.Plan.Checked.{IsPlanned, plan_client-id, plan_client-IsPlanned}
use wsn.Provision.Plan.{AddOptions, ProvisionedClient, State, plan_client}
use wsn.Provision.Mac.{local_mac-IsUnicast}
use wsn.Provision.Deployment.{
  IsDeployment, IsProvisioned, IsSound, revoked-IsDeployment, with_client-IsDeployment,
}
use wsn.Provision.{
  add_prepared, finish, has_id, load_state, next_write, prepare, revoke_loaded, save_state, store,
  without_id, write_relay_config, Disk, add_client, local_mac, random_mac, revoke_client,
  with_client,
}
use wsn.Protocol.{Bytes, IsByte}
use wsn.Formats.{Formats}
use wsn.Config.{validate_id}
use wsn.Prelude.{
  All, Bool-cases, Option-cases, Result-cases, ap, arith, inl, inr, length, ok, some, sym, ◌∙◌, ◌≡◌,
  Option, ℕ, subst,
}

store-IsSound :
    (f : Formats) {A : Type 0} (a : A) (state : State) (d : Disk)
    → IsDeployment f state
    → IsSound f d
    → IsSound f (finish a (store state d)).1
unfolding store finish save_state write_relay_config
store-IsSound f a state d v w state' e = elim (Bool-cases (next_write d.writes)) [
  | inl saved ↦ subst (IsDeployment f) (ground arith) v
  | inr failed ↦ w state' (ground arith)
]

-- `rand.Read` fills the bytes that it is given.
abbrev pub IsFilled : ℕ → Option Bytes → Type 0
IsFilled n random = (b : Bytes) → random ≡ some b → (length b ≡ n) × All IsByte b

module _ (f : Formats) where
  provisioned_lem :
      (c : ProvisionedClient) (k b : Bytes)
      → validate_id c.id ≡ ok tt
      → c.key ≡ f.encode_base64 k
      → c.mac ≡ f.print_mac (local_mac b)
      → length k ≡ 32
      → length b ≡ 6
      → All IsByte b
      → IsProvisioned f c
  provisioned_lem c k b valid key mac size six bytes = record {
    id_valid = valid;
    key = k;
    key_printed = key;
    key_size = size;
    mac = local_mac b;
    mac_printed = mac;
    mac_six = (local_mac-IsUnicast b six bytes).0;
    mac_bytes = (local_mac-IsUnicast b six bytes).1;
    mac_unicast = (local_mac-IsUnicast b six bytes).2;
  }

  -- What `AddClient` makes before it changes the state.
  pub record IsPrepared (options : AddOptions) (key mac : Option Bytes) (d : Disk) (state : State)
      (c : ProvisionedClient) : Type 0 where
    pub id_given : c.id ≡ options.id
    pub loaded : load_state d ≡ ok state
    pub stored : d.state_file ≡ some state
    pub planned : IsPlanned f state c
    pub key_bytes : Bytes
    pub mac_bytes : Bytes
    pub key_drawn : key ≡ some key_bytes
    pub mac_drawn : mac ≡ some mac_bytes
    pub key_printed : c.key ≡ f.encode_base64 key_bytes
    pub mac_printed : c.mac ≡ f.print_mac (local_mac mac_bytes)

  IsPlanned-filled :
      (state : State) (draft : ProvisionedClient) (mac key : Bytes)
      → IsPlanned f state draft
      → IsPlanned f state (record draft { mac = mac; key = key })
  IsPlanned-filled state draft mac key p = record {
    id_valid = p.id_valid;
    new = p.new;
    place = p.place;
    overlay = p.overlay;
    overlay_parsed = p.overlay_parsed;
    place_parsed = p.place_parsed;
    place_printed = p.place_printed;
    place_bits = p.place_bits;
    place_usable = p.place_usable;
    gateway_placed = p.gateway_placed;
    device_safe = p.device_safe;
    device_short = p.device_short;
    egress_safe = p.egress_safe;
    system_known = p.system_known;
    gateway_ready = p.gateway_ready;
    routes_outside = p.routes_outside;
    dns_reached = p.dns_reached;
  }

  pub prepare-IsPrepared :
      (options : AddOptions) (key mac : Option Bytes) (d : Disk) (state : State)
      (c : ProvisionedClient)
      → prepare f options key mac d ≡ ok (state, c)
      → IsPrepared options key mac d state c
  unfolding prepare load_state random_mac
  prepare-IsPrepared options key mac d state c h = elim (Option-cases d.state_file) [
    | inl missing ↦ ground arith
    | inr (found, e) ↦ elim (Result-cases (plan_client f options found)) [
      | inl (bad, p) ↦ ground arith
      | inr (draft, p) ↦ elim (Option-cases key) [
        | inl k ↦ ground arith
        | inr (key', k) ↦ elim (Option-cases mac) [
          | inl m ↦ ground arith
          | inr (mac', m) ↦
              let made : ProvisionedClient = record draft {
                mac = f.print_mac (local_mac mac');
                key = f.encode_base64 key';
              } in
              let same : found ≡ state = ground arith in
              let same_client : made ≡ c = ground arith in
              let plan =
                IsPlanned-filled found draft made.mac made.key
                  (plan_client-IsPlanned f options found draft p) in
              record {
                id_given =
                    ap (λ (x : ProvisionedClient). x.id) (sym same_client)
                    ∙ plan_client-id f options found draft p;
                loaded = ground arith;
                stored = e ∙ ap some same;
                planned = subst₂ (IsPlanned f) same same_client plan;
                key_bytes = key';
                mac_bytes = mac';
                key_drawn = k;
                mac_drawn = m;
                key_printed = ap (λ (x : ProvisionedClient). x.key) (sym same_client);
                mac_printed = ap (λ (x : ProvisionedClient). x.mac) (sym same_client);
              }
        ]
      ]
    ]
  ]

  pub prepared-IsProvisioned :
      (options : AddOptions) (key mac : Option Bytes) (d : Disk) (state : State)
      (c : ProvisionedClient)
      → IsFilled 32 key
      → IsFilled 6 mac
      → IsPrepared options key mac d state c
      → IsProvisioned f c
  prepared-IsProvisioned options key mac d state c fk fm p =
      provisioned_lem c p.key_bytes p.mac_bytes p.planned.id_valid p.key_printed p.mac_printed
        (fk p.key_bytes p.key_drawn).0 (fm p.mac_bytes p.mac_drawn).0 (fm p.mac_bytes p.mac_drawn).1

  -- `AddClient` keeps the invariant of the stored deployment, whichever of its steps fails, given that
  -- the random source fills what it is given.
  pub add_client-IsSound :
      (options : AddOptions) (key mac : Option Bytes) (d : Disk)
      → IsFilled 32 key
      → IsFilled 6 mac
      → IsSound f d
      → IsSound f (add_client f options key mac d).1
  unfolding add_client add_prepared
  add_client-IsSound options key mac d fk fm s = elim (Result-cases (prepare f options key mac d)) [
    | inl (e, p) ↦ rw p s
    | inr ((state, c), p) ↦
        let made = prepare-IsPrepared options key mac d state c p in
        let able = prepared-IsProvisioned options key mac d state c fk fm made in
        let kept = with_client-IsDeployment f state c (s state made.stored) able made.planned.new in
        rw p (store-IsSound f c (with_client state c) d kept.1 s)
  ]

load_state_lem : (d : Disk) (state : State) → load_state d ≡ ok state → d.state_file ≡ some state
unfolding load_state
load_state_lem d state h = elim (Option-cases d.state_file) [
  | inl missing ↦ ground arith
  | inr (found, e) ↦ ground arith
]

-- `RevokeClient` keeps the invariant of the stored deployment, whichever of its steps fails.
pub revoke_client-IsSound :
    (f : Formats) (id : Bytes) (d : Disk) → IsSound f d → IsSound f (revoke_client id d).1
unfolding revoke_client revoke_loaded
revoke_client-IsSound f id d s = elim (Result-cases (load_state d)) [
  | inl (e, p) ↦ rw p s
  | inr (state, p) ↦ elim (Bool-cases (has_id id state.clients)) [
    | inl known ↦
        rw (p, known)
          (store-IsSound f tt (record state { clients = without_id id state.clients }) d
            (revoked-IsDeployment f state id (s state (load_state_lem d state p))) s)
    | inr unknown ↦ rw (p, unknown) s
  ]
]
