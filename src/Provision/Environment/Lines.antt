-- ===== src/Provision/Environment/Lines.antt =====
-- The lines of the environment files of internal/provision/provision.go, as the shell reads them.
use wsn.Prelude.{
  List, [], ◌∷◌, ◌++◌, some, true, false, if◌then◌else◌, All, All-append, ◌==◌, ◌≡◌, refl, sym, ap,
  ◌∙◌, nat_eq, append_assoc, append-nil, Bool-cases, inl, inr,
}
use wsn.Protocol.{Bytes, codes}
use wsn.Text.{all_bytes}
use wsn.Provision.Names.{safe_interface_name}
use wsn.Provision.Plan.{State, ProvisionedClient}
use wsn.Provision.Render.{network_environment, gateway_environment, setting, is_gateway, join}
use wsn.Provision.Names.Quotes.{IsPlain, safe_name-IsPlain}
use wsn.Provision.Environment.{
  Settings, in_name, with_setting, read_from, read_settings, value-read, name-read, is_name_char,
}

-- A line is read as its name and its value.
setting-read :
    (name value rest : Bytes)
    → all_bytes is_name_char name ≡ true
    → IsPlain value
    → read_settings (setting name value ++ rest) ≡ with_setting name value (read_settings rest)
unfolding read_settings read_from
setting-read name value rest n v =
    ap (read_from (in_name [])) (
      append_assoc name (codes "='" ++ (value ++ codes "'\n")) rest
      ∙ ap (λ s. name ++ (codes "='" ++ s)) (append_assoc value (codes "'\n") rest))
    ∙ (name-read [] name (39 ∷ (value ++ 39 ∷ 10 ∷ rest)) n ∙ value-read name [] value rest v)

join-IsPlain : (parts : List Bytes) → All IsPlain parts → IsPlain (join (codes " ") parts)
unfolding join
join-IsPlain [] h = tt
join-IsPlain (part ∷ []) h = h.0
join-IsPlain (part ∷ next ∷ parts) h =
    All-append (λ c. (c == 39) ≡ false) part (codes " " ++ join (codes " ") (next ∷ parts)) h.0
      (refl, join-IsPlain (next ∷ parts) h.1)

-- The texts of the deployment that the environment files carry beside the device.
pub record ArePlain (state : State) (client : ProvisionedClient) : Type 0 where
  pub mac_plain : IsPlain client.mac
  pub address_plain : IsPlain client.address
  pub routes_plain : All IsPlain client.routes
  pub egress_plain : IsPlain client.egress
  pub overlay_plain : IsPlain state.overlay
  pub gateway_plain : IsPlain state.gateway
  pub dns_plain : IsPlain state.dns
  pub search_plain : All IsPlain state.search

abbrev pub unless_gateway {ℓ} : {A : Type ℓ} → ProvisionedClient → List A → List A
unless_gateway client l = if is_gateway client then [] else l

-- The settings that `network.env` is to have.
abbrev pub network_settings : State → ProvisionedClient → Settings
network_settings state client =
    (codes "WSN_DEVICE", client.device)
    ∷ (codes "WSN_MAC", client.mac)
    ∷ (codes "WSN_ADDRESS", client.address)
    ∷ (codes "WSN_GATEWAY", state.gateway)
    ∷ (codes "WSN_ROUTES", join (codes " ") (unless_gateway client client.routes))
    ∷ (codes "WSN_DNS", unless_gateway client state.dns)
    ∷ (codes "WSN_SEARCH", join (codes " ") (unless_gateway client state.search))
    ∷ []

-- The settings that `gateway.env` is to have.
abbrev pub gateway_settings : State → ProvisionedClient → Settings
gateway_settings state client =
    (codes "WSN_DEVICE", client.device)
    ∷ (codes "WSN_OVERLAY", state.overlay)
    ∷ (codes "WSN_EGRESS", client.egress)
    ∷ (codes "WSN_DESTINATIONS", join (codes " ") client.routes)
    ∷ []

-- The lines of some settings.
abbrev lines : Settings → Bytes
lines [] = []
lines ((name, value) ∷ []) = setting name value
lines ((name, value) ∷ next ∷ settings) = setting name value ++ lines (next ∷ settings)

abbrev IsSetting : Bytes × Bytes → Type 0
IsSetting s = (all_bytes is_name_char s.0 ≡ true) × IsPlain s.1

lines-read :
    (s : Bytes × Bytes) (settings : Settings)
    → All IsSetting (s ∷ settings)
    → read_settings (lines (s ∷ settings)) ≡ some (s ∷ settings)
unfolding read_settings read_from
lines-read (name, value) [] h =
    ap read_settings (sym (append-nil (setting name value)))
    ∙ setting-read name value [] h.0.0 h.0.1
lines-read (name, value) (next ∷ settings) h =
    setting-read name value (lines (next ∷ settings)) h.0.0 h.0.1
    ∙ ap (with_setting name value) (lines-read next settings h.1)

unless-IsPlain :
    (client : ProvisionedClient) (s : Bytes) → IsPlain s → IsPlain (unless_gateway client s)
unless-IsPlain client s h = elim (Bool-cases (is_gateway client)) [
  | inl gateway ↦ rw gateway tt
  | inr other ↦ rw other h
]

unless-AllPlain :
    (client : ProvisionedClient) (l : List Bytes)
    → All IsPlain l
    → All IsPlain (unless_gateway client l)
unless-AllPlain client l h = elim (Bool-cases (is_gateway client)) [
  | inl gateway ↦ rw gateway tt
  | inr other ↦ rw other h
]

-- The environment files of texts without a quote are read back.
pub read_settings-environment :
    (state : State) (client : ProvisionedClient)
    → safe_interface_name client.device ≡ true
    → ArePlain state client
    → (read_settings (network_environment state client) ≡ some (network_settings state client))
      × (read_settings (gateway_environment state client) ≡ some (gateway_settings state client))
unfolding network_environment gateway_environment
read_settings-environment state client device p =
    let safe = safe_name-IsPlain client.device device in
    (
      lines-read (codes "WSN_DEVICE", client.device) _
          (
            (refl, safe),
            (
              (refl, p.mac_plain),
              (
                (refl, p.address_plain),
                (
                  (refl, p.gateway_plain),
                  (
                    (
                      refl,
                      join-IsPlain (unless_gateway client client.routes)
                          (unless-AllPlain client client.routes p.routes_plain),
                    ),
                    (
                      (refl, unless-IsPlain client state.dns p.dns_plain),
                      (
                        (
                          refl,
                          join-IsPlain (unless_gateway client state.search)
                              (unless-AllPlain client state.search p.search_plain),
                        ),
                        tt,
                      ),
                    ),
                  ),
                ),
              ),
            ),
          ),
      lines-read (codes "WSN_DEVICE", client.device) _
          (
            (refl, safe),
            (
              (refl, p.overlay_plain),
              ((refl, p.egress_plain), ((refl, join-IsPlain client.routes p.routes_plain), tt)),
            ),
          ),
    )
