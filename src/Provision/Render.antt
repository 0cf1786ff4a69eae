-- ===== src/Provision/Render.antt =====
-- `renderBundle` of internal/provision/provision.go: the files of a client's bundle. Files that the
-- commands read, the embedded assets, SHA-256 and the fingerprint of a certificate are parameters; a
-- file that is written is its name, its content, where JSON stands for the value that it encodes, and
-- its mode.
pub mod Directory
use wsn.Provision.Plan.{ProvisionError, ProvisionedClient, State, gateway_role, io_failed, windows}
use wsn.Protocol.{Bytes, codes}
use wsn.Prelude.{
  nat_eq, bytes_key, Bool, List, Option, Result, [], bytes_eq, drop, false, if◌then◌else◌, length,
  none, not, ok, or_err, refuse_if, some, true, ℕ, ◌>>=◌, ◌>>◌, ◌&&◌, ◌++◌, ◌-◌, ◌==◌, ◌||◌, ◌∷◌,
}
use wsn.Config.Client.{ClientConfig}
use wsn.Config.{RelayConfig, default_max_frame_size, pos}

pub record BundleOptions : Type 0 where
  pub id : Bytes
  pub client_binary : Bytes
  pub tap_installer : Bytes
  pub tapctl : Bytes
  pub output : Bytes

-- `bundle.json`; `tap_hashes` are the two hashes that only a Windows bundle has.
pub record Meta : Type 0 where
  pub id : Bytes
  pub role : Bytes
  pub device : Bytes
  pub mac : Bytes
  pub address : Bytes
  pub routes : List Bytes
  pub egress : Bytes
  pub gateway : Bytes
  pub overlay : Bytes
  pub client_sha256 : Bytes
  pub dns : Bytes
  pub search : List Bytes
  pub ca_sha256 : Bytes
  pub tap_hashes : Option (Bytes × Bytes)

pub data Content : Type 0 where
  plain : Bytes → Content
  client_json : ClientConfig → Content
  relay_json : RelayConfig → Content
  meta_json : Meta → Content

pub record File : Type 0 where
  pub name : Bytes
  pub content : Content
  pub mode : ℕ

-- What one command finds beside the two JSON files of its directory: the certificates and the key in
-- that directory, the files that its flags name, and the assets. `stages` says whether the writes to the temporary directory succeed,
-- `archives` whether the archive can be written.
pub record Host : Type 0 where
  pub read_file : Bytes → Option Bytes
  pub ca_certificate : Option Bytes
  pub relay_certificate : Option Bytes
  pub relay_key : Option Bytes
  pub asset : Bytes → Option Bytes
  pub sha256_hex : Bytes → Bytes
  pub fingerprint : Bytes → Option Bytes
  pub stages : Bool
  pub archives : Bool

abbrev pub is_windows : ProvisionedClient → Bool
is_windows client = bytes_eq client.os windows

abbrev pub is_gateway : ProvisionedClient → Bool
is_gateway client = bytes_eq client.role gateway_role

-- `toUnixNewlines`: `bytes.ReplaceAll` of CR LF by LF.
unfoldable pub to_unix_newlines : Bytes → Bytes
to_unix_newlines [] = []
to_unix_newlines (c ∷ []) = c ∷ []
to_unix_newlines (c ∷ d ∷ s) =
    let skipped = to_unix_newlines s in
    let next = to_unix_newlines (d ∷ s) in if (c == 13) && (d == 10) then 10 ∷ skipped else c ∷ next

abbrev pub has_suffix : Bytes → Bytes → Bool
has_suffix suffix s = bytes_eq (drop (length s - length suffix) s) suffix

-- The client's configuration, with paths of the target system.
unfoldable pub client_config : State → ProvisionedClient → ClientConfig
client_config state client = record {
  server = codes "wss://" ++ (state.public_ip ++ codes "/wsn");
  ca_file =
      if is_windows client
      then codes "C:\\ProgramData\\WSN\\relay-ca.crt"
      else codes "/etc/wsn/relay-ca.crt";
  id = client.id;
  key_file =
      if is_windows client
      then codes "C:\\ProgramData\\WSN\\client.key"
      else codes "/etc/wsn/client.key";
  device = client.device;
  mac = client.mac;
  address = client.address;
  gateway = state.gateway;
  routes = client.routes;
  max_frame_size = pos default_max_frame_size;
}

unfoldable pub join : Bytes → List Bytes → Bytes
join sep [] = []
join sep (part ∷ []) = part
join sep (part ∷ next ∷ parts) = part ++ (sep ++ join sep (next ∷ parts))

-- `NAME='value'` and a newline.
abbrev pub setting : Bytes → Bytes → Bytes
setting name value = name ++ (codes "='" ++ (value ++ codes "'\n"))

unfoldable pub network_environment : State → ProvisionedClient → Bytes
unfolding join
network_environment state client =
    setting (codes "WSN_DEVICE") client.device
    ++ (setting (codes "WSN_MAC") client.mac
        ++ (setting (codes "WSN_ADDRESS") client.address
            ++ (setting (codes "WSN_GATEWAY") state.gateway
                ++ (setting (codes "WSN_ROUTES")
                      (join (codes " ") (if is_gateway client then [] else client.routes))
                    ++ (setting (codes "WSN_DNS") (if is_gateway client then [] else state.dns)
                        ++ setting (codes "WSN_SEARCH")
                            (join (codes " ") (if is_gateway client then [] else state.search)))))))

unfoldable pub gateway_environment : State → ProvisionedClient → Bytes
unfolding join
gateway_environment state client =
    setting (codes "WSN_DEVICE") client.device
    ++ (setting (codes "WSN_OVERLAY") state.overlay
        ++ (setting (codes "WSN_EGRESS") client.egress
            ++ setting (codes "WSN_DESTINATIONS") (join (codes " ") client.routes)))

abbrev pub file : Bytes → Content → ℕ → File
file name content mode = record { name = name; content = content; mode = mode }

abbrev pub asset_names : ProvisionedClient → List Bytes
asset_names client =
    (if is_windows client
      then codes "install-windows.ps1"
        ∷ codes "uninstall-windows.ps1"
        ∷ codes "upgrade-windows.ps1"
        ∷ codes "rollback-windows.ps1"
        ∷ codes "wsn-toggle.ps1"
        ∷ []
      else codes "install-linux.sh"
        ∷ codes "uninstall-linux.sh"
        ∷ codes "upgrade-linux.sh"
        ∷ codes "rollback-linux.sh"
        ∷ codes "wsn-net.sh"
        ∷ codes "wsn-client.service"
        ∷ codes "wsn-net.service"
        ∷ [])
    ++ (if is_gateway client then codes "wsn-gateway.sh" ∷ codes "wsn-gateway.service" ∷ [] else [])

module _ (host : Host) where
  asset_file : Bytes → Bytes → File
  unfolding to_unix_newlines
  asset_file name contents =
      file name
        (plain (if has_suffix (codes ".ps1") name then contents else to_unix_newlines contents))
        (if has_suffix (codes ".sh") name || has_suffix (codes ".ps1") name then 0o755 else 0o644)

  asset_files : List Bytes → Result ProvisionError (List File)
  unfolding asset_file
  asset_files [] = ok []
  asset_files (name ∷ names) = do
    contents ← or_err (host.asset name) io_failed
    rest ← asset_files names
    ok (asset_file name contents ∷ rest)

  tap_files : Bool → BundleOptions → Result ProvisionError (List File)
  tap_files false options = ok []
  tap_files true options = do
    installer ← or_err (host.read_file options.tap_installer) io_failed
    tapctl ← or_err (host.read_file options.tapctl) io_failed
    ok (
        file (codes "tap-driver.exe") (plain installer) 0o644
        ∷ file (codes "tapctl.exe") (plain tapctl) 0o755
        ∷ [])

  tap_hashes : Bool → BundleOptions → Result ProvisionError (Option (Bytes × Bytes))
  tap_hashes false options = ok none
  tap_hashes true options = do
    installer ← or_err (host.read_file options.tap_installer) io_failed
    tapctl ← or_err (host.read_file options.tapctl) io_failed
    ok (some (host.sha256_hex installer, host.sha256_hex tapctl))

  unfoldable pub render_bundle :
      State → ProvisionedClient → BundleOptions → Result ProvisionError (List File)
  unfolding client_config network_environment gateway_environment asset_files tap_files tap_hashes
  render_bundle state client options = do
    ca ← or_err host.ca_certificate io_failed
    binary ← or_err (host.read_file options.client_binary) io_failed
    ca_sha256 ← or_err (host.fingerprint ca) io_failed
    hashes ← tap_hashes (is_windows client) options
    drivers ← tap_files (is_windows client) options
    scripts ← asset_files (asset_names client)
    refuse_if (not host.stages) io_failed
    ok (
        file (codes "relay-ca.crt") (plain ca) 0o644
        ∷ file (codes "client.key") (plain (client.key ++ codes "\n")) 0o600
        ∷ file (codes "client.json") (client_json (client_config state client)) 0o600
        ∷ file (codes "bundle.json")
            (meta_json (record {
              id = client.id;
              role = client.role;
              device = client.device;
              mac = client.mac;
              address = client.address;
              routes = client.routes;
              egress = client.egress;
              gateway = state.gateway;
              overlay = state.overlay;
              client_sha256 = host.sha256_hex binary;
              dns = if is_gateway client then [] else state.dns;
              search = if is_gateway client then [] else state.search;
              ca_sha256 = ca_sha256;
              tap_hashes = hashes;
            }))
            0o644
        ∷ file (codes "network.env") (plain (network_environment state client)) 0o644
        ∷ file (codes "ca-fingerprint.txt") (plain (ca_sha256 ++ codes "\n")) 0o644
        ∷ ((if is_gateway client
              then file (codes "gateway.env") (plain (gateway_environment state client)) 0o644 ∷ []
              else [])
            ++ (file (if is_windows client then codes "wsn-client.exe" else codes "wsn-client")
                  (plain binary) 0o755
                ∷ (drivers ++ scripts))))
