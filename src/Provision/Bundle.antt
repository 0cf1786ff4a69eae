-- ===== src/Provision/Bundle.antt =====
-- `Bundle`, `verifyClientBinary`, `ServerBundle`, `tarDirectory` and `zipDirectory` of
-- internal/provision/provision.go: the archives, each as its name and the files in it.
pub mod Loads
pub mod Private
mod Examples
use wsn.Provision.Render.{
  BundleOptions, File, Host, file, has_suffix, is_windows, plain, relay_json, render_bundle,
}
use wsn.Text.Order.{sort_by}
use wsn.Provision.Plan.{
  ProvisionError, ProvisionedClient, State, client_binary_required, gateway_role, io_failed, linux,
  tap_required, unknown_client, windows, wrong_binary,
}
use wsn.Protocol.{Bytes, codes}
use wsn.Prelude.{
  nat_eq, bytes_key, Bool, List, Option, Result, [], bytes_eq, drop, false, if◌then◌else◌, length,
  ltb, map, none, not, ok, or_err, refuse_if, some, take, true, ℕ, ◌>>=◌, ◌>>◌, ◌&&◌, ◌++◌, ◌-◌,
  ◌==◌, ◌||◌, ◌∷◌,
}
use wsn.Config.Client.{ClientConfig, is_blank}
use wsn.Config.{RelayConfig, default_max_frame_size, pos}
use wsn.Provision.{Disk, load_state}

unfoldable pub find_client : Bytes → List ProvisionedClient → Option ProvisionedClient
find_client id [] = none
find_client id (c ∷ rest) = if bytes_eq c.id id then some c else find_client id rest

abbrev pub elf_header : Bytes
elf_header = 0x7f ∷ codes "ELF"

-- The tests of the four bytes that `io.ReadFull` reads.
unfoldable pub verify_client_binary : Option Bytes → Bytes → Result ProvisionError (Unit {0})
verify_client_binary file os = do
  contents ← or_err file io_failed
  refuse_if (ltb (length contents) 4) io_failed
  refuse_if (bytes_eq os linux && not (bytes_eq (take 4 contents) elf_header)) wrong_binary
  refuse_if (bytes_eq os windows && not (bytes_eq (take 2 contents) (codes "MZ"))) wrong_binary

unfoldable pub linux_archive_mode : Bytes → ℕ
linux_archive_mode name =
    if bytes_eq name (codes "wsn-client") || has_suffix (codes ".sh") name
    then 0o755
    else if bytes_eq name (codes "client.json")
        || bytes_eq name (codes "client.key")
        || bytes_eq name (codes "server.json")
        || bytes_eq name (codes "relay.key")
    then 0o600
    else 0o644

abbrev pub file_name : File → Bytes
file_name f = f.name

-- `os.ReadDir` sorts by name. The archives set their own modes.
unfoldable pub tar_directory : List File → List File
unfolding linux_archive_mode sort_by
tar_directory files =
    map (λ (f : File). record f { mode = linux_archive_mode f.name }) (sort_by file_name files)

unfoldable pub zip_directory : List File → List File
unfolding sort_by
zip_directory files = map (λ (f : File). record f { mode = 0o600 }) (sort_by file_name files)

abbrev pub default_to : Bytes → Bytes → Bytes
default_to d [] = d
default_to d (c ∷ s) = c ∷ s

module _ (host : Host) where
  -- The name of the archive and what is in it.
  unfoldable pub bundle : BundleOptions → Disk → Result ProvisionError (Bytes × List File)
  unfolding load_state find_client verify_client_binary render_bundle tar_directory zip_directory
  bundle options d = do
    state ← load_state d
    selected ← or_err (find_client options.id state.clients) unknown_client
    refuse_if (is_blank options.client_binary) client_binary_required
    refuse_if (is_windows selected && (is_blank options.tap_installer || is_blank options.tapctl))
        tap_required
    verify_client_binary (host.read_file options.client_binary) selected.os
    files ← render_bundle host state selected options
    refuse_if (not host.archives) io_failed
    ok (
        if is_windows selected
        then (default_to (selected.id ++ codes "-windows.zip") options.output, zip_directory files)
        else (
          default_to (selected.id ++ codes "-linux.tar.gz") options.output,
          tar_directory files,
        ))

  unfoldable pub server_bundle : Bytes → Disk → Result ProvisionError (Bytes × List File)
  unfolding load_state tar_directory
  server_bundle output d = do
    _ ← load_state d
    relay ← or_err d.relay_file io_failed
    certificate ← or_err host.relay_certificate io_failed
    key ← or_err host.relay_key io_failed
    refuse_if (not (host.stages && host.archives)) io_failed
    ok (
      default_to (codes "wsn-server-private.tar.gz") output,
      tar_directory (
          file (codes "server.json") (relay_json relay) 0o600
          ∷ file (codes "relay.crt") (plain certificate) 0o644
          ∷ file (codes "relay.key") (plain key) 0o600
          ∷ []),
    )
