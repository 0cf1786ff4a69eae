-- ===== src/Provision/Render/Directory.antt =====
-- What `renderBundle` of internal/provision/provision.go reads of the deployment's directory.
use wsn.Provision.Render.{
  BundleOptions, Host, asset_files, asset_names, is_windows, render_bundle, tap_files, tap_hashes,
}
use wsn.Provision.Plan.{ProvisionedClient, State}
use wsn.Protocol.{Bytes}
use wsn.Prelude.{Bool, List, [], false, none, refl, true, ◌∷◌, ◌≡◌}

-- Without what lies in the directory and is not for the clients.
abbrev pub public_host : Host → Host
public_host host = record host { relay_certificate = none; relay_key = none }

asset_files-public_host :
    (host : Host) (names : List Bytes)
    → asset_files host names ≡ asset_files (public_host host) names
unfolding asset_files
asset_files-public_host host [] = refl
asset_files-public_host host (name ∷ names) = rw (asset_files-public_host host names) refl

tap_files-public_host :
    (host : Host) (windows : Bool) (options : BundleOptions)
    → tap_files host windows options ≡ tap_files (public_host host) windows options
unfolding tap_files
tap_files-public_host host false options = refl
tap_files-public_host host true options = refl

tap_hashes-public_host :
    (host : Host) (windows : Bool) (options : BundleOptions)
    → tap_hashes host windows options ≡ tap_hashes (public_host host) windows options
unfolding tap_hashes
tap_hashes-public_host host false options = refl
tap_hashes-public_host host true options = refl

pub render_bundle-public_host :
    (host : Host) (state : State) (client : ProvisionedClient) (options : BundleOptions)
    → render_bundle host state client options
      ≡ render_bundle (public_host host) state client options
unfolding render_bundle
render_bundle-public_host host state client options =
    rw
      (
        asset_files-public_host host (asset_names client),
        tap_files-public_host host (is_windows client) options,
        tap_hashes-public_host host (is_windows client) options,
      )
      refl
