-- ===== src/Provision/Bundle/Private.antt =====
-- What a bundle of internal/provision/provision.go tells of the deployment that it comes from.
use wsn.Prelude.{◌>>=◌, ◌>>◌}
use wsn.Provision.Render.{File}
use wsn.Provision.Plan.{io_failed, unknown_client}
use wsn.Provision.Render.{is_windows, BundleOptions, Host, render_bundle}
use wsn.Provision.Plan.{
  ProvisionError, client_binary_required, tap_required, ProvisionedClient, State,
}
use wsn.Provision.Bundle.{
  default_to, tar_directory, verify_client_binary, zip_directory, bundle, find_client,
}
use wsn.Provision.Render.Directory.{public_host, render_bundle-public_host}
use wsn.Provision.{Disk, load_state}
use wsn.Prelude.{none, some}
use wsn.Protocol.{Bytes, codes}
use wsn.Prelude.{
  List, Option, Result, ap, if◌then◌else◌, not, or_err, refuse_if, sym, ◌&&◌, ◌++◌, ◌||◌, ◌∙◌, [],
  arith, ok, refl, ◌≡◌,
}
use wsn.Config.Client.{is_blank}

-- What every client of the deployment is told.
abbrev pub SharePublicPart : State → State → Type 0
SharePublicPart s s' =
    (s.public_ip ≡ s'.public_ip)
    × (s.overlay ≡ s'.overlay)
    × (s.gateway ≡ s'.gateway)
    × (s.dns ≡ s'.dns)
    × (s.search ≡ s'.search)

-- The state with nothing but that.
abbrev public_part : State → State
public_part s = record s { version = 1; clients = [] }

SharePublicPart-eq : (s s' : State) → SharePublicPart s s' → public_part s ≡ public_part s'
SharePublicPart-eq s s' h = ground arith

module _ (host : Host) where
  -- The bundle of a client that was found.
  abbrev bundle_of :
      State → BundleOptions → Option ProvisionedClient → Result ProvisionError (Bytes × List File)
  bundle_of state options found = do
    selected ← or_err found unknown_client
    refuse_if (is_blank options.client_binary) client_binary_required
    refuse_if (is_windows selected && (is_blank options.tap_installer || is_blank options.tapctl))
        tap_required
    verify_client_binary (host.read_file options.client_binary) selected.os
    files ← render_bundle host state selected options
    refuse_if (not host.archives) io_failed
    ok (
        if is_windows selected
        then (default_to (selected.id ++ codes "-windows.zip") options.output, zip_directory files)
        else (
          default_to (selected.id ++ codes "-linux.tar.gz") options.output,
          tar_directory files,
        ))

  bundle-bundle_of :
      (options : BundleOptions) (d : Disk) (s : State)
      → load_state d ≡ ok s
      → bundle host options d ≡ bundle_of (public_part s) options (find_client options.id s.clients)
  unfolding bundle
  bundle-bundle_of options d s l = bound l
    where
      bound :
          {m : Result ProvisionError State}
          → m ≡ ok s
          → (m >>= λ state. bundle_of state options (find_client options.id state.clients))
            ≡ bundle_of (public_part s) options (find_client options.id s.clients)
      bound e = rw e refl

-- The relay's certificate and key play no part in it.
bundle_of-public_host :
    (host : Host) (state : State) (options : BundleOptions) (found : Option ProvisionedClient)
    → bundle_of host state options found ≡ bundle_of (public_host host) state options found
bundle_of-public_host host state options none = refl
bundle_of-public_host host state options (some client) =
    rw (render_bundle-public_host host state client options) refl

-- A bundle depends on the deployment's directory by the client that it is for, the network, the
-- resolver and the certificate of the authority alone: two directories whose states agree on these, and
-- which have that certificate in common, give the same archive under the same name, or the same error,
-- whatever other clients they hold, whatever keys these have, and whatever the relay's certificate and
-- key are; given that the files that the flags name and the assets are the same.
pub bundle-public :
    (host host' : Host) (options : BundleOptions) (d d' : Disk) (s s' : State)
    → load_state d ≡ ok s
    → load_state d' ≡ ok s'
    → SharePublicPart s s'
    → public_host host ≡ public_host host'
    → find_client options.id s.clients ≡ find_client options.id s'.clients
    → bundle host options d ≡ bundle host' options d'
bundle-public host host' options d d' s s' l l' same around found =
    let parts = SharePublicPart-eq s s' same in
    bundle-bundle_of host options d s l
    ∙ ap (λ x. bundle_of host x options (find_client options.id s.clients)) parts
    ∙ ap (bundle_of host (public_part s') options) found
    ∙ bundle_of-public_host host (public_part s') options (find_client options.id s'.clients)
    ∙ ap (λ h. bundle_of h (public_part s') options (find_client options.id s'.clients)) around
    ∙ sym (bundle_of-public_host host' (public_part s') options (find_client options.id s'.clients))
    ∙ sym (bundle-bundle_of host' options d' s' l')
