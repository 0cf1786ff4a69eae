-- ===== src/Provision/Enroll.antt =====
-- `Enroll` of internal/provision/provision.go: AddClient, Bundle, ServerBundle, and RevokeClient where
-- the bundle cannot be built.
use wsn.Provision.Render.{BundleOptions, File, Host}
use wsn.Provision.Bundle.{server_bundle, bundle}
use wsn.Provision.Plan.{AddOptions, ProvisionError, ProvisionedClient, bundle_error}
use wsn.Provision.{Disk, add_client, revoke_client}
use wsn.Protocol.{Bytes}
use wsn.Prelude.{List, Option, Result, err, ok}
use wsn.Formats.{Formats}
pub mod Rollback

pub record EnrollOptions : Type 0 where
  pub add_options : AddOptions
  pub client_binary : Bytes
  pub tap_installer : Bytes
  pub tapctl : Bytes
  pub output : Bytes
  pub server_output : Bytes

-- The client and the two archives, each with its name.
pub record EnrollResult : Type 0 where
  pub client : ProvisionedClient
  pub client_bundle : Bytes × List File
  pub server_bundle : Bytes × List File

abbrev pub bundle_options : EnrollOptions → ProvisionedClient → BundleOptions
bundle_options options client = record {
  id = client.id;
  client_binary = options.client_binary;
  tap_installer = options.tap_installer;
  tapctl = options.tapctl;
  output = options.output;
}

-- The error of the bundle, with that of the rollback where it fails too.
unfoldable pub rolled_back {ℓ} :
    {A : Type ℓ}
    → ProvisionError
    → Result ProvisionError (Unit {0}) × Disk
    → Result ProvisionError A × Disk
rolled_back e (ok _, d) = (err e, d)
rolled_back e (err e', d) = (err (bundle_error e e'), d)

module _ (host : Host) where
  unfoldable pub refresh :
      ProvisionedClient
      → Bytes × List File
      → Disk
      → Result ProvisionError (Bytes × List File)
      → Result ProvisionError EnrollResult × Disk
  refresh client made d (ok server) =
      (ok (record { client = client; client_bundle = made; server_bundle = server }), d)
  refresh client made d (err e) = (err e, d)

  unfoldable pub bundled :
      EnrollOptions
      → ProvisionedClient
      → Disk
      → Result ProvisionError (Bytes × List File)
      → Result ProvisionError EnrollResult × Disk
  unfolding rolled_back refresh
  bundled options client d (ok made) =
      refresh client made d (server_bundle host options.server_output d)
  bundled options client d (err e) = rolled_back e (revoke_client client.id d)

  unfoldable pub enrolled :
      EnrollOptions
      → Result ProvisionError ProvisionedClient × Disk
      → Result ProvisionError EnrollResult × Disk
  unfolding bundled
  enrolled options (err e, d) = (err e, d)
  enrolled options (ok client, d) =
      bundled options client d (bundle host (bundle_options options client) d)

  module _ (f : Formats) where
    unfoldable pub enroll :
        EnrollOptions
        → Option Bytes
        → Option Bytes
        → Disk
        → Result ProvisionError EnrollResult × Disk
    unfolding enrolled
    enroll options key mac d = enrolled options (add_client f options.add_options key mac d)
