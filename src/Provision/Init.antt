-- ===== src/Provision/Init.antt =====
-- `Init` of internal/provision/provision.go. Whether `state.json` is there, whether the directory can
-- be made and whether the certificates can be generated are arguments.
use wsn.Provision.Resolver.{ResolverError, normalize_resolver}
use wsn.Provision.Plan.{State, prefix_eq}
use wsn.Provision.{Disk, save_state, write_relay_config}
use wsn.Protocol.{Bytes, version}
use wsn.Prelude.{
  nat_eq, bytes_key, ◌>>=◌, ◌>>◌, Bool, List, Result, [], err, false, if◌then◌else◌, ltb, not, ok,
  or_err, refuse_if, true, ◌||◌,
}
use wsn.Netip.{masked, usable_address}
use wsn.Formats.{Formats}
pub mod Sound

pub record InitOptions : Type 0 where
  pub public_ip : Bytes
  pub overlay : Bytes
  pub gateway : Bytes
  pub dns : Bytes
  pub search : List Bytes

pub data InitError : Type 0 where
  state_exists bad_public_ip bad_overlay bad_gateway no_directory no_certificates : InitError
  write_failed : InitError
  bad_resolver : ResolverError → InitError

abbrev pub of_resolver {ℓ} : {A : Type ℓ} → Result ResolverError A → Result InitError A
of_resolver (ok a) = ok a
of_resolver (err e) = err (bad_resolver e)

-- What the steps around the checks return.
pub record InitHost : Type 0 where
  pub exists : Bool
  pub makes_directory : Bool
  pub makes_certificates : Bool

module _ (f : Formats) where
  -- The checks, and the state that they lead to.
  unfoldable pub plan_state : InitHost → InitOptions → Result InitError State
  unfolding prefix_eq
  plan_state host options = do
    refuse_if host.exists state_exists
    public_ip ← or_err (f.parse_addr options.public_ip) bad_public_ip
    overlay ← or_err (f.parse_prefix options.overlay) bad_overlay
    refuse_if (not (prefix_eq overlay (masked overlay)) || ltb 30 overlay.bits) bad_overlay
    gateway ← or_err (f.parse_addr options.gateway) bad_gateway
    refuse_if (not (usable_address overlay gateway)) bad_gateway
    resolver ← of_resolver (normalize_resolver f options.dns options.search overlay)
    refuse_if (not host.makes_directory) no_directory
    ok (record {
      version = 1;
      public_ip = f.print_addr public_ip;
      overlay = f.print_prefix overlay;
      gateway = f.print_addr gateway;
      dns = resolver.0;
      search = resolver.1;
      clients = [];
    })

  unfoldable pub written : Bool × Disk → Result InitError (Unit {0}) × Disk
  written (true, d) = (ok tt, d)
  written (false, d) = (err write_failed, d)

  -- The state is written before the certificates, and the relay's configuration after them.
  unfoldable pub init_with :
      InitHost → Disk → Result InitError State → Result InitError (Unit {0}) × Disk
  unfolding written save_state write_relay_config
  init_with host d (err e) = (err e, d)
  init_with host d (ok state) =
      let (saved, d') = save_state state d in
      if not saved
      then (err write_failed, d')
      else if not host.makes_certificates
      then (err no_certificates, d')
      else written (write_relay_config state d')

  unfoldable pub init_deployment :
      InitHost → InitOptions → Disk → Result InitError (Unit {0}) × Disk
  unfolding plan_state init_with
  init_deployment host options d = init_with host d (plan_state host options)
