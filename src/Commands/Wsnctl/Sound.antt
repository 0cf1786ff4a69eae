-- ===== src/Commands/Wsnctl/Sound.antt =====
-- The deployment that runs of cmd/wsnctl/main.go keep.
use wsn.Prelude.{
  List, [], ◌∷◌, Option, none, some, Result, ok, err, ◌≡◌, refl, sym, ap, ◌∙◌, All, arith, inl, inr,
  Result-cases, subst, Bool, if◌then◌else◌, true, false,
}
use wsn.Protocol.{Bytes, codes}
use wsn.Formats.{Formats, ReadsBack}
use wsn.Provision.{Disk, add_client, revoke_client, save_state, write_relay_config, next_write}
use wsn.Provision.Plan.{ProvisionError, ProvisionedClient, State}
use wsn.Provision.Render.{File, Host}
use wsn.Provision.Bundle.{bundle, server_bundle}
use wsn.Provision.Enroll.{
  EnrollOptions, EnrollResult, enroll, enrolled, bundled, rolled_back, refresh, bundle_options,
}
use wsn.Provision.Init.{
  InitHost, InitOptions, InitError, init_deployment, init_with, plan_state, written,
}
use wsn.Provision.Init.Sound.{plan_state-IsDeployment}
use wsn.Provision.Deployment.{IsDeployment, IsSound}
use wsn.Provision.Deployment.Commands.{IsFilled, add_client-IsSound, revoke_client-IsSound}
use wsn.Commands.Wsnctl.{
  Around, Command, Flags, run_command, with_command, wsnctl, run_all, command_of, init, add, enrol,
  revoke, list_all, bundle_one, bundle_server, rotate, printed, init_options, add_options,
  enroll_options, get, with_flags,
}

-- The random source fills what it is given, in a run.
abbrev pub HasRandom : Around × List Bytes → Type 0
HasRandom (a, args) = IsFilled 32 a.key × IsFilled 6 a.mac

module _ (f : Formats) (r : ReadsBack f) where
  -- Init writes the state or leaves it.
  init_with-state_file :
      (host : InitHost) (d : Disk) (state : State)
      → (init_with f host d (ok state)).1.state_file
        ≡ (if next_write d.writes then some state else d.state_file)
  unfolding init_with save_state write_relay_config written
  init_with-state_file host d state = ground arith

  if-IsSound :
      (b : Bool) (d : Disk) (state : State)
      → IsDeployment f state
      → IsSound f d
      → (state' : State) → (if b then some state else d.state_file) ≡ some state'
      → IsDeployment f state'
  if-IsSound true d state sound s state' e =
      let same : state ≡ state' = ground arith in subst (IsDeployment f) same sound
  if-IsSound false d state sound s state' e = s state' e

  init-IsSound :
      (host : InitHost) (options : InitOptions) (d : Disk)
      → IsSound f d
      → IsSound f (init_deployment f host options d).1
  unfolding init_deployment init_with
  init-IsSound host options d s = elim (Result-cases (plan_state f host options)) [
    | inl (e, p) ↦ rw p s
    | inr (state, p) ↦ λ state' e.
        if-IsSound (next_write d.writes) d state (plan_state-IsDeployment f r host options state p)
          s state'
          (sym (ap (λ x. (init_with f host d x).1.state_file) p ∙ init_with-state_file host d state)
            ∙ e)
  ]

  module _ (host : Host) (options : EnrollOptions) where
    refresh-disk :
        (client : ProvisionedClient) (made : Bytes × List File) (d : Disk)
        (server : Result ProvisionError (Bytes × List File))
        → (refresh host client made d server).1 ≡ d
    unfolding refresh
    refresh-disk client made d (ok s) = refl
    refresh-disk client made d (err e) = refl

    rolled_back-disk :
        (e : ProvisionError) (o : Result ProvisionError (Unit {0}) × Disk)
        → (rolled_back {A = EnrollResult} e o).1 ≡ o.1
    unfolding rolled_back
    rolled_back-disk e (ok t, d) = refl
    rolled_back-disk e (err e', d) = refl

    bundled-IsSound :
        (client : ProvisionedClient) (d : Disk) (made : Result ProvisionError (Bytes × List File))
        → IsSound f d
        → IsSound f (bundled host options client d made).1
    unfolding bundled
    bundled-IsSound client d (ok made) s =
        subst (IsSound f)
          (sym (refresh-disk client made d (server_bundle host options.server_output d))) s
    bundled-IsSound client d (err e) s =
        subst (IsSound f) (sym (rolled_back-disk e (revoke_client client.id d)))
          (revoke_client-IsSound f client.id d s)

    enrolled-IsSound :
        (o : Result ProvisionError ProvisionedClient × Disk)
        → IsSound f o.1
        → IsSound f (enrolled host options o).1
    unfolding enrolled
    enrolled-IsSound (err e, d) s = s
    enrolled-IsSound (ok client, d) s =
        bundled-IsSound client d (bundle host (bundle_options options client) d) s

    enroll-IsSound :
        (key mac : Option Bytes) (d : Disk)
        → IsFilled 32 key
        → IsFilled 6 mac
        → IsSound f d
        → IsSound f (enroll host f options key mac d).1
    unfolding enroll
    enroll-IsSound key mac d fk fm s =
        enrolled-IsSound (add_client f options.add_options key mac d)
          (add_client-IsSound f options.add_options key mac d fk fm s)

  printed-IsSound :
      (host : Host) (o : Result InitError (Unit {0}) × Disk)
      → IsSound f o.1
      → IsSound f (printed host o).1
  printed-IsSound host (ok t, d) s = s
  printed-IsSound host (err e, d) s = s

  run_command-IsSound :
      (a : Around) (command : Command) (flags : Flags) (d : Disk)
      → IsFilled 32 a.key
      → IsFilled 6 a.mac
      → IsSound f d
      → IsSound f (run_command f a command flags d).1
  unfolding run_command
  run_command-IsSound a init flags d fk fm s =
      printed-IsSound a.host (init_deployment f a.init_host (init_options flags) d)
        (init-IsSound a.init_host (init_options flags) d s)
  run_command-IsSound a add flags d fk fm s =
      add_client-IsSound f (add_options flags) a.key a.mac d fk fm s
  run_command-IsSound a enrol flags d fk fm s =
      enroll-IsSound a.host (enroll_options flags) a.key a.mac d fk fm s
  run_command-IsSound a revoke flags d fk fm s =
      revoke_client-IsSound f (get flags (codes "id") []) d s
  run_command-IsSound a list_all flags d fk fm s = s
  run_command-IsSound a bundle_one flags d fk fm s = s
  run_command-IsSound a bundle_server flags d fk fm s = s
  run_command-IsSound a rotate flags d fk fm s = s

  wsnctl-IsSound :
      (a : Around) (args : List Bytes) (d : Disk)
      → HasRandom (a, args)
      → IsSound f d
      → IsSound f (wsnctl f a args d).1
  unfolding wsnctl with_command
  wsnctl-IsSound a [] d random s = s
  wsnctl-IsSound a (name ∷ args) d random s = chosen (command_of name)
    where
      parsed :
          (command : Command) (flags : Option Flags) → IsSound f (with_flags f a command flags d).1
      parsed command none = s
      parsed command (some flags) = run_command-IsSound a command flags d random.0 random.1 s

      chosen : (command : Option Command) → IsSound f (with_command f a args command d).1
      chosen none = s
      chosen (some command) = parsed command (a.parse args)

  -- Whatever runs of wsnctl are made, with whatever arguments and whichever of their writes fail, the
  -- deployment in the directory is sound, if it was sound before; so one that was made by runs from an
  -- empty directory is. The random source fills what it is given, and formats read back what they
  -- print.
  pub run_all-IsSound :
      (runs : List (Around × List Bytes)) (d : Disk)
      → All HasRandom runs
      → IsSound f d
      → IsSound f (run_all f runs d)
  unfolding run_all
  run_all-IsSound [] d random s = s
  run_all-IsSound ((a, args) ∷ runs) d (filled, random) s =
      run_all-IsSound runs (wsnctl f a args d).1 random (wsnctl-IsSound a args d filled s)
