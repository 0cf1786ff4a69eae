-- ===== src/Provision/Init/Sound.antt =====
-- What `Init` of internal/provision/provision.go leaves behind.
use wsn.Provision.Resolver.{normalize_resolver}
use wsn.Provision.Plan.{State}
use wsn.Provision.Init.{InitHost, InitOptions, init_deployment, init_with, plan_state, written}
use wsn.Provision.Deployment.{IsDeployment, IsNetwork}
use wsn.Provision.{Disk, load_state, relay_config, save_state, write_relay_config}
use wsn.Prelude.{Option-cases, Result-cases, [], arith, inl, inr, ok, some, ◌≡◌}
use wsn.Formats.{Formats, ReadsBack}
use wsn.Provision.Plan.Checked.{canonical}

module _ (f : Formats) (r : ReadsBack f) where
  -- A planned state has no clients and a network.
  abbrev IsFirst : State → Type 0
  IsFirst state = (state.version ≡ 1) × (state.clients ≡ []) × IsNetwork f state

  plan_state-IsFirst :
      (host : InitHost) (options : InitOptions) (state : State)
      → plan_state f host options ≡ ok state
      → IsFirst state
  unfolding plan_state
  plan_state-IsFirst host options state h = elim (Option-cases (f.parse_addr options.public_ip)) [
    | inl a ↦ ground arith
    | inr (ip, a) ↦ elim (Option-cases (f.parse_prefix options.overlay)) [
      | inl o ↦ ground arith
      | inr (overlay, o) ↦ elim (Option-cases (f.parse_addr options.gateway)) [
        | inl g ↦ ground arith
        | inr (gateway, g) ↦
            elim (Result-cases (normalize_resolver f options.dns options.search overlay)) [
              | inl (bad, n) ↦ ground arith
              | inr (resolver, n) ↦ (
                ground arith,
                ground arith,
                record {
                  overlay = overlay;
                  overlay_parsed =
                      let read =
                        r.prefix_reads overlay (r.prefix_parsed options.overlay overlay o) in
                      ground arith;
                  canonical = canonical f overlay (ground arith);
                  gateway = gateway;
                  gateway_parsed =
                      let read = r.addr_reads gateway (r.addr_parsed options.gateway gateway g) in
                      ground arith;
                  gateway_usable = ground arith;
                },
              )
            ]
      ]
    ]
  ]

  first-IsDeployment : (state : State) → IsFirst state → IsDeployment f state
  first-IsDeployment state (version, empty, n) = record {
    network = n;
    rising = rw empty tt;
    addresses_differ = rw empty tt;
    one_gateway = rw empty tt;
    provisioned = rw empty tt;
  }

  -- The state that Init plans satisfies the invariant.
  pub plan_state-IsDeployment :
      (host : InitHost) (options : InitOptions) (state : State)
      → plan_state f host options ≡ ok state
      → IsDeployment f state
  plan_state-IsDeployment host options state p =
      first-IsDeployment state (plan_state-IsFirst host options state p)

  -- An Init that returns no error leaves a deployment without clients that can be loaded, with the
  -- invariant, and the relay's configuration for it, given formats that read back what they print.
  pub init_deployment-ok :
      (host : InitHost) (options : InitOptions) (d d' : Disk)
      → init_deployment f host options d ≡ (ok tt, d')
      → (state : State) × (load_state d' ≡ ok state)
        × (state.clients ≡ [])
        × IsDeployment f state
        × (d'.relay_file ≡ some (relay_config []))
  unfolding init_deployment init_with save_state write_relay_config written load_state
  init_deployment-ok host options d d' h = elim (Result-cases (plan_state f host options)) [
    | inl (e, p) ↦ ground arith
    | inr (state, p) ↦
        let (version, empty, n) = plan_state-IsFirst host options state p in
        (state, ground arith, empty, first-IsDeployment state (version, empty, n), ground arith)
  ]
