-- ===== src/Provision/Enroll/Rollback.antt =====
-- What `Enroll` of internal/provision/provision.go leaves behind where the bundle cannot be built.
use wsn.Provision.Render.{Host}
use wsn.Provision.Bundle.{bundle}
use wsn.Text.Order.{bytes_lt, insert_by}
use wsn.Provision.Plan.Checked.{IsNew}
use wsn.Provision.Plan.{AddOptions, ProvisionError, ProvisionedClient, State}
use wsn.Provision.Enroll.{EnrollOptions, bundle_options, bundled, enroll, enrolled, rolled_back}
use wsn.Provision.Deployment.Commands.{IsFilled, prepare-IsPrepared, prepared-IsProvisioned}
use wsn.Provision.Deployment.{IsDeployment, IsProvisioned, IsSound, with_client-IsDeployment}
use wsn.Provision.{
  Disk, add_client, add_prepared, client_id, finish, has_id, load_state, prepare, relay_config,
  revoke_client, revoke_loaded, save_state, store, with_client, without_id, write_relay_config,
}
use wsn.Protocol.{Bytes}
use wsn.Prelude.{
  All, Bool, Bool-cases, List, Option, Option-cases, [], ap, arith, bytes_eq, bytes_eq_refl, err,
  false, inl, inr, ok, refl, some, true, ◌∙◌, ◌∷◌, ◌≡◌,
}
use wsn.Formats.{Formats}

without_id-fresh :
    (id : Bytes) (l : List ProvisionedClient)
    → All (λ (e : ProvisionedClient). bytes_eq e.id id ≡ false) l
    → without_id id l ≡ l
without_id-fresh id [] h = refl
without_id-fresh id (e ∷ l) h = let rest = without_id-fresh id l h.1 in ground arith

without_id-insert_by :
    (c : ProvisionedClient) (l : List ProvisionedClient)
    → All (λ (e : ProvisionedClient). bytes_eq e.id c.id ≡ false) l
    → without_id c.id (insert_by client_id c l) ≡ l
without_id-insert_by c [] h = ground (arith, bytes_eq_refl c.id)
without_id-insert_by c (e ∷ l) h = elim (Bool-cases (bytes_lt e.id c.id)) [
  | inl less ↦ let rest = without_id-insert_by c l h.1 in ground arith
  | inr more ↦ let rest = without_id-fresh c.id l h.1 in ground (arith, bytes_eq_refl c.id)
]

has_id-insert_by :
    (c : ProvisionedClient) (l : List ProvisionedClient)
    → has_id c.id (insert_by client_id c l) ≡ true
has_id-insert_by c [] = ground (arith, bytes_eq_refl c.id)
has_id-insert_by c (e ∷ l) = elim (Bool-cases (bytes_lt e.id c.id)) [
  | inl less ↦ let rest = has_id-insert_by c l in ground arith
  | inr more ↦ ground (arith, bytes_eq_refl c.id)
]

load_state_version : (d : Disk) (state : State) → load_state d ≡ ok state → state.version ≡ 1
unfolding load_state
load_state_version d state h = elim (Option-cases d.state_file) [
  | inl missing ↦ ground arith
  | inr (found, e) ↦ ground arith
]

module _ (host : Host) (f : Formats) where
  -- The disk between AddClient and what follows it.
  abbrev pub added_disk : State → ProvisionedClient → List Bool → Disk
  added_disk state c writes = record {
    state_file = some (with_client state c);
    relay_file = some (relay_config (with_client state c).clients);
    writes = writes;
  }

  add_client-writes :
      (options : AddOptions) (key mac : Option Bytes) (d : Disk) (state : State)
      (c : ProvisionedClient) (later : List Bool)
      → prepare f options key mac d ≡ ok (state, c)
      → d.writes ≡ true ∷ true ∷ later
      → add_client f options key mac d ≡ (ok c, added_disk state c later)
  unfolding add_client add_prepared store finish save_state write_relay_config
  add_client-writes options key mac d state c later p w = rw p (rw w refl)

  revoke_client-added :
      (state : State) (c : ProvisionedClient) (later : List Bool)
      → state.version ≡ 1
      → IsDeployment f state
      → IsProvisioned f c
      → IsNew c.id c.address c.role state.clients
      → revoke_client c.id (added_disk state c (true ∷ true ∷ later)) ≡ (
        ok tt,
        record {
          state_file = some state;
          relay_file = some (relay_config state.clients);
          writes = later;
        },
      )
  unfolding revoke_client revoke_loaded load_state store finish save_state write_relay_config
      with_client
  revoke_client-added state c later version v able n =
      let (sorted, kept) = with_client-IsDeployment f state c v able n in
      let clients : (with_client state c).clients ≡ insert_by client_id c state.clients =
        ap (λ (s : State). s.clients) sorted in
      let known : has_id c.id (with_client state c).clients ≡ true =
        ap (has_id c.id) clients ∙ has_id-insert_by c state.clients in
      let back : without_id c.id (with_client state c).clients ≡ state.clients =
        ap (without_id c.id) clients ∙ without_id-insert_by c state.clients n.ids_new in
      ground arith

  -- Where the bundle of a client cannot be built, Enroll returns the error of the bundle and the
  -- deployment holds the state of before and the relay's configuration that belongs to it, given that
  -- the deployment was sound, that the client was accepted and that the four writes succeed.
  pub enroll-rolls_back :
      (options : EnrollOptions) (key mac : Option Bytes) (d : Disk) (state : State)
      (c : ProvisionedClient) (later : List Bool) (e : ProvisionError)
      → IsFilled 32 key
      → IsFilled 6 mac
      → IsSound f d
      → prepare f options.add_options key mac d ≡ ok (state, c)
      → d.writes ≡ true ∷ true ∷ true ∷ true ∷ later
      → bundle host (bundle_options options c) (added_disk state c (true ∷ true ∷ later)) ≡ err e
      → enroll host f options key mac d ≡ (
        err e,
        record {
          state_file = d.state_file;
          relay_file = some (relay_config state.clients);
          writes = later;
        },
      )
  unfolding enroll enrolled bundled rolled_back
  enroll-rolls_back options key mac d state c later e fk fm s p w b =
      let made = prepare-IsPrepared f options.add_options key mac d state c p in
      let able = prepared-IsProvisioned f options.add_options key mac d state c fk fm made in
      let version = load_state_version d state made.loaded in
      let added =
        add_client-writes options.add_options key mac d state c (true ∷ true ∷ later) p w in
      let back =
        revoke_client-added state c later version (s state made.stored) able made.planned.new in
      let stored = made.stored in ground arith
