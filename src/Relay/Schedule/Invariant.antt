-- ===== src/Relay/Schedule/Invariant.antt =====
-- What every reachable state of the sessions of internal/relay/relay.go satisfies.
use wsn.Prelude.{among, nat_eq, bytes_key, lookup, ℕ, ◌≡◌, Bool, true, false, ◌||◌, some}
use wsn.Protocol.{Bytes}
use wsn.Relay.Hub.Registry.{IsRegistry}
use wsn.Relay.Hub.Removal.{Fades, Fades-IsRegistry}
use wsn.Relay.Schedule.{
  Phase, registered, serving, leaving, Reload, quiet, swapped, stopping, World, is_serving,
  is_listed,
}

-- The peer may stand in the hub.
abbrev pub is_known : Phase → Bool
is_known registered = true
is_known serving = true
is_known leaving = true
is_known _ = false

-- The peer stands in the hub unless it was stopped.
abbrev pub is_active : Phase → Bool
is_active registered = true
is_active serving = true
is_active _ = false

-- A reload that is under way has yet to look at the peer, or to stop it.
abbrev pub is_pending : Reload → ℕ → Bool
is_pending quiet q = false
is_pending swapped q = true
is_pending (stopping ps) q = among q ps

pub record IsSafe (w : World) : Type 0 where
  pub registry : IsRegistry w.hub
  pub known_by_id :
      (id : Bytes) (q : ℕ) → lookup id w.hub.by_id ≡ some q → is_known (w.phase q) ≡ true
  pub known_by_mac : (k q : ℕ) → lookup k w.hub.by_mac ≡ some q → is_known (w.phase q) ≡ true
  pub present :
      (q : ℕ)
      → is_active (w.phase q) ≡ true
      → (w.hub.peers q).stopped ≡ false
      → lookup (w.hub.peers q).id w.hub.by_id ≡ some q
  pub checked :
      (q : ℕ)
      → is_serving (w.phase q) ≡ true
      → (w.hub.peers q).stopped ≡ false
      → (is_listed w q || is_pending w.reloading q) ≡ true

-- An event that only ages peers, and lets no handler become active.
pub IsSafe-Fades :
    (w w' : World)
    → IsSafe w
    → Fades w.hub w'.hub
    → ((q : ℕ) → is_known (w.phase q) ≡ true → is_known (w'.phase q) ≡ true)
    → ((q : ℕ) → is_active (w'.phase q) ≡ true → is_active (w.phase q) ≡ true)
    → ((q : ℕ)
        → is_serving (w'.phase q) ≡ true
        → (w'.hub.peers q).stopped ≡ false
        → (is_listed w' q || is_pending w'.reloading q) ≡ true)
    → IsSafe w'
IsSafe-Fades w w' v f known active checked = record {
  registry = Fades-IsRegistry w.hub w'.hub f v.registry;
  known_by_id = λ id q e. known q (v.known_by_id id q (rw f.by_id_same at e));
  known_by_mac = λ k q e. known q (v.known_by_mac k q (rw f.by_mac_same at e));
  present =
      λ q a live. rw (f.by_id_same, f.id_same q) (v.present q (active q a) (f.live_before q live));
  checked = checked;
}
