-- ===== src/Relay/Hub.antt =====
-- The hub of internal/relay/relay.go: the connected peers by identity and by virtual MAC. Each
-- operation is one critical section together with the calls that follow it. `none` is the panic of
-- `MACKey` on an address of fewer than six bytes.
pub mod Registry
pub mod Removal
pub mod Authorized
mod Delivery
pub mod Forwarding
pub mod Examples
use wsn.Prelude.{
  ltb, leb, ◌==◌, if◌then◌else◌, ltb→lt, leb→le, ==_iff, Bool-cases, Option-cases, bytes_eq,
  bytes_eq_iff, bytes_eq_refl, Eq, nat_eq, bytes_key, length, take, drop, Elem, length-append,
  take-append-drop, length-drop, All, All-append, Map, lookup, insert, remove, Distinct, Entry,
  lookup-insert, lookup-remove, insert-Distinct, remove-Distinct, Entry-of_lookup, lookup-of_Entry,
  Result, ◌>>=◌, ◌>>◌, refuse_if, or_err, ok, err, ℕ, zero, suc, ◌+◌, ◌-◌, ◌*◌, ◌/◌, ◌%◌, ◌^◌, ◌≤◌,
  ◌<◌, ◌≡◌, refl, sym, ap, subst, ◌∙◌, ◌≢◌, ◌↔◌, ◌⊎◌, inl, inr, Bool, true, false, not, ◌&&◌, ◌||◌,
  Option, none, some, List, [], ◌∷◌, ◌++◌, map, arith,
}
use mathlib.Core.Option
use wsn.Protocol.{Bytes, mac_key, destination_mac, is_group_mac}
use wsn.Relay.Peer.{Peer, stop, offer}

pub record Hub : Type 0 where
  pub by_id : Map Bytes ℕ
  pub by_mac : Map ℕ ℕ
  pub peers : ℕ → Peer

pub record AuthorizedClient : Type 0 where
  pub id : Bytes
  pub key : Bytes
  pub mac : Bytes

abbrev pub update {ℓ} : {A : Type ℓ} → (ℕ → A) → ℕ → A → ℕ → A
update f p a q = if p == q then a else f q

unfoldable pub new_hub : (ℕ → Peer) → Hub
new_hub peers = record { by_id = []; by_mac = []; peers = peers }

unfoldable pub stop_peer : ℕ → Hub → Hub
stop_peer p h = record h { peers = update h.peers p (stop (h.peers p)) }

-- `oldByID != nil && oldByID != p`.
unfoldable pub replaced_by_id : ℕ → Option ℕ → List ℕ
replaced_by_id p none = []
replaced_by_id p (some old) = if old == p then [] else old ∷ []

unfoldable pub same_peer : Option ℕ → ℕ → Bool
same_peer none q = false
same_peer (some r) q = q == r

-- `oldByMAC != nil && oldByMAC != p && oldByMAC != oldByID`.
unfoldable pub replaced_by_mac : ℕ → Option ℕ → Option ℕ → List ℕ
unfolding same_peer
replaced_by_mac p by_id none = []
replaced_by_mac p by_id (some old) = if old == p || same_peer by_id old then [] else old ∷ []

-- What `add` does while it holds the mutex.
unfoldable pub list_at : ℕ → ℕ → Hub → Hub
list_at key p h = record h {
  by_id = insert (h.peers p).id p h.by_id;
  by_mac = insert key p h.by_mac;
}

-- The peers that it stops afterwards, in their order.
unfoldable pub replaced_at : ℕ → ℕ → Hub → List ℕ
unfolding replaced_by_id replaced_by_mac
replaced_at key p h =
    replaced_by_id p (lookup (h.peers p).id h.by_id)
    ++ replaced_by_mac p (lookup (h.peers p).id h.by_id) (lookup key h.by_mac)

unfoldable pub stop_all : List ℕ → Hub → Hub
stop_all [] h = h
stop_all (p ∷ ps) h = stop_all ps (stop_peer p h)

unfoldable pub add_at : ℕ → ℕ → Hub → Hub
unfolding list_at replaced_at stop_all
add_at key p h = stop_all (replaced_at key p h) (list_at key p h)

unfoldable pub add : ℕ → Hub → Option Hub
unfolding add_at
add p h = Option.map (λ key. add_at key p h) (mac_key (h.peers p).mac)

unfoldable pub holds : Option ℕ → ℕ → Bool
holds none p = false
holds (some q) p = q == p

unfoldable pub remove_at : ℕ → ℕ → Hub → Hub
unfolding holds
remove_at key p h = record h {
  by_id =
      if holds (lookup (h.peers p).id h.by_id) p then remove (h.peers p).id h.by_id else h.by_id;
  by_mac = if holds (lookup key h.by_mac) p then remove key h.by_mac else h.by_mac;
}

-- `remove` of the source.
unfoldable pub remove_peer : ℕ → Hub → Option Hub
unfolding remove_at
remove_peer p h = Option.map (λ key. remove_at key p h) (mac_key (h.peers p).mac)

-- `!exists || !bytes.Equal(client.mac, p.mac)`, negated.
unfoldable pub still_authorized : Option AuthorizedClient → Bytes → Bool
still_authorized none mac = false
still_authorized (some client) mac = bytes_eq client.mac mac

unfoldable pub stale_peers : Map Bytes AuthorizedClient → (ℕ → Peer) → Map Bytes ℕ → List ℕ
unfolding still_authorized
stale_peers clients peers [] = []
stale_peers clients peers ((id, p) ∷ rest) =
    let others = stale_peers clients peers rest in
    if still_authorized (lookup id clients) (peers p).mac then others else p ∷ others

unfoldable pub retain_authorized : Map Bytes AuthorizedClient → Hub → Hub × ℕ
unfolding stale_peers stop_all
retain_authorized clients h =
    let stale = stale_peers clients h.peers h.by_id in (stop_all stale h, length stale)

unfoldable pub others : ℕ → Map Bytes ℕ → List ℕ
others sender [] = []
others sender ((id, target) ∷ rest) =
    let more = others sender rest in if target == sender then more else target ∷ more

unfoldable pub to_target : ℕ → Map Bytes ℕ → Option ℕ → List ℕ
unfolding others
to_target sender by_id none = others sender by_id
to_target sender by_id (some target) = if target == sender then [] else target ∷ []

-- The peers that a frame from `sender` goes to.
unfoldable pub recipients : ℕ → Bytes → Hub → Option (List ℕ)
unfolding to_target
recipients sender frame h =
    let destination = destination_mac frame in
    if is_group_mac destination
    then some (others sender h.by_id)
    else Option.map (λ key. to_target sender h.by_id (lookup key h.by_mac)) (mac_key destination)

unfoldable pub deliver : (ℕ → ℕ) → Bytes → List ℕ → Hub → Hub
deliver times frame [] h = h
deliver times frame (p ∷ ps) h =
    deliver times frame ps
      (record h { peers = update h.peers p (offer (times p) frame (h.peers p)) })

-- `times p` is what the clock shows when a drop at `p` is noted.
unfoldable pub forward : (ℕ → ℕ) → ℕ → Bytes → Hub → Option Hub
unfolding recipients deliver offer
forward times sender frame h =
    Option.map (λ targets. deliver times frame targets h) (recipients sender frame h)
