-- ===== src/Relay/Hub/Examples.antt =====
-- A hub with two peers, `a` at 0 and `b` at 1.
use wsn.Prelude.{nat_eq, bytes_key, ℕ, ◌≡◌, refl, false, Option, none, some, [], ◌∷◌, Map, arith}
use wsn.Protocol.{Bytes, mac_key, destination_mac, is_group_mac}
use wsn.Relay.Peer.{Peer, offer}
use wsn.Relay.Hub.{Hub, AuthorizedClient, add, new_hub, forward, remove_peer}
use wsn.Relay.Hub.Registry.{IsRegistry, new_hub-IsRegistry, add-IsRegistry}
use wsn.Relay.Hub.Removal.{Fades}
use wsn.Relay.Hub.Forwarding.{IsForwarded, forward-IsForwarded}

abbrev pub mac_of : ℕ → Bytes
mac_of n = 2 ∷ 0 ∷ 0 ∷ 0 ∷ 0 ∷ n ∷ []

abbrev pub peer : ℕ → Peer
peer n = record {
  id = n ∷ [];
  mac = mac_of n;
  queue = [];
  capacity = 4;
  stopped = false;
  idle = 90000;
  dropped = 0;
  last_drop_report = 0;
}

abbrev pub empty : Hub
empty = new_hub peer

abbrev pub hub_of : Option Hub → Hub
hub_of none = empty
hub_of (some h) = h

abbrev pub one : Hub
one = hub_of (add 0 empty)

abbrev pub two : Hub
two = hub_of (add 1 one)

pub empty-IsRegistry : IsRegistry empty
empty-IsRegistry = new_hub-IsRegistry peer

one_added : add 0 empty ≡ some one
unfolding add mac_key new_hub
one_added = refl

two_added : add 1 one ≡ some two
unfolding add mac_key new_hub
two_added = refl

one-IsRegistry : IsRegistry one
one-IsRegistry = add-IsRegistry 0 empty one empty-IsRegistry one_added

pub two-IsRegistry : IsRegistry two
two-IsRegistry = add-IsRegistry 1 one two one-IsRegistry two_added

abbrev rest : Hub
rest = hub_of (remove_peer 0 two)

removed : remove_peer 0 two ≡ some rest
unfolding add mac_key new_hub remove_peer
removed = refl

-- From `b` to `a`.
abbrev pub frame : Bytes
frame = 2 ∷ 0 ∷ 0 ∷ 0 ∷ 0 ∷ 0 ∷ 2 ∷ 0 ∷ 0 ∷ 0 ∷ 0 ∷ 1 ∷ 8 ∷ 0 ∷ []

abbrev pub times : ℕ → ℕ
times _ = 7

forward-IsForwarded_example :
    (h' : Hub) × (forward times 1 frame two ≡ some h')
    × Fades two h'
    × ((q : ℕ) → IsForwarded times two 1 frame h' q)
forward-IsForwarded_example = forward-IsForwarded times two 1 frame two-IsRegistry (omega arith)

abbrev forwarded : Hub
forwarded = hub_of (forward times 1 frame two)

test_forwarded : (forwarded.peers 0).queue ≡ frame ∷ []
unfolding forward add mac_key new_hub destination_mac is_group_mac offer
test_forwarded = refl

abbrev only_a : Map Bytes AuthorizedClient
only_a = (0 ∷ [], record { id = 0 ∷ []; key = []; mac = mac_of 0 }) ∷ []
