-- ===== src/Relay/Peer.antt =====
-- The peer of internal/relay/relay.go. A peer's address in memory is a number, and `peers` maps it
-- to the peer. `queue` is the buffered channel `send` of `capacity` places, `stopped` says that
-- `done` and the connection are closed. Times are in nanoseconds.
pub mod Queue
use wsn.Prelude.{
  ltb, leb, ◌==◌, if◌then◌else◌, ltb→lt, leb→le, ==_iff, Bool-cases, Option-cases, bytes_eq,
  bytes_eq_iff, bytes_eq_refl, among, Eq, nat_eq, bytes_key, length, take, drop, Elem,
  length-append, take-append-drop, length-take, length-drop, All, All-append, Map, lookup, insert,
  remove, Distinct, Entry, lookup-insert, lookup-remove, insert-Distinct, remove-Distinct,
  Entry-of_lookup, lookup-of_Entry, Result, ◌>>=◌, ◌>>◌, refuse_if, or_err, ok, err, ℕ, zero, suc,
  ◌+◌, ◌-◌, ◌*◌, ◌/◌, ◌%◌, ◌^◌, ◌≤◌, ◌<◌, ◌≡◌, refl, sym, ap, subst, ◌∙◌, ◌≢◌, ◌↔◌, ◌⊎◌, inl, inr,
  Bool, true, false, not, ◌&&◌, ◌||◌, Option, none, some, List, [], ◌∷◌, ◌++◌, map, arith,
}
use wsn.Protocol.{Bytes}

pub record Peer : Type 0 where
  pub id : Bytes
  pub mac : Bytes
  pub queue : List Bytes
  pub capacity : ℕ
  pub stopped : Bool
  pub idle : ℕ
  pub dropped : ℕ
  pub last_drop_report : ℕ

abbrev pub drop_report_interval : ℕ
drop_report_interval = 30 * 1_000_000_000

-- `stopOnce.Do`: a second call changes nothing.
abbrev pub stop : Peer → Peer
stop p = record p { stopped = true }

-- `now-last < interval`: where the clock went back, Go's difference is negative and ℕ's is zero, and
-- both are below the interval. The second part is the total that is reported, if any.
-- Frames are offered one at a time in this model, so that the compare-and-swap succeeds.
unfoldable pub note_drop : ℕ → Peer → Peer × Option ℕ
note_drop now p =
    let total : ℕ = (p.dropped + 1) % 2 ^ 64 in
    if ltb (now - p.last_drop_report) drop_report_interval
    then (record p { dropped = total }, none)
    else (record p { dropped = total; last_drop_report = now }, some total)

-- `select { case send <- frame: default: noteDrop }`.
unfoldable pub offer : ℕ → Bytes → Peer → Peer
unfolding note_drop
offer now frame p =
    if ltb (length p.queue) p.capacity
    then record p { queue = p.queue ++ frame ∷ [] }
    else (note_drop now p).0
