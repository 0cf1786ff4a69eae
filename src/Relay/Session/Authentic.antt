-- ===== src/Relay/Session/Authentic.antt =====
-- What `readLoop` of internal/relay/relay.go lets into the segment.
use wsn.Prelude.{
  Bool-cases, bytes_eq_iff, nat_eq, bytes_key, length, ℕ, ◌≤◌, ◌≡◌, refl, ◌↔◌, inl, inr, Bool, true,
  false, some, List, [], ◌∷◌, arith,
}
use wsn.Protocol.{Bytes, source_mac}
use wsn.Conn.{Incoming, text, binary, failed}
use wsn.Relay.Hub.{Hub}
use wsn.Relay.Hub.Registry.{IsRegistry}
use wsn.Relay.Hub.Removal.{Fades, Fades-IsRegistry}
use wsn.Relay.Hub.Forwarding.{IsForwarded, forward-IsForwarded}
use wsn.Relay.Session.{is_valid_frame, read_step, read_loop}

is_valid_frame_iff :
    (max_frame_size : ℕ) (mac frame : Bytes)
    → (is_valid_frame max_frame_size mac frame ≡ true)
      ↔ ((14 ≤ length frame) × (length frame ≤ max_frame_size) × (source_mac frame ≡ mac))
unfolding is_valid_frame
is_valid_frame_iff max_frame_size mac frame = ground (arith, bytes_eq_iff (source_mac frame) mac)

-- What ends the loop: an error, a message that is not binary, or a frame that is not valid.
abbrev pub IsRefused : ℕ → Bytes → Incoming → Type 0
IsRefused max_frame_size mac (text payload) = Unit
IsRefused max_frame_size mac (binary frame) = is_valid_frame max_frame_size mac frame ≡ false
IsRefused max_frame_size mac failed = Unit

-- What one round of `readLoop` of the peer `p` may do.
abbrev pub IsAuthentic : ℕ → ℕ → (ℕ → ℕ) → Incoming → Hub → Hub × Bool → Type 0
IsAuthentic max_frame_size p times message h (h', true) =
    (frame : Bytes) × (message ≡ binary frame)
    × (14 ≤ length frame)
    × (length frame ≤ max_frame_size)
    × (source_mac frame ≡ (h.peers p).mac)
    × Fades h h'
    × ((q : ℕ) → IsForwarded times h p frame h' q)
IsAuthentic max_frame_size p times message h (h', false) =
    (h' ≡ h) × IsRefused max_frame_size (h.peers p).mac message

module _ (max_frame_size p : ℕ) where
  -- On a registry no round panics. A round that goes on read a binary message of an allowed size
  -- whose source address is the peer's own, and forwarded it by the switching rule; a round that
  -- ends the loop changed nothing, and read an error, a message that is not binary or a frame that
  -- is not valid.
  pub read_step-IsAuthentic :
      (times : ℕ → ℕ) (message : Incoming) (h : Hub)
      → IsRegistry h
      → (r : Hub × Bool) × (read_step max_frame_size p times message h ≡ some r)
        × IsAuthentic max_frame_size p times message h r
  unfolding read_step
  read_step-IsAuthentic times (text payload) h r = ((h, false), refl, (refl, tt))
  read_step-IsAuthentic times failed h r = ((h, false), refl, (refl, tt))
  read_step-IsAuthentic times (binary frame) h r =
      elim (Bool-cases (is_valid_frame max_frame_size (h.peers p).mac frame)) [
        | inl valid ↦
            let (long, short, own) = (is_valid_frame_iff max_frame_size _ frame).0 valid in
            let (h', e, f, all) = forward-IsForwarded times h p frame r long in
            ((h', true), ground arith, (frame, refl, long, short, own, f, all))
        | inr invalid ↦ ((h, false), ground arith, (refl, invalid))
      ]

  after_step-IsRegistry :
      (times : ℕ → ℕ) (message : Incoming) (h : Hub) (r : Hub × Bool)
      → IsRegistry h
      → IsAuthentic max_frame_size p times message h r
      → IsRegistry r.0
  after_step-IsRegistry times message h (h', true) r a = Fades-IsRegistry h h' a.5 r
  after_step-IsRegistry times message h (h', false) r a = rw a.0 r

  -- Whatever arrives, `readLoop` does not panic and leaves a registry.
  pub read_loop-IsRegistry :
      (messages : List ((ℕ → ℕ) × Incoming)) (h : Hub)
      → IsRegistry h
      → (h' : Hub) × (read_loop max_frame_size p messages h ≡ some h') × IsRegistry h'
  unfolding read_loop
  read_loop-IsRegistry [] h r = (h, refl, r)
  read_loop-IsRegistry ((times, message) ∷ rest) h r =
      let (s, e, a) = read_step-IsAuthentic times message h r in
      go s e (after_step-IsRegistry times message h s r a) (read_loop-IsRegistry rest s.0)
    where
      go :
          (s : Hub × Bool)
          → read_step max_frame_size p times message h ≡ some s
          → IsRegistry s.0
          → (IsRegistry s.0
              → (h' : Hub) × (read_loop max_frame_size p rest s.0 ≡ some h') × IsRegistry h')
          → (h' : Hub) × (read_loop max_frame_size p ((times, message) ∷ rest) h ≡ some h')
            × IsRegistry h'
      go (s, false) e k ih = (s, rw e, k)
      go (s, true) e k ih = let (h', e', k') = ih k in (h', rw (e, read_loop) e', k')
