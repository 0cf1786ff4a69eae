-- ===== src/Client/Tunnel/Frames.antt =====
-- What the pumps of internal/client/client.go send on.
use wsn.Client.Mac.{equal_mac-bytes_eq}
use wsn.Prelude.{
  ltb, ◌==◌, Bool-cases, bytes_eq, nat_eq, bytes_key, length, drop, take-append-drop, length-drop,
  All, Result, ok, ℕ, suc, ◌≤◌, ◌≡◌, refl, ap, inl, inr, Bool, true, false, ◌||◌, Option, none,
  some, List, [], ◌∷◌, arith,
}
use wsn.Protocol.{minimum_frame_size, source_mac}
use wsn.Relay.Session.{is_valid_frame}
use wsn.Client.Tunnel.{WriteError, write_full, check_tap_frame, tap_to_web_socket, Bytes}

-- What the writer took is the value if `writeFull` returns no error.
write_full-ok :
    (outcomes : List (Option ℕ)) (value : Bytes)
    → (write_full outcomes value).0 ≡ ok tt
    → (write_full outcomes value).1 ≡ value
unfolding write_full
write_full-ok outcomes [] h = refl
write_full-ok [] (b ∷ value) h = cc
write_full-ok (none ∷ outcomes) (b ∷ value) h = cc
write_full-ok (some n ∷ outcomes) (b ∷ value) h = elim (Bool-cases (n == 0)) [
  | inl zeroes ↦ ground arith
  | inr takes ↦
      let rest = write_full-ok outcomes (drop n (b ∷ value)) (ground arith) in
      rw (takes, rest) (take-append-drop n (b ∷ value))
]

-- An outcome that takes at least one byte.
abbrev pub Takes : Option ℕ → Type 0
Takes outcome = (n : ℕ) × (outcome ≡ some (suc n))

abbrev whole : Bytes → Result WriteError (Unit {0}) × Bytes
whole value = (ok tt, value)

-- `writeFull` writes the whole value and returns no error if every call of the writer takes at least
-- one byte; as many calls as the value has bytes are enough.
pub write_full-Takes :
    (outcomes : List (Option ℕ)) (value : Bytes)
    → All Takes outcomes
    → length value ≤ length outcomes
    → write_full outcomes value ≡ (ok tt, value)
unfolding write_full
write_full-Takes outcomes [] h l = refl
write_full-Takes [] (b ∷ value) h l = absurd (omega arith)
write_full-Takes (none ∷ outcomes) (b ∷ value) h l = let (n, e) = h.0 in ground arith
write_full-Takes (some n ∷ outcomes) (b ∷ value) h l =
    let (m, e) = h.0 in
    let takes : (n == 0) ≡ false = ground arith in
    let shorter = length-drop n (b ∷ value) in
    let rest = write_full-Takes outcomes (drop n (b ∷ value)) h.1 (ground arith) in
    rw (takes, rest) (ap whole (take-append-drop n (b ∷ value)))

-- Every frame that the client sends passes the tests that the relay makes of a frame from a peer with
-- the client's address, where both have the same limit.
tap_to_web_socket-valid :
    (max_frame_size : ℕ) (mac : Bytes) (rounds : List (Option Bytes × Bool))
    → All
        (λ frame. is_valid_frame max_frame_size mac frame ≡ true)
        (tap_to_web_socket max_frame_size mac rounds).1
unfolding tap_to_web_socket is_valid_frame check_tap_frame
tap_to_web_socket-valid max_frame_size mac [] = tt
tap_to_web_socket-valid max_frame_size mac ((none, written) ∷ rounds) = tt
tap_to_web_socket-valid max_frame_size mac ((some frame, written) ∷ rounds) =
    let more = tap_to_web_socket-valid max_frame_size mac rounds in
    elim (Bool-cases (ltb (length frame) minimum_frame_size || ltb max_frame_size (length frame))) [
      | inl bad ↦ rw bad tt
      | inr fits ↦ elim (Bool-cases (bytes_eq (source_mac frame) mac)) [
        | inr other ↦ rw (fits, equal_mac-bytes_eq (source_mac frame) mac, other) tt
        | inl own ↦ elim (Bool-cases written) [
          | inr lost ↦ rw (fits, equal_mac-bytes_eq (source_mac frame) mac, own, lost) tt
          | inl sent ↦
              rw (fits, equal_mac-bytes_eq (source_mac frame) mac, own, sent) (ground arith, more)
        ]
      ]
    ]
