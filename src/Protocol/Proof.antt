-- ===== src/Protocol/Proof.antt =====
-- Proof and VerifyProof of internal/protocol/protocol.go.
use wsn.Prelude.{
  bytes_eq_iff, nat_eq, bytes_key, length, drop, length-append, ℕ, ◌≡◌, refl, ap, ◌↔◌, true, [],
  ◌∷◌, ◌++◌, arith,
}
use wsn.Protocol.{Bytes, proof_message, verify_proof}

append-injective :
    (xs ys : Bytes) {us vs : Bytes}
    → length xs ≡ length ys
    → xs ++ us ≡ ys ++ vs
    → (xs ≡ ys) × (us ≡ vs)
append-injective [] [] n e = (refl, e)
append-injective [] (y ∷ ys) n e = absurd (omega arith)
append-injective (x ∷ xs) [] n e = absurd (omega arith)
append-injective (x ∷ xs) (y ∷ ys) {us} {vs} n e =
    let rest = append-injective xs ys {us = us} {vs = vs} (omega arith) (ground arith) in
    (ground (arith, rest), rest.1)

-- The authenticated message determines the challenge, the identity and the address: no proof made
-- for one of them is a proof for another.
proof_message-injective :
    (c c' id id' mac mac' : Bytes)
    → length c ≡ length c'
    → length mac ≡ length mac'
    → proof_message c id mac ≡ proof_message c' id' mac'
    → (c ≡ c') × (id ≡ id') × (mac ≡ mac')
proof_message-injective c c' id id' mac mac' hc hm e =
    let tails : id ++ 0 ∷ (c ++ mac) ≡ id' ++ 0 ∷ (c' ++ mac') = ap (drop 12) e in
    let same_length : length id ≡ length id' = omega (
      arith,
      ap {B = ℕ} length tails,
      length-append id (0 ∷ (c ++ mac)),
      length-append id' (0 ∷ (c' ++ mac')),
      length-append c mac,
      length-append c' mac',
    ) in
    let (ids, rest) = append-injective id id' same_length tails in
    let (cs, macs) = append-injective c c' hc (ap (drop 1) rest) in (cs, ids, macs)

module _ (hmac : Bytes → Bytes → Bytes) where
  -- VerifyProof accepts exactly the sum of the authenticated message under the key, and only for a
  -- key and a challenge of 32 bytes and an address of six.
  pub verify_proof_iff :
      (key challenge id mac given : Bytes)
      → (verify_proof hmac key challenge id mac given ≡ true) ↔ (
          (length key ≡ 32)
          × (length challenge ≡ 32)
          × (length mac ≡ 6)
          × (given ≡ hmac key (proof_message challenge id mac)))
  unfolding verify_proof
  verify_proof_iff key challenge id mac given =
      ground (arith, bytes_eq_iff (hmac key (proof_message challenge id mac)) given)
