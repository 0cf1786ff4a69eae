-- ===== src/Relay/Auth/Sound.antt =====
-- Whom `authenticate` of internal/relay/relay.go admits.
use wsn.Prelude.{
  none, err, Option-cases, nat_eq, bytes_key, length, Map, lookup, Result-cases, ok, ℕ, ◌≡◌, refl,
  ap, ◌↔◌, inl, inr, true, Option, some, List, [], ◌∷◌, ◌++◌, append_assoc, arith,
}
use wsn.Protocol.{Bytes, auth_ok, parse_hello, proof_message}
use wsn.Protocol.Proof.{verify_proof_iff}
use wsn.Conn.{next_incoming, tail, Incoming, text, binary, failed, Conn}
use wsn.Relay.Hub.{AuthorizedClient}
use wsn.Relay.Auth.{proves, authenticate, unknown_client}

module _ (hmac : Bytes → Bytes → Bytes) where
  -- What a connection went through that was admitted as `client`.
  pub record IsAdmitted (clients : Map Bytes AuthorizedClient) (random : Option Bytes) (c c' : Conn)
      (client : AuthorizedClient) : Type 0 where
    pub hello : Bytes
    pub id : Bytes
    pub challenge : Bytes
    pub rest : List Incoming
    pub said : parse_hello hello ≡ ok id
    pub listed : lookup id clients ≡ some client
    pub drawn : random ≡ some challenge
    pub answered :
        c.incoming
        ≡ binary hello ∷ binary (hmac client.key (proof_message challenge id client.mac)) ∷ rest
    pub left : c'.incoming ≡ rest
    pub sent : c'.sent ≡ c.sent ++ challenge ∷ (auth_ok ∷ []) ∷ []

  pub proves_iff :
      (client : AuthorizedClient) (challenge id : Bytes) (m : Incoming)
      → (proves hmac client challenge id m ≡ true) ↔ (
          (length client.key ≡ 32)
          × (length challenge ≡ 32)
          × (length client.mac ≡ 6)
          × (m ≡ binary (hmac client.key (proof_message challenge id client.mac))))
  unfolding proves
  proves_iff client challenge id (binary given) =
      ground (arith, verify_proof_iff hmac client.key challenge id client.mac given)
  proves_iff client challenge id (text given) = ground arith
  proves_iff client challenge id failed = ground arith

  next-binary :
      (ms : List Incoming) (b : Bytes) → next_incoming ms ≡ binary b → ms ≡ binary b ∷ tail ms
  next-binary [] b h = cc
  next-binary (m ∷ ms) b h = ap (λ x. x ∷ ms) h

  module _ (clients : Map Bytes AuthorizedClient) (random : Option Bytes) (max_frame_size : ℕ) where
    -- The path on which every test passes.
    admitted :
        (hello : Bytes) (ms : List Incoming) (c c' : Conn) (client : AuthorizedClient)
        (id challenge : Bytes)
        → c.incoming ≡ binary hello ∷ ms
        → parse_hello hello ≡ ok id
        → lookup id clients ≡ some client
        → random ≡ some challenge
        → (client' : AuthorizedClient)
        → authenticate hmac clients random max_frame_size c ≡ (ok client', c')
        → IsAdmitted clients random c c' client'
    unfolding authenticate
    admitted hello ms c c' client id challenge i p l r client' e =
        let accepted : proves hmac client challenge id (next_incoming ms) ≡ true = ground arith in
        let same : client ≡ client' = ground arith in
        let answer =
          next-binary ms _ ((proves_iff client challenge id (next_incoming ms)).0 accepted).3 in
        record {
          hello = hello;
          id = id;
          challenge = challenge;
          rest = tail ms;
          said = p;
          listed = ground arith;
          drawn = r;
          answered = ground arith;
          left = ground arith;
          sent = ground (arith, append_assoc c.sent (challenge ∷ []) ((auth_ok ∷ []) ∷ []));
        }

  -- A connection is admitted as `client` only if its first message is a hello of an identity that is
  -- listed with that client, and its second is the keyed sum, under that client's key, of this
  -- handshake's challenge with that identity and that client's virtual MAC; what the relay wrote is
  -- the challenge and the acceptance.
  pub authenticate-IsAdmitted :
      (clients : Map Bytes AuthorizedClient) (random : Option Bytes) (max_frame_size : ℕ)
      (c c' : Conn) (client : AuthorizedClient)
      → authenticate hmac clients random max_frame_size c ≡ (ok client, c')
      → IsAdmitted clients random c c' client
  unfolding authenticate
  authenticate-IsAdmitted clients random max_frame_size c c' client e = by_incoming c.incoming refl
    where
      by_hello :
          (hello : Bytes) (ms : List Incoming)
          → c.incoming ≡ binary hello ∷ ms
          → IsAdmitted clients random c c' client
      by_hello hello ms i = elim (Result-cases (parse_hello hello)) [
        | inl (bad, p) ↦ ground arith
        | inr (id, p) ↦ elim (Option-cases (lookup id clients)) [
          | inl l ↦ ground arith
          | inr (listed, l) ↦ elim (Option-cases random) [
            | inl r ↦ ground arith
            | inr (challenge, r) ↦
                admitted clients random max_frame_size hello ms c c' listed id challenge i p l r
                  client e
          ]
        ]
      ]

      by_incoming : (ms : List Incoming) → c.incoming ≡ ms → IsAdmitted clients random c c' client
      by_incoming [] i = ground arith
      by_incoming (text payload ∷ ms) i = ground arith
      by_incoming (failed ∷ ms) i = ground arith
      by_incoming (binary hello ∷ ms) i = by_hello hello ms i

  -- A hello of an identity that the table does not list is refused, and nothing is written.
  pub authenticate-unknown :
      (clients : Map Bytes AuthorizedClient) (random : Option Bytes) (max_frame_size : ℕ) (c : Conn)
      (hello id : Bytes) (rest : List Incoming)
      → c.incoming ≡ binary hello ∷ rest
      → parse_hello hello ≡ ok id
      → lookup id clients ≡ none
      → ((authenticate hmac clients random max_frame_size c).0 ≡ err unknown_client)
        × ((authenticate hmac clients random max_frame_size c).1.sent ≡ c.sent)
  unfolding authenticate
  authenticate-unknown clients random max_frame_size c hello id rest i said missing =
      (ground arith, ground arith)
