-- ===== src/Handshake.antt =====
-- The two sides of the handshake against each other: `authenticate` of internal/relay/relay.go and
-- `authenticate` of internal/client/client.go.
pub mod Deployed
mod Examples
use wsn.Prelude.{
  ltb, leb, ◌==◌, if◌then◌else◌, ltb→lt, leb→le, ==_iff, Bool-cases, Option-cases, bytes_eq,
  bytes_eq_iff, bytes_eq_refl, among, Eq, nat_eq, bytes_key, length, take, drop, Elem,
  length-append, take-append-drop, length-take, length-drop, All, All-append, Map, lookup, insert,
  remove, Distinct, Entry, lookup-insert, lookup-remove, insert-Distinct, remove-Distinct,
  Entry-of_lookup, lookup-of_Entry, Result, refuse_if, or_err, Result-cases, ok, err, ℕ, zero, suc,
  ◌+◌, ◌-◌, ◌*◌, ◌/◌, ◌%◌, ◌^◌, ◌≤◌, ◌<◌, ◌≡◌, refl, sym, ap, subst, ◌∙◌, ◌≢◌, ◌↔◌, ◌⊎◌, inl, inr,
  Bool, true, false, not, ◌&&◌, ◌||◌, Option, none, some, List, [], ◌∷◌, ◌++◌, map, append_assoc,
  append-nil, arith,
}
use wsn.Protocol.{
  Bytes, ProtocolError, auth_ok, auth_failed, marshal_hello, parse_hello, proof_message, proof,
  verify_proof,
}
use wsn.Protocol.Hello.{parse_hello-marshal_hello}
use wsn.Conn.{Incoming, binary, Conn}
use wsn.Relay.Hub.{AuthorizedClient}
use wsn.Relay.Auth
use wsn.Relay.Auth.Sound.{proves_iff}
use wsn.Client.Auth as ClientAuth

-- A fresh connection on which the given messages arrive and two writes succeed.
abbrev pub fresh : List Incoming → Conn
fresh incoming = record {
  incoming = incoming;
  writes = true ∷ true ∷ [];
  sent = [];
  read_limit = 0;
}

module _ (hmac : Bytes → Bytes → Bytes) where
  -- A listed client with a key of 32 bytes, an identity of 1 to 64 bytes and a virtual MAC of six is
  -- let in, for every challenge of 32 bytes: each side accepts, what the relay wrote is what the
  -- client read, and what the client wrote is what the relay read.
  pub handshake_agrees :
      (clients : Map Bytes AuthorizedClient) (challenge id : Bytes) (max_frame_size : ℕ)
      (client : AuthorizedClient)
      → lookup id clients ≡ some client
      → length client.key ≡ 32
      → length client.mac ≡ 6
      → length challenge ≡ 32
      → 1 ≤ length id
      → length id ≤ 64
      → (hello answer : Bytes) × (ClientAuth.authenticate hmac client.key id client.mac
            (fresh (binary challenge ∷ binary (auth_ok ∷ []) ∷ []))
          ≡ (
            ok tt,
            record { incoming = []; writes = []; sent = hello ∷ answer ∷ []; read_limit = 0 },
          ))
        × (Auth.authenticate hmac clients
              (some challenge)
              max_frame_size
              (fresh (binary hello ∷ binary answer ∷ []))
            ≡ (
              ok client,
              record {
                incoming = [];
                writes = [];
                sent = challenge ∷ (auth_ok ∷ []) ∷ [];
                read_limit = max_frame_size;
              },
            ))
  unfolding ClientAuth.authenticate Auth.authenticate proof
  handshake_agrees clients challenge id max_frame_size client l k m c lo hi =
      let (hello, made, read) = parse_hello-marshal_hello id lo hi in
      let answer : Bytes = hmac client.key (proof_message challenge id client.mac) in
      let accepted = (proves_iff hmac client challenge id (binary answer)).1 (k, c, m, refl) in
      (hello, answer, ground arith, ground arith)

  -- A second message that is no valid proof is answered with the refusal, and the relay's handler
  -- ends with an error, whether or not the refusal could be written.
  pub wrong_proof :
      (clients : Map Bytes AuthorizedClient) (challenge id hello : Bytes) (max_frame_size : ℕ)
      (client : AuthorizedClient) (answer : Incoming) (rest : List Incoming) (last : Bool)
      → parse_hello hello ≡ ok id
      → lookup id clients ≡ some client
      → answer ≢ binary (hmac client.key (proof_message challenge id client.mac))
      → Auth.authenticate hmac clients (some challenge) max_frame_size (record {
        incoming = binary hello ∷ answer ∷ rest;
        writes = true ∷ last ∷ [];
        sent = [];
        read_limit = 0;
      })
        ≡ (
          err Auth.invalid_proof,
          record {
            incoming = rest;
            writes = [];
            sent = if last then challenge ∷ (auth_failed ∷ []) ∷ [] else challenge ∷ [];
            read_limit = 67;
          },
        )
  unfolding Auth.authenticate
  wrong_proof clients challenge id hello max_frame_size client answer rest last p l w =
      ground (arith, proves_iff hmac client challenge id answer)
