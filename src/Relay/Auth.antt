-- ===== src/Relay/Auth.antt =====
-- `authenticate` of internal/relay/relay.go: the relay's side of the handshake.
pub mod Sound
use wsn.Prelude.{
  ltb, leb, ◌==◌, if◌then◌else◌, ltb→lt, leb→le, ==_iff, Bool-cases, Option-cases, bytes_eq,
  bytes_eq_iff, bytes_eq_refl, among, Eq, nat_eq, bytes_key, length, take, drop, Elem,
  length-append, take-append-drop, length-take, length-drop, All, All-append, Map, lookup, insert,
  remove, Distinct, Entry, lookup-insert, lookup-remove, insert-Distinct, remove-Distinct,
  Entry-of_lookup, lookup-of_Entry, Result, refuse_if, or_err, ok, err, ℕ, zero, suc, ◌+◌, ◌-◌, ◌*◌,
  ◌/◌, ◌%◌, ◌^◌, ◌≤◌, ◌<◌, ◌≡◌, refl, sym, ap, subst, ◌∙◌, ◌≢◌, ◌↔◌, ◌⊎◌, inl, inr, Bool, true,
  false, not, ◌&&◌, ◌||◌, Option, none, some, List, [], ◌∷◌, ◌++◌, map, arith,
}
use wsn.Protocol.{
  Bytes, ProtocolError, max_hello_size, auth_ok, auth_failed, parse_hello, verify_proof,
}
use wsn.Conn.{
  Incoming, Conn, Session, ◌>>=◌, ◌>>◌, lift, receive, send_or, send_ignored, set_read_limit,
  payload_of,
}
use wsn.Relay.Hub.{AuthorizedClient}

pub data AuthError : Type 0 where
  invalid_hello unknown_client generate_challenge write_challenge invalid_proof : AuthError
  write_authentication_result : AuthError
  protocol_error : ProtocolError → AuthError

abbrev of_protocol {ℓ} : {A : Type ℓ} → Result ProtocolError A → Result AuthError A
of_protocol (ok a) = ok a
of_protocol (err e) = err (protocol_error e)

module _ (hmac : Bytes → Bytes → Bytes) where
  -- The last message read is a proof that VerifyProof accepts.
  unfoldable pub proves : AuthorizedClient → Bytes → Bytes → Incoming → Bool
  proves client challenge id message = elim (payload_of message) [
    | none ↦ false
    | some given ↦ verify_proof hmac client.key challenge id client.mac given
  ]

  refuse_proof : Bool → Session AuthError (Unit {0})
  refuse_proof true = lift (ok tt)
  refuse_proof false = do send_ignored (auth_failed ∷ []); lift (err invalid_proof)

  -- `random` is what `rand.Read` made of the challenge.
  unfoldable pub authenticate :
      Map Bytes AuthorizedClient → Option Bytes → ℕ → Session AuthError AuthorizedClient
  unfolding refuse_proof
  authenticate clients random max_frame_size = do
    set_read_limit max_hello_size
    first ← receive
    hello ← lift (or_err (payload_of first) invalid_hello)
    id ← lift (of_protocol (parse_hello hello))
    client ← lift (or_err (lookup id clients) unknown_client)
    challenge ← lift (or_err random generate_challenge)
    send_or write_challenge challenge
    second ← receive
    refuse_proof (proves client challenge id second)
    send_or write_authentication_result (auth_ok ∷ [])
    set_read_limit max_frame_size
    lift (ok client)
