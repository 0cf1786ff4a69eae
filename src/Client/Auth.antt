-- ===== src/Client/Auth.antt =====
-- `authenticate` of internal/client/client.go: the client's side of the handshake.
use wsn.Prelude.{
  ◌==◌, nat_eq, bytes_key, length, Result, refuse_if, or_err, ok, err, Bool, false, not, Option,
  none, some, [], ◌∷◌,
}
use wsn.Protocol.{Bytes, ProtocolError, challenge_size, auth_ok, marshal_hello, proof}
use wsn.Conn.{Session, ◌>>=◌, ◌>>◌, lift, receive, send_or, payload_of}

pub data ClientError : Type 0 where
  write_hello invalid_relay_challenge write_proof relay_rejected : ClientError
  protocol_error : ProtocolError → ClientError

abbrev of_protocol {ℓ} : {A : Type ℓ} → Result ProtocolError A → Result ClientError A
of_protocol (ok a) = ok a
of_protocol (err e) = err (protocol_error e)

abbrev is_challenge : Option Bytes → Bool
is_challenge none = false
is_challenge (some challenge) = length challenge == challenge_size

-- `len(result) != 1 || result[0] != AuthOK`, negated.
abbrev is_accepted : Option Bytes → Bool
is_accepted (some (b ∷ [])) = b == auth_ok
is_accepted _ = false

module _ (hmac : Bytes → Bytes → Bytes) where
  unfoldable pub authenticate : Bytes → Bytes → Bytes → Session ClientError (Unit {0})
  authenticate key id mac = do
    hello ← lift (of_protocol (marshal_hello id))
    send_or write_hello hello
    first ← receive
    lift (refuse_if (not (is_challenge (payload_of first))) invalid_relay_challenge)
    challenge ← lift (or_err (payload_of first) invalid_relay_challenge)
    given ← lift (of_protocol (proof hmac key challenge id mac))
    send_or write_proof given
    second ← receive
    lift (refuse_if (not (is_accepted (payload_of second))) relay_rejected)
