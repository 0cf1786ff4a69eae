-- ===== src/Handshake/Examples.antt =====
-- One client, one challenge, a toy keyed sum.
use wsn.Prelude.{
  nat_eq, bytes_key, ◌≡◌, refl, true, some, ok, err, [], ◌∷◌, ◌++◌, replicate, Map, arith,
}
use wsn.Protocol.{Bytes, auth_ok, auth_failed, parse_hello, proof, verify_proof, proof_message}
use wsn.Conn.{Conn, binary}
use wsn.Relay.Hub.{AuthorizedClient}
use wsn.Relay.Auth
use wsn.Relay.Auth.{proves}
use wsn.Relay.Auth.Sound.{IsAdmitted, authenticate-IsAdmitted}
use wsn.Client.Auth as ClientAuth
use wsn.Handshake.{fresh, handshake_agrees, wrong_proof}

abbrev name : Bytes
name = 97 ∷ 98 ∷ []

abbrev hello : Bytes
hello = 2 ∷ 0 ∷ 2 ∷ name

abbrev challenge : Bytes
challenge = replicate 32 9

abbrev client : AuthorizedClient
client = record { id = name; key = replicate 32 7; mac = 2 ∷ 0 ∷ 0 ∷ 0 ∷ 0 ∷ 1 ∷ [] }

abbrev clients : Map Bytes AuthorizedClient
clients = (name, client) ∷ []

abbrev toy_hmac : Bytes → Bytes → Bytes
toy_hmac k message = k ++ message

abbrev answer : Bytes
answer = toy_hmac client.key (proof_message challenge name client.mac)

handshake_agrees_example :
    (said given : Bytes) × (ClientAuth.authenticate toy_hmac client.key name client.mac
        (fresh (binary challenge ∷ binary (auth_ok ∷ []) ∷ []))
      ≡ (ok tt, record { incoming = []; writes = []; sent = said ∷ given ∷ []; read_limit = 0 }))
    × (Auth.authenticate toy_hmac clients
          (some challenge)
          2048
          (fresh (binary said ∷ binary given ∷ []))
        ≡ (
          ok client,
          record {
            incoming = [];
            writes = [];
            sent = challenge ∷ (auth_ok ∷ []) ∷ [];
            read_limit = 2048;
          },
        ))
handshake_agrees_example =
    handshake_agrees toy_hmac clients challenge name 2048 client refl refl refl refl (omega arith)
      (omega arith)

wrong_proof_example :
    Auth.authenticate toy_hmac clients (some challenge) 2048 (record {
      incoming = binary hello ∷ binary (1 ∷ []) ∷ [];
      writes = true ∷ true ∷ [];
      sent = [];
      read_limit = 0;
    })
    ≡ (
      err Auth.invalid_proof,
      record {
        incoming = [];
        writes = [];
        sent = challenge ∷ (auth_failed ∷ []) ∷ [];
        read_limit = 67;
      },
    )
unfolding parse_hello
wrong_proof_example =
    wrong_proof toy_hmac clients challenge name hello 2048 client (binary (1 ∷ [])) [] true refl
      refl (λ e. cc)

abbrev talk : Conn
talk = fresh (binary hello ∷ binary answer ∷ [])

abbrev after_talk : Conn
after_talk = (Auth.authenticate toy_hmac clients (some challenge) 2048 talk).1

admitted : Auth.authenticate toy_hmac clients (some challenge) 2048 talk ≡ (ok client, after_talk)
unfolding Auth.authenticate parse_hello verify_proof proof proves
admitted = refl

authenticate-IsAdmitted_example :
    IsAdmitted toy_hmac clients (some challenge) talk after_talk client
authenticate-IsAdmitted_example =
    authenticate-IsAdmitted toy_hmac clients (some challenge) 2048 talk after_talk client admitted
