-- ===== src/Conn.antt =====
-- A WebSocket connection as internal/relay/relay.go and internal/client/client.go use it. The
-- library is not part of the repository: what its reads and writes return is given as two lists,
-- in the order of the calls, and any list is possible. An exhausted list stands for a connection
-- that is closed. Deadlines show only as failed calls.
use wsn.Prelude.{
  if◌then◌else◌, nat_eq, bytes_key, Result, ok, err, ℕ, Bool, false, Option, none, some, List, [],
  ◌∷◌, ◌++◌,
}
use wsn.Protocol.{Bytes}

pub data Incoming : Type 0 where
  text binary : Bytes → Incoming
  failed : Incoming

pub record Conn : Type 0 where
  pub incoming : List Incoming
  pub writes : List Bool
  pub sent : List Bytes
  pub read_limit : ℕ

-- A handler that uses the connection and may return an error early.
abbrev pub Session {ℓ} : Type 0 → Type ℓ → Type ℓ
Session E A = Conn → Result E A × Conn

abbrev continue {ℓ κ} :
    {E : Type 0} {A : Type ℓ} {B : Type κ}
    → Result E A
    → (A → Session E B)
    → Conn
    → Result E B × Conn
continue (ok a) f c = f a c
continue (err e) f c = (err e, c)

infixl 5 ◌>>=◌ ◌>>◌
abbrev pub ◌>>=◌ {ℓ κ} :
    {E : Type 0} {A : Type ℓ} {B : Type κ} → Session E A → (A → Session E B) → Session E B
◌>>=◌ m f c = continue (m c).0 f (m c).1

abbrev pub ◌>>◌ {ℓ} : {E : Type 0} {B : Type ℓ} → Session E (Unit {0}) → Session E B → Session E B
m >> k = m >>= λ _. k

abbrev pub lift {ℓ} : {E : Type 0} {A : Type ℓ} → Result E A → Session E A
lift r c = (r, c)

abbrev pub next_incoming : List Incoming → Incoming
next_incoming [] = failed
next_incoming (m ∷ ms) = m

abbrev next_write : List Bool → Bool
next_write [] = false
next_write (b ∷ bs) = b

abbrev pub tail {ℓ} : {A : Type ℓ} → List A → List A
tail [] = []
tail (x ∷ xs) = xs

-- `ReadMessage`.
abbrev pub receive : {E : Type 0} → Session E Incoming
receive c = (ok (next_incoming c.incoming), record c { incoming = tail c.incoming })

abbrev after_write : Bytes → Conn → Conn
after_write payload c = record c {
  writes = tail c.writes;
  sent = if next_write c.writes then c.sent ++ payload ∷ [] else c.sent;
}

-- `WriteMessage` of a binary message, where a failure ends the handler.
abbrev pub send_or : {E : Type 0} → E → Bytes → Session E (Unit {0})
send_or e payload c = (if next_write c.writes then ok tt else err e, after_write payload c)

-- `_ = WriteMessage`.
abbrev pub send_ignored : {E : Type 0} → Bytes → Session E (Unit {0})
send_ignored payload c = (ok tt, after_write payload c)

abbrev pub set_read_limit : {E : Type 0} → ℕ → Session E (Unit {0})
set_read_limit n c = (ok tt, record c { read_limit = n })

-- `err != nil || messageType != websocket.BinaryMessage`.
abbrev pub payload_of : Incoming → Option Bytes
payload_of (binary payload) = some payload
payload_of (text payload) = none
payload_of failed = none
