-- ===== src/Protocol.antt =====
-- internal/protocol/protocol.go: the hello message, the proof of possession of a key, and the
-- addresses of an Ethernet frame. Byte strings and Go strings are lists of bytes.
pub mod Hello
pub mod Proof
pub mod Mac
mod Examples
use Prim.Native.Char.{code}
use Prim.Native.String.{String}
use wsn.Prelude.{
  ltb, leb, ◌==◌, if◌then◌else◌, ltb→lt, leb→le, ==_iff, Bool-cases, Option-cases, bytes_eq,
  bytes_eq_iff, bytes_eq_refl, Eq, nat_eq, bytes_key, length, take, drop, Elem, length-append,
  take-append-drop, length-drop, All, All-append, Map, lookup, insert, remove, Distinct, Entry,
  lookup-insert, lookup-remove, insert-Distinct, remove-Distinct, Entry-of_lookup, lookup-of_Entry,
  Result, ◌>>=◌, ◌>>◌, refuse_if, or_err, ok, err, ℕ, zero, suc, ◌+◌, ◌-◌, ◌*◌, ◌/◌, ◌%◌, ◌^◌, ◌≤◌,
  ◌<◌, ◌≡◌, refl, sym, ap, ◌∙◌, ◌≢◌, ◌↔◌, ◌⊎◌, inl, inr, Bool, true, false, not, ◌&&◌, ◌||◌, Option,
  none, some, List, [], ◌∷◌, ◌++◌, map, arith,
}

abbrev pub Bytes : Type 0
Bytes = List ℕ

abbrev pub IsByte : ℕ → Type 0
IsByte b = b < 256

-- The bytes of an ASCII text of the source.
abbrev pub codes : String → Bytes
codes String.[] = []
codes (String.◌∷◌ c s) = code c ∷ codes s

abbrev pub version : ℕ
version = 2

abbrev pub challenge_size : ℕ
challenge_size = 32

abbrev pub minimum_frame_size : ℕ
minimum_frame_size = 14

abbrev pub auth_ok : ℕ
auth_ok = 0

abbrev pub auth_failed : ℕ
auth_failed = 1

abbrev pub max_client_id_size : ℕ
max_client_id_size = 64

abbrev pub max_hello_size : ℕ
max_hello_size = 3 + max_client_id_size

abbrev pub subprotocol : Bytes
subprotocol = codes "wsn-v2"

abbrev pub auth_context : Bytes
auth_context = codes "WSN-AUTH-v2" ++ 0 ∷ []

pub data ProtocolError : Type 0 where
  invalid_id_length unsupported_hello invalid_hello invalid_proof_inputs : ProtocolError

-- `binary.BigEndian.PutUint16` of `uint16(v)`.
put_uint16 : ℕ → Bytes
put_uint16 v = (v % 65536 / 256) ∷ v % 256 ∷ []

unfoldable pub marshal_hello : Bytes → Result ProtocolError Bytes
unfolding put_uint16
marshal_hello id = do
  refuse_if (length id == 0 || ltb max_client_id_size (length id)) invalid_id_length
  ok (version ∷ put_uint16 (length id) ++ id)

-- A pattern of three bytes is the test `len(message) < 3`.
unfoldable pub parse_hello : Bytes → Result ProtocolError Bytes
parse_hello (v ∷ hi ∷ lo ∷ id) = do
  refuse_if (not (v == version)) unsupported_hello
  let size = hi * 256 + lo
  refuse_if
      (ltb size 1 || ltb max_client_id_size size || not (length (v ∷ hi ∷ lo ∷ id) == size + 3))
      invalid_hello
  ok id
parse_hello _ = err unsupported_hello

-- What `Proof` writes to the hash, in this order.
abbrev pub proof_message : Bytes → Bytes → Bytes → Bytes
proof_message challenge id mac = auth_context ++ (id ++ 0 ∷ (challenge ++ mac))

-- HMAC-SHA256 of the standard library is a parameter: the key, the message, the sum.
module _ (hmac : Bytes → Bytes → Bytes) where
  unfoldable pub proof : Bytes → Bytes → Bytes → Bytes → Result ProtocolError Bytes
  proof key challenge id mac = do
    refuse_if
        (not (length key == 32)
          || not (length challenge == challenge_size)
          || not (length mac == 6))
        invalid_proof_inputs
    ok (hmac key (proof_message challenge id mac))

  abbrev matches : Result ProtocolError Bytes → Bytes → Bool
  matches (err e) given = false
  matches (ok expected) given = bytes_eq expected given

  unfoldable pub verify_proof : Bytes → Bytes → Bytes → Bytes → Bytes → Bool
  unfolding proof
  verify_proof key challenge id mac given = matches (proof key challenge id mac) given

-- A nil address is the empty list.
unfoldable pub source_mac : Bytes → Bytes
source_mac frame = if ltb (length frame) minimum_frame_size then [] else take 6 (drop 6 frame)

unfoldable pub destination_mac : Bytes → Bytes
destination_mac frame = if ltb (length frame) minimum_frame_size then [] else take 6 frame

-- Six bytes as one number; `none` is the panic of an index out of range. The six shifted bytes do
-- not meet, so `|` is the sum.
unfoldable pub mac_key : Bytes → Option ℕ
mac_key (a ∷ b ∷ c ∷ d ∷ e ∷ f ∷ _) =
    some (a * 2 ^ 40 + b * 2 ^ 32 + c * 2 ^ 24 + d * 2 ^ 16 + e * 2 ^ 8 + f)
mac_key _ = none

-- The group bit of an address of six bytes.
unfoldable pub is_group_mac : Bytes → Bool
is_group_mac [] = false
is_group_mac (b ∷ rest) = (length (b ∷ rest) == 6) && not (b % 2 == 0)
