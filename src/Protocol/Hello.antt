-- ===== src/Protocol/Hello.antt =====
-- MarshalHello and ParseHello of internal/protocol/protocol.go.
use wsn.Prelude.{nat_eq, bytes_key, length, All, ok, ◌/◌, ◌%◌, ◌≤◌, ◌≡◌, ◌↔◌, [], ◌∷◌, arith}
use wsn.Protocol.{Bytes, IsByte, marshal_hello, parse_hello}

marshal-parse : (m id : Bytes) → All IsByte m → parse_hello m ≡ ok id → marshal_hello id ≡ ok m
unfolding parse_hello marshal_hello
marshal-parse [] id b h = cc
marshal-parse (v ∷ []) id b h = cc
marshal-parse (v ∷ hi ∷ []) id b h = cc
marshal-parse (v ∷ hi ∷ lo ∷ rest) id b h = ground arith

parse-marshal : (m id : Bytes) → marshal_hello id ≡ ok m → parse_hello m ≡ ok id
unfolding parse_hello marshal_hello
parse-marshal [] id h = ground arith
parse-marshal (v ∷ []) id h = ground arith
parse-marshal (v ∷ hi ∷ []) id h = ground arith
parse-marshal (v ∷ hi ∷ lo ∷ rest) id h = ground (arith)

-- ParseHello accepts a message of bytes with the identity `id` exactly when MarshalHello makes that
-- message from `id`.
pub parse_hello-iff-marshal_hello :
    (m id : Bytes) → All IsByte m → (parse_hello m ≡ ok id) ↔ (marshal_hello id ≡ ok m)
parse_hello-iff-marshal_hello m id b = (marshal-parse m id b, parse-marshal m id)

-- MarshalHello succeeds exactly on identities of 1 to 64 bytes, and ParseHello gives the identity
-- back.
pub parse_hello-marshal_hello :
    (id : Bytes)
    → 1 ≤ length id
    → length id ≤ 64
    → (m : Bytes) × (marshal_hello id ≡ ok m) × (parse_hello m ≡ ok id)
unfolding marshal_hello parse_hello
parse_hello-marshal_hello id h k =
    (2 ∷ (length id % 65536 / 256) ∷ (length id % 256) ∷ id, ground arith, ground arith)
