-- ===== src/Protocol/Examples.antt =====
-- The identity `ab` on the wire, and a toy keyed sum.
use wsn.Prelude.{◌≢◌, nat_eq, bytes_key, ◌≡◌, refl, ok, [], ◌∷◌, ◌++◌, ◌↔◌, replicate, arith}
use wsn.Protocol.{Bytes, marshal_hello, parse_hello}
use wsn.Protocol.Hello.{parse_hello-iff-marshal_hello}

abbrev name : Bytes
name = 97 ∷ 98 ∷ []

abbrev hello : Bytes
hello = 2 ∷ 0 ∷ 2 ∷ name

abbrev virtual_mac : Bytes
virtual_mac = 2 ∷ 0 ∷ 0 ∷ 0 ∷ 0 ∷ 1 ∷ []

abbrev challenge : Bytes
challenge = replicate 32 9

abbrev secret : Bytes
secret = replicate 32 7

abbrev toy_hmac : Bytes → Bytes → Bytes
toy_hmac k message = k ++ message

test_marshal_hello : marshal_hello name ≡ ok hello
unfolding marshal_hello
test_marshal_hello = refl

test_parse_hello_trailing : parse_hello (hello ++ 0 ∷ []) ≢ ok name
unfolding parse_hello
test_parse_hello_trailing e = cc

parse_hello-iff-marshal_hello_example :
    (parse_hello hello ≡ ok name) ↔ (marshal_hello name ≡ ok hello)
parse_hello-iff-marshal_hello_example = parse_hello-iff-marshal_hello hello name (ground arith)
