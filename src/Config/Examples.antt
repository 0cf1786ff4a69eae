-- ===== src/Config/Examples.antt =====
-- A relay with two clients, and the configuration of one of them, in the formats of Formats.Raw.
use wsn.Prelude.{nat_eq, bytes_key, ◌≡◌, refl, true, ok, err, [], ◌∷◌, replicate, Bool, Result}
use wsn.Protocol.{Bytes, codes}
use wsn.Text.{trim_space}
use wsn.Netip.{contains, masked, prefixes_overlap}
use wsn.Formats.Raw.{raw}
use wsn.Config.{
  ConfigError, RelayClient, RelayConfig, pos, validate_id, load_relay, check_clients, decode_key,
  parse_mac,
}
use wsn.Config.Valid.{IsValidRelay, load_relay-IsValidRelay}
use wsn.Config.Client.{ClientConfig, load_client}

abbrev one : RelayClient
one = record { id = codes "one"; key = replicate 32 40; mac = 2 ∷ 0 ∷ 0 ∷ 0 ∷ 0 ∷ 1 ∷ [] }

abbrev two : RelayClient
two = record { id = codes "two"; key = replicate 32 41; mac = 2 ∷ 0 ∷ 0 ∷ 0 ∷ 0 ∷ 2 ∷ [] }

abbrev written : RelayConfig
written = record {
  listen = [];
  path = [];
  health_path = [];
  max_frame_size = pos 0;
  client_queue_size = pos 0;
  handshake_timeout_ms = pos 0;
  idle_timeout_ms = pos 0;
  max_pending_handshakes = pos 0;
  clients = one ∷ two ∷ [];
}

abbrev result_or {ℓ} : {E : Type 0} {A : Type ℓ} → A → Result E A → A
result_or a (ok b) = b
result_or a (err e) = a

abbrev loaded : RelayConfig
loaded = result_or written (load_relay raw written)

was_loaded : load_relay raw written ≡ ok loaded
unfolding load_relay check_clients validate_id decode_key parse_mac trim_space
was_loaded = refl

test_default : loaded.client_queue_size ≡ pos 256
unfolding load_relay check_clients validate_id decode_key parse_mac trim_space
test_default = refl

test_duplicate :
    load_relay raw (record written { clients = one ∷ one ∷ [] }) ≡ err ConfigError.duplicate_id
unfolding load_relay check_clients validate_id decode_key parse_mac trim_space
test_duplicate = refl

load_relay-IsValidRelay_example : IsValidRelay raw loaded
load_relay-IsValidRelay_example = load_relay-IsValidRelay raw written loaded was_loaded

abbrev is_abs : Bytes → Bool
is_abs _ = true

abbrev client : ClientConfig
client = record {
  server = codes "wss://relay/wsn";
  ca_file = codes "/ca";
  id = codes "one";
  key_file = codes "/key";
  device = codes "wsn0";
  mac = 2 ∷ 0 ∷ 0 ∷ 0 ∷ 0 ∷ 1 ∷ [];
  address = 10 ∷ 0 ∷ 0 ∷ 2 ∷ 24 ∷ [];
  gateway = 10 ∷ 0 ∷ 0 ∷ 1 ∷ [];
  routes = (172 ∷ 16 ∷ 0 ∷ 0 ∷ 12 ∷ []) ∷ [];
  max_frame_size = pos 0;
}

abbrev loaded_client : ClientConfig
loaded_client = result_or client (load_client raw is_abs client)

test_load_client : load_client raw is_abs client ≡ ok loaded_client
unfolding load_client validate_id parse_mac contains masked prefixes_overlap
test_load_client = refl
