-- ===== src/Config.antt =====
-- internal/config/config.go: what a configuration of the relay has to satisfy. Reading the file and
-- decoding its JSON are input; the decoded value is the argument.
pub mod Valid
pub mod Client
pub mod Ids
pub mod Saved
mod Examples
use wsn.Prelude.{
  ltb, leb, ◌==◌, if◌then◌else◌, ltb→lt, leb→le, ==_iff, Bool-cases, Option-cases, bytes_eq,
  bytes_eq_iff, bytes_eq_refl, among, Eq, nat_eq, bytes_key, length, take, drop, Elem,
  length-append, take-append-drop, length-take, length-drop, All, All-append, Map, lookup, insert,
  remove, Distinct, Entry, lookup-insert, lookup-remove, insert-Distinct, remove-Distinct,
  Entry-of_lookup, lookup-of_Entry, Result, ◌>>=◌, ◌>>◌, refuse_if, or_err, Result-cases, ok, err,
  ℕ, zero, suc, ◌+◌, ◌-◌, ◌*◌, ◌/◌, ◌%◌, ◌^◌, ◌≤◌, ◌<◌, ◌≡◌, refl, sym, ap, subst, ◌∙◌, ◌≢◌, ◌↔◌,
  ◌⊎◌, inl, inr, Bool, true, false, not, ◌&&◌, ◌||◌, Option, none, some, List, [], ◌∷◌, ◌++◌, map,
  append_assoc, append-nil, arith,
}
use wsn.Protocol.{Bytes, codes}
use wsn.Text.{trim_space, is_alphanumeric, all_bytes}
use wsn.Formats.{Formats}

pub data ConfigError : Type 0 where
  id_length id_characters mac_size mac_unicast key_base64 key_size relay_paths same_paths :
      ConfigError
  frame_size queue_size pending_handshakes handshake_timeout idle_timeout : ConfigError
  duplicate_id duplicate_mac : ConfigError

-- Go's `int`, as JSON gives it: `negsuc n` is -(n + 1).
pub data ℤ : Type 0 where
  pos : ℕ → ℤ
  negsuc : ℕ → ℤ

abbrev pub below : ℤ → ℕ → Bool
below (pos n) k = ltb n k
below (negsuc n) k = true

abbrev pub above : ℤ → ℕ → Bool
above (pos n) k = ltb k n
above (negsuc n) k = false

-- `if value == 0 { value = k }`.
abbrev pub or_default : ℤ → ℕ → ℤ
or_default (pos zero) k = pos k
or_default (pos (suc n)) k = pos (suc n)
or_default (negsuc n) k = negsuc n

abbrev pub default_text : Bytes → Bytes → Bytes
default_text [] d = d
default_text (c ∷ s) d = c ∷ s

pub record RelayClient : Type 0 where
  pub id : Bytes
  pub key : Bytes
  pub mac : Bytes

pub record RelayConfig : Type 0 where
  pub listen : Bytes
  pub path : Bytes
  pub health_path : Bytes
  pub max_frame_size : ℤ
  pub client_queue_size : ℤ
  pub handshake_timeout_ms : ℤ
  pub idle_timeout_ms : ℤ
  pub max_pending_handshakes : ℤ
  pub clients : List RelayClient

abbrev pub default_max_frame_size : ℕ
default_max_frame_size = 2048

-- The characters of an identity, `safeInterfaceName` of the provisioning uses the same.
abbrev pub is_id_char : ℕ → Bool
is_id_char c = is_alphanumeric c || (c == b'-') || (c == b'_') || (c == b'.')

unfoldable pub validate_id : Bytes → Result ConfigError (Unit {0})
validate_id id = do
  refuse_if (ltb (length id) 1 || ltb 64 (length id)) id_length
  refuse_if (not (all_bytes is_id_char id)) id_characters

starts_with_slash : Bytes → Bool
starts_with_slash [] = false
starts_with_slash (c ∷ s) = c == b'/'

unfoldable pub first_byte : Bytes → ℕ
first_byte [] = 0
first_byte (b ∷ s) = b

abbrev pub is_seen : Bytes → List Bytes → Bool
is_seen s [] = false
is_seen s (t ∷ seen) = bytes_eq t s || is_seen s seen

module _ (f : Formats) where
  unfoldable pub decode_key : Bytes → Result ConfigError Bytes
  decode_key value = do
    key ← or_err (f.decode_base64 (trim_space value)) key_base64
    refuse_if (not (length key == 32)) key_size
    ok key

  unfoldable pub parse_mac : Bytes → Result ConfigError Bytes
  unfolding first_byte
  parse_mac value = do
    mac ← or_err (f.parse_mac value) mac_size
    refuse_if (not (length mac == 6)) mac_size
    refuse_if (not (first_byte mac % 2 == 0)) mac_unicast
    ok mac

  -- The loop of `LoadRelay` over the clients, with the identities and addresses seen so far; the
  -- result has the addresses as `mac.String()` prints them.
  unfoldable pub check_clients :
      List Bytes → List Bytes → List RelayClient → Result ConfigError (List RelayClient)
  check_clients ids macs [] = ok []
  check_clients ids macs (client ∷ rest) = do
    validate_id client.id
    refuse_if (is_seen client.id ids) duplicate_id
    key ← decode_key client.key
    mac ← parse_mac client.mac
    refuse_if (is_seen (f.print_mac mac) macs) duplicate_mac
    checked ← check_clients (client.id ∷ ids) (f.print_mac mac ∷ macs) rest
    ok (record client { mac = f.print_mac mac } ∷ checked)

  with_defaults : RelayConfig → RelayConfig
  with_defaults cfg = record {
    listen = default_text cfg.listen (codes "127.0.0.1:8080");
    path = default_text cfg.path (codes "/wsn");
    health_path = default_text cfg.health_path (codes "/healthz");
    max_frame_size = or_default cfg.max_frame_size default_max_frame_size;
    client_queue_size = or_default cfg.client_queue_size 256;
    handshake_timeout_ms = or_default cfg.handshake_timeout_ms 10000;
    idle_timeout_ms = or_default cfg.idle_timeout_ms 90000;
    max_pending_handshakes = or_default cfg.max_pending_handshakes 32;
    clients = cfg.clients;
  }

  check_relay : RelayConfig → Result ConfigError RelayConfig
  unfolding starts_with_slash
  check_relay cfg = do
    refuse_if (not (starts_with_slash cfg.path) || not (starts_with_slash cfg.health_path))
        relay_paths
    refuse_if (bytes_eq cfg.path cfg.health_path) same_paths
    refuse_if (below cfg.max_frame_size 64 || above cfg.max_frame_size 65535) frame_size
    refuse_if (below cfg.client_queue_size 1 || above cfg.client_queue_size 65536) queue_size
    refuse_if (below cfg.max_pending_handshakes 1 || above cfg.max_pending_handshakes 4096)
        pending_handshakes
    refuse_if (below cfg.handshake_timeout_ms 1000 || above cfg.handshake_timeout_ms 60000)
        handshake_timeout
    refuse_if (below cfg.idle_timeout_ms 10000 || above cfg.idle_timeout_ms 3600000) idle_timeout
    clients ← check_clients [] [] cfg.clients
    ok (record cfg { clients = clients })

  -- `LoadRelay` after `loadJSON`.
  unfoldable pub load_relay : RelayConfig → Result ConfigError RelayConfig
  unfolding check_relay with_defaults
  load_relay cfg = check_relay (with_defaults cfg)
