-- ===== src/Formats.antt =====
-- The text formats of Go's standard library that internal/config/config.go and
-- internal/provision/provision.go read and write: `netip.ParseAddr` and `netip.ParsePrefix` where
-- they give IPv4, `net.ParseMAC`, `base64.RawStdEncoding`, and the printers that belong to them.
pub mod Raw
use wsn.Prelude.{nat_eq, bytes_key, length, All, ℕ, ◌^◌, ◌<◌, ◌≡◌, Option, some}
use wsn.Protocol.{Bytes, IsByte}
use wsn.Text.{trim_space}
use wsn.Netip.{Prefix, IsPrefix}

pub record Formats : Type 0 where
  pub parse_addr : Bytes → Option ℕ
  pub print_addr : ℕ → Bytes
  pub parse_prefix : Bytes → Option Prefix
  pub print_prefix : Prefix → Bytes
  pub parse_mac : Bytes → Option Bytes
  pub print_mac : Bytes → Bytes
  pub decode_base64 : Bytes → Option Bytes
  pub encode_base64 : Bytes → Bytes

-- What the documentation says of them: what is printed parses to the value that was printed, and the
-- text of a key has no space at its ends.
pub record ReadsBack (f : Formats) : Type 0 where
  pub addr_reads : (a : ℕ) → a < 2 ^ 32 → f.parse_addr (f.print_addr a) ≡ some a
  pub addr_parsed : (s : Bytes) (a : ℕ) → f.parse_addr s ≡ some a → a < 2 ^ 32
  pub prefix_reads : (p : Prefix) → IsPrefix p → f.parse_prefix (f.print_prefix p) ≡ some p
  pub prefix_parsed : (s : Bytes) (p : Prefix) → f.parse_prefix s ≡ some p → IsPrefix p
  pub mac_reads :
      (mac : Bytes) → length mac ≡ 6 → All IsByte mac → f.parse_mac (f.print_mac mac) ≡ some mac
  pub mac_bytes : (s mac : Bytes) → f.parse_mac s ≡ some mac → All IsByte mac
  pub key_reads : (k : Bytes) → f.decode_base64 (f.encode_base64 k) ≡ some k
  pub key_trimmed : (k : Bytes) → trim_space (f.encode_base64 k) ≡ f.encode_base64 k
