-- ===== src/Provision/Names.antt =====
-- The names that internal/provision/provision.go accepts: `safeInterfaceName`, `safeDomainName` and
-- `linuxArchiveMode`.
pub mod Quotes
use wsn.Prelude.{
  ltb, ◌==◌, nat_eq, bytes_key, length, ℕ, Bool, true, not, ◌&&◌, ◌||◌, List, [], ◌∷◌,
}
use wsn.Protocol.{Bytes}
use wsn.Text.{is_alphanumeric, all_bytes, split}
use wsn.Config.{is_id_char}

unfoldable pub safe_interface_name : Bytes → Bool
safe_interface_name value =
    not (ltb (length value) 1 || ltb 64 (length value)) && all_bytes is_id_char value

abbrev first_of : Bytes → ℕ
first_of [] = 0
first_of (c ∷ s) = c

abbrev last_of : Bytes → ℕ
last_of [] = 0
last_of (c ∷ []) = c
last_of (c ∷ d ∷ s) = last_of (d ∷ s)

safe_label : Bytes → Bool
safe_label label =
    not (
      ltb (length label) 1
      || ltb 63 (length label)
      || (first_of label == b'-')
      || (last_of label == b'-'))
    && all_bytes (λ c. is_alphanumeric c || (c == b'-')) label

abbrev all_labels : List Bytes → Bool
all_labels [] = true
all_labels (label ∷ labels) = safe_label label && all_labels labels

unfoldable pub safe_domain_name : Bytes → Bool
unfolding safe_label split
safe_domain_name value =
    not (ltb (length value) 1 || ltb 253 (length value)) && all_labels (split b'.' value)
