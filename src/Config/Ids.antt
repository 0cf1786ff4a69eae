-- ===== src/Config/Ids.antt =====
-- ValidateID of internal/config/config.go.
use wsn.Prelude.{nat_eq, bytes_key, length, All, ok, ◌≤◌, ◌≡◌, ◌↔◌, true, arith}
use wsn.Protocol.{Bytes}
use wsn.Text.{all_bytes_iff}
use wsn.Config.{is_id_char, validate_id}

-- ValidateID accepts exactly the texts of 1 to 64 letters, digits, dashes, underscores and dots.
pub validate_id_iff :
    (id : Bytes)
    → (validate_id id ≡ ok tt)
      ↔ ((1 ≤ length id) × (length id ≤ 64) × All (λ c. is_id_char c ≡ true) id)
unfolding validate_id
validate_id_iff id = (into, back)
  where
    into :
        validate_id id ≡ ok tt
        → (1 ≤ length id) × (length id ≤ 64) × All (λ c. is_id_char c ≡ true) id
    into h = (ground arith, ground arith, (all_bytes_iff is_id_char id).0 (ground arith))

    back :
        (1 ≤ length id) × (length id ≤ 64) × All (λ c. is_id_char c ≡ true) id
        → validate_id id ≡ ok tt
    back h = let chars = (all_bytes_iff is_id_char id).1 h.2 in ground arith
