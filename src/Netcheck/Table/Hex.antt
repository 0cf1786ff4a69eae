-- ===== src/Netcheck/Table/Hex.antt =====
-- The numbers of /proc/net/route, as internal/netcheck/netcheck_linux.go parses them.
use wsn.Netcheck.{net_mask_bits}
use wsn.Protocol.{Bytes}
use wsn.Prelude.{
  all_below_lem, Bool, Option, all_below, false, none, refl, true, ◌==◌, ◌≤◌, [], arith,
  if◌then◌else◌, ltb, some, ℕ, ◌%◌, ◌*◌, ◌+◌, ◌-◌, ◌/◌, ◌<◌, ◌^◌, ◌∙◌, ◌∷◌, ◌≡◌,
}
use wsn.Netcheck.Table.{mask_of, hex_digit, hex_from, parse_hex, swapped_bytes}

-- The kernel's digits: upper case.
abbrev pub hex_char : ℕ → ℕ
hex_char d = if ltb d 10 then b'0' + d else b'A' + (d - 10)

hex_digit-hex_char : (d : ℕ) → d < 16 → hex_digit (hex_char d) ≡ some d
hex_digit-hex_char d h = ground arith

-- `%08X`.
abbrev pub print_hex : ℕ → Bytes
print_hex v =
    hex_char (v / 16 ^ 7 % 16)
    ∷ hex_char (v / 16 ^ 6 % 16)
    ∷ hex_char (v / 16 ^ 5 % 16)
    ∷ hex_char (v / 16 ^ 4 % 16)
    ∷ hex_char (v / 16 ^ 3 % 16)
    ∷ hex_char (v / 16 ^ 2 % 16)
    ∷ hex_char (v / 16 % 16)
    ∷ hex_char (v % 16)
    ∷ []

hex_from-step :
    (d value w : ℕ) (s : Bytes)
    → d < 16
    → value * 16 + d ≡ w
    → w < 2 ^ 32
    → hex_from (hex_char d ∷ s) value ≡ hex_from s w
unfolding hex_from
hex_from-step d value w s h e k = let read = hex_digit-hex_char d h in ground arith

pub parse_hex-print_hex : (v : ℕ) → v < 2 ^ 32 → parse_hex (print_hex v) ≡ some v
unfolding parse_hex
parse_hex-print_hex v h =
    let t1 : Bytes = hex_char (v % 16) ∷ [] in
    let t2 : Bytes = hex_char (v / 16 % 16) ∷ t1 in
    let t3 : Bytes = hex_char (v / 16 ^ 2 % 16) ∷ t2 in
    let t4 : Bytes = hex_char (v / 16 ^ 3 % 16) ∷ t3 in
    let t5 : Bytes = hex_char (v / 16 ^ 4 % 16) ∷ t4 in
    let t6 : Bytes = hex_char (v / 16 ^ 5 % 16) ∷ t5 in
    let t7 : Bytes = hex_char (v / 16 ^ 6 % 16) ∷ t6 in
    hex_from-step (v / 16 ^ 7 % 16) 0 (v / 16 ^ 7) t7 (omega arith) (omega arith) (omega arith)
    ∙ hex_from-step (v / 16 ^ 6 % 16) (v / 16 ^ 7) (v / 16 ^ 6) t6 (omega arith) (omega arith)
        (omega arith)
    ∙ hex_from-step (v / 16 ^ 5 % 16) (v / 16 ^ 6) (v / 16 ^ 5) t5 (omega arith) (omega arith)
        (omega arith)
    ∙ hex_from-step (v / 16 ^ 4 % 16) (v / 16 ^ 5) (v / 16 ^ 4) t4 (omega arith) (omega arith)
        (omega arith)
    ∙ hex_from-step (v / 16 ^ 3 % 16) (v / 16 ^ 4) (v / 16 ^ 3) t3 (omega arith) (omega arith)
        (omega arith)
    ∙ hex_from-step (v / 16 ^ 2 % 16) (v / 16 ^ 3) (v / 16 ^ 2) t2 (omega arith) (omega arith)
        (omega arith)
    ∙ hex_from-step (v / 16 % 16) (v / 16 ^ 2) (v / 16) t1 (omega arith) (omega arith) (omega arith)
    ∙ hex_from-step (v % 16) (v / 16) v [] (omega arith) (omega arith) h

pub swapped_bytes-lt : (v : ℕ) → swapped_bytes v < 2 ^ 32
swapped_bytes-lt v = omega arith

pub swapped_bytes-swapped_bytes : (v : ℕ) → v < 2 ^ 32 → swapped_bytes (swapped_bytes v) ≡ v
swapped_bytes-swapped_bytes v h = omega arith

-- The mask of so many bits, as a number.
abbrev pub mask_number : ℕ → ℕ
mask_number n = 2 ^ 32 - 2 ^ (32 - n)

abbrev is_number : Option ℕ → ℕ → Bool
is_number none n = false
is_number (some m) n = m == n

mask_table : all_below 33 (λ (n : ℕ). is_number (mask_of (swapped_bytes (mask_number n))) n) ≡ true
unfolding net_mask_bits
mask_table = refl

number-is_number : (o : Option ℕ) (n : ℕ) → is_number o n ≡ true → o ≡ some n
number-is_number none n h = cc
number-is_number (some m) n h = ground arith

pub mask_of-mask_number : (n : ℕ) → n ≤ 32 → mask_of (swapped_bytes (mask_number n)) ≡ some n
mask_of-mask_number n h = number-is_number _ n (
    all_below_lem 33 (λ (m : ℕ). is_number (mask_of (swapped_bytes (mask_number m))) m) n mask_table
      (omega arith))
