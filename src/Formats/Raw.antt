-- ===== src/Formats/Raw.antt =====
-- Formats under which an address is its bytes, a prefix these and its number of bits, and a hardware
-- address or a key itself: a concrete value for the parameter of the modules that print and parse.
use wsn.Prelude.{
  ◌<◌, ltb, ◌==◌, if◌then◌else◌, nat_eq, bytes_key, length, All, ℕ, ◌+◌, ◌*◌, ◌/◌, ◌%◌, ◌^◌, ◌≡◌,
  refl, sym, ap, ◌∙◌, inl, inr, map, Bool-cases, ◌-◌, Bool, true, ◌&&◌, Option, none, some, [], ◌∷◌,
  arith,
}
use wsn.Protocol.{Bytes, IsByte}
use wsn.Text.{is_space, drop_while, drop_while_end, trim_space}
use wsn.Netip.{Prefix, IsPrefix}
use mathlib.Core.Path.{ap₂}
use wsn.Formats.{Formats, ReadsBack}

abbrev pub addr_of : Bytes → Option ℕ
addr_of (a ∷ b ∷ c ∷ d ∷ []) =
    if ltb a 256 && ltb b 256 && ltb c 256 && ltb d 256
    then some (a * 2 ^ 24 + b * 2 ^ 16 + c * 2 ^ 8 + d)
    else none
addr_of _ = none

abbrev pub addr_bytes : ℕ → Bytes
addr_bytes n = n / 2 ^ 24 % 256 ∷ n / 2 ^ 16 % 256 ∷ n / 2 ^ 8 % 256 ∷ n % 256 ∷ []

abbrev pub prefix_of : Bytes → Option Prefix
prefix_of (a ∷ b ∷ c ∷ d ∷ bits ∷ []) =
    if ltb a 256 && ltb b 256 && ltb c 256 && ltb d 256 && ltb bits 33
    then some (record { addr = a * 2 ^ 24 + b * 2 ^ 16 + c * 2 ^ 8 + d; bits = bits })
    else none
prefix_of _ = none

abbrev pub prefix_bytes : Prefix → Bytes
prefix_bytes p =
    p.addr / 2 ^ 24 % 256
    ∷ p.addr / 2 ^ 16 % 256
    ∷ p.addr / 2 ^ 8 % 256
    ∷ p.addr % 256
    ∷ p.bits
    ∷ []

abbrev pub are_bytes : Bytes → Bool
are_bytes [] = true
are_bytes (b ∷ s) = ltb b 256 && are_bytes s

abbrev pub mac_of : Bytes → Option Bytes
mac_of s = if (length s == 6) && are_bytes s then some s else none

-- A key as printable characters: every byte moved past the space.
abbrev pub key_text : Bytes → Bytes
key_text k = map (λ (b : ℕ). b + 33) k

abbrev pub key_of : Bytes → Option Bytes
key_of s = some (map (λ (c : ℕ). c - 33) s)

abbrev pub raw : Formats
raw = record {
  parse_addr = addr_of;
  print_addr = addr_bytes;
  parse_prefix = prefix_of;
  print_prefix = prefix_bytes;
  parse_mac = mac_of;
  print_mac = λ mac. mac;
  decode_base64 = key_of;
  encode_base64 = key_text;
}

are_bytes_lem : (s : Bytes) → All IsByte s → are_bytes s ≡ true
are_bytes_lem [] h = refl
are_bytes_lem (b ∷ s) h = ground (arith, are_bytes_lem s h.1)

bytes_of : (s : Bytes) → are_bytes s ≡ true → All IsByte s
bytes_of [] h = tt
bytes_of (b ∷ s) h = (ground arith, bytes_of s (ground arith))

mac_bytes_lem : (s mac : Bytes) → mac_of s ≡ some mac → All IsByte mac
mac_bytes_lem s mac e = elim (Bool-cases ((length s == 6) && are_bytes s)) [
  | inl fits ↦ let same : s ≡ mac = ground arith in rw (sym same) (bytes_of s (ground arith))
  | inr bad ↦ ground arith
]

key_reads_lem : (k : Bytes) → map (λ (c : ℕ). c - 33) (key_text k) ≡ k
key_reads_lem [] = refl
key_reads_lem (b ∷ k) = ap₂ ◌∷◌ (omega arith) (key_reads_lem k)

-- No character of a key's text is a space.
front_kept : (k : Bytes) → drop_while is_space (key_text k) ≡ key_text k
front_kept [] = refl
front_kept (b ∷ k) = ground arith

end_kept : (k : Bytes) → drop_while_end is_space (key_text k) ≡ key_text k
end_kept [] = refl
end_kept (b ∷ []) = ground arith
end_kept (b ∷ c ∷ k) = let rest = end_kept (c ∷ k) in ground arith

prefix_lem : (p : Prefix) → IsPrefix p → prefix_of (prefix_bytes p) ≡ some p
prefix_lem p h = ground arith

prefix_parsed_lem : (s : Bytes) (p : Prefix) → prefix_of s ≡ some p → IsPrefix p
prefix_parsed_lem (a ∷ b ∷ c ∷ d ∷ bits ∷ []) p e = record {
  addr_fits = ground arith;
  bits_fit = ground arith;
}
prefix_parsed_lem _ p e = cc

addr_lem : (a : ℕ) → a < 2 ^ 32 → addr_of (addr_bytes a) ≡ some a
addr_lem a h = ground arith

addr_parsed_lem : (s : Bytes) (a : ℕ) → addr_of s ≡ some a → a < 2 ^ 32
addr_parsed_lem (x ∷ y ∷ z ∷ u ∷ []) a e = ground arith
addr_parsed_lem _ a e = cc

pub raw-ReadsBack : ReadsBack raw
unfolding trim_space
raw-ReadsBack = record {
  addr_reads = addr_lem;
  addr_parsed = addr_parsed_lem;
  prefix_reads = prefix_lem;
  prefix_parsed = prefix_parsed_lem;
  mac_reads = λ mac six bytes. ground (arith, are_bytes_lem mac bytes);
  mac_bytes = λ s mac e. mac_bytes_lem s mac e;
  key_reads = λ k. ap some (key_reads_lem k);
  key_trimmed = λ k. ap (drop_while_end is_space) (front_kept k) ∙ end_kept k;
}
