-- ===== src/Protocol/Mac.antt =====
-- MACKey and the addresses of a frame, of internal/protocol/protocol.go.
use wsn.Prelude.{
  nat_eq, bytes_key, length, take, drop, length-append, All, ℕ, zero, suc, ◌^◌, ◌≤◌, ◌<◌, ◌≡◌, refl,
  sym, ap, ◌∙◌, ◌↔◌, none, some, [], ◌∷◌, ◌++◌, arith,
}
use wsn.Protocol.{Bytes, mac_key, destination_mac, source_mac, IsByte}

-- MACKey panics exactly on an address of fewer than six bytes.
pub mac_key-none_iff : (mac : Bytes) → (mac_key mac ≡ none) ↔ (length mac < 6)
unfolding mac_key
mac_key-none_iff [] = ground arith
mac_key-none_iff (a ∷ []) = ground arith
mac_key-none_iff (a ∷ b ∷ []) = ground arith
mac_key-none_iff (a ∷ b ∷ c ∷ []) = ground arith
mac_key-none_iff (a ∷ b ∷ c ∷ d ∷ []) = ground arith
mac_key-none_iff (a ∷ b ∷ c ∷ d ∷ e ∷ []) = ground arith
mac_key-none_iff (a ∷ b ∷ c ∷ d ∷ e ∷ f ∷ r) = ground arith

mac_key-injective_at :
    (a b c d e f a' b' c' d' e' f' : ℕ)
    → All IsByte (a ∷ b ∷ c ∷ d ∷ e ∷ f ∷ [])
    → All IsByte (a' ∷ b' ∷ c' ∷ d' ∷ e' ∷ f' ∷ [])
    → mac_key (a ∷ b ∷ c ∷ d ∷ e ∷ f ∷ []) ≡ mac_key (a' ∷ b' ∷ c' ∷ d' ∷ e' ∷ f' ∷ [])
    → (a ≡ a') × (b ≡ b') × (c ≡ c') × (d ≡ d') × (e ≡ e') × (f ≡ f')
unfolding mac_key
mac_key-injective_at a b c d e f a' b' c' d' e' f' h k eq = ground arith

six_bytes : (m : Bytes) → length m ≡ 6 → (a b c d e f : ℕ) × (m ≡ a ∷ b ∷ c ∷ d ∷ e ∷ f ∷ [])
six_bytes [] h = absurd (omega arith)
six_bytes (a ∷ []) h = absurd (omega arith)
six_bytes (a ∷ b ∷ []) h = absurd (omega arith)
six_bytes (a ∷ b ∷ c ∷ []) h = absurd (omega arith)
six_bytes (a ∷ b ∷ c ∷ d ∷ []) h = absurd (omega arith)
six_bytes (a ∷ b ∷ c ∷ d ∷ e ∷ []) h = absurd (omega arith)
six_bytes (a ∷ b ∷ c ∷ d ∷ e ∷ f ∷ []) h = (a, b, c, d, e, f, refl)
six_bytes (a ∷ b ∷ c ∷ d ∷ e ∷ f ∷ g ∷ r) h = absurd (omega arith)

-- Two six-byte addresses with one key are one address.
mac_key-injective :
    (m n : Bytes)
    → All IsByte m
    → All IsByte n
    → length m ≡ 6
    → length n ≡ 6
    → mac_key m ≡ mac_key n
    → m ≡ n
mac_key-injective m n hm hn km kn e =
    let (a, b, c, d, u, v, p) = six_bytes m km in
    let (a', b', c', d', u', v', q) = six_bytes n kn in
    let same =
      mac_key-injective_at a b c d u v a' b' c' d' u' v' (rw p at hm) (rw q at hn)
        (sym (ap mac_key p) ∙ e ∙ ap mac_key q) in
    cc

-- The key of a six-byte address fits in 48 bits.
mac_key-lt : (m : Bytes) (k : ℕ) → All IsByte m → length m ≡ 6 → mac_key m ≡ some k → k < 2 ^ 48
unfolding mac_key
mac_key-lt m k hm km e =
    let (a, b, c, d, u, v, p) = six_bytes m km in
    let bytes = rw p at hm in let key = sym (ap mac_key p) ∙ e in ground arith

take_append : (n : ℕ) (xs ys : Bytes) → length xs ≡ n → take n (xs ++ ys) ≡ xs
take_append zero [] ys h = refl
take_append zero (x ∷ xs) ys h = absurd (omega arith)
take_append (suc n) [] ys h = absurd (omega arith)
take_append (suc n) (x ∷ xs) ys h = ap (◌∷◌ x) (take_append n xs ys (omega arith))

drop_append : (n : ℕ) (xs ys : Bytes) → length xs ≡ n → drop n (xs ++ ys) ≡ ys
drop_append zero [] ys h = refl
drop_append zero (x ∷ xs) ys h = absurd (omega arith)
drop_append (suc n) [] ys h = absurd (omega arith)
drop_append (suc n) (x ∷ xs) ys h = drop_append n xs ys (omega arith)

-- Of a frame of at least 14 bytes, DestinationMAC reads the first six and SourceMAC the next six.
pub frame_macs :
    (dst src rest : Bytes)
    → length dst ≡ 6
    → length src ≡ 6
    → 2 ≤ length rest
    → (destination_mac (dst ++ (src ++ rest)) ≡ dst) × (source_mac (dst ++ (src ++ rest)) ≡ src)
unfolding destination_mac source_mac
frame_macs dst src rest hd hs hr =
    let total : 14 ≤ length (dst ++ (src ++ rest)) =
      omega (arith, length-append dst (src ++ rest), length-append src rest) in
    let first = take_append 6 dst (src ++ rest) hd in
    let second = drop_append 6 dst (src ++ rest) hd in
    let third = take_append 6 src rest hs in (ground arith, ground arith)
