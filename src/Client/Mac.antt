-- ===== src/Client/Mac.antt =====
-- `equalMAC` of internal/client/client.go, which compares by the bits of the bytes.
use wsn.Prelude.{
  ==_iff, Bool-cases, ap, bytes_eq_iff, inl, inr, bytes_eq, refl, Bool, [], arith, false,
  if◌then◌else◌, length, suc, zero, ℕ, ◌%◌, ◌/◌, ◌==◌, ◌↔◌, ◌∷◌, ◌≡◌, ◌≤◌,
}
use Prim.Native.Nat.{bit_or, bit_xor, digits, differ, max, bit_or-bitwise, bit_xor-bitwise}
use wsn.Protocol.{Bytes}

-- The loop, from what differs so far. The slices have one length there.
differences : ℕ → Bytes → Bytes → ℕ
differences different [] b = different
differences different (x ∷ a) [] = different
differences different (x ∷ a) (y ∷ b) = differences (bit_or different (bit_xor x y)) a b

unfoldable pub equal_mac : Bytes → Bytes → Bool
unfolding differences
equal_mac a b = if length a == length b then differences 0 a b == 0 else false

abbrev xor_digits : ℕ → ℕ → ℕ → ℕ
xor_digits n a b = digits (λ b. b) differ n a b

abbrev or_digits : ℕ → ℕ → ℕ → ℕ
or_digits n a b = digits (λ b. b) max n a b

differ_iff : (a b : ℕ) → (differ a b ≡ 0) ↔ (a ≡ b)
differ_iff zero b = (λ e. omega arith, λ e. omega arith)
differ_iff (suc a) zero = (λ e. omega arith, λ e. omega arith)
differ_iff (suc a) (suc b) =
    let (into, back) = differ_iff a b in
    (λ e. let same = into e in omega arith, λ e. back (omega arith))

xor_digits_iff : (n a b : ℕ) → a ≤ n → (xor_digits n a b ≡ 0) ↔ (a ≡ b)
xor_digits_iff zero a b h = (λ e. omega arith, λ e. omega arith)
xor_digits_iff (suc n) zero b h = (λ e. omega arith, λ e. omega arith)
xor_digits_iff (suc n) (suc a) b h =
    let (into, back) = xor_digits_iff n (suc a / 2) (b / 2) (omega arith) in
    let (into_last, back_last) = differ_iff (suc a % 2) (b % 2) in
    (
      λ e. let high = into (omega arith) in let low = into_last (omega arith) in omega arith,
      λ e. let high = back (omega arith) in let low = back_last (omega arith) in omega arith,
    )

or_digits_iff : (n a b : ℕ) → a ≤ n → (or_digits n a b ≡ 0) ↔ ((a ≡ 0) × (b ≡ 0))
or_digits_iff zero a b h = (λ e. omega arith, λ e. omega arith)
or_digits_iff (suc n) zero b h = (λ e. omega arith, λ e. omega arith)
or_digits_iff (suc n) (suc a) b h =
    let (into, back) = or_digits_iff n (suc a / 2) (b / 2) (omega arith) in
    (λ e. let high = into (omega arith) in omega arith, λ e. absurd (omega arith))

bit_xor_iff : (a b : ℕ) → (bit_xor a b ≡ 0) ↔ (a ≡ b)
bit_xor_iff a b = rw (bit_xor-bitwise a b) (xor_digits_iff a a b (omega arith))

bit_or_iff : (a b : ℕ) → (bit_or a b ≡ 0) ↔ ((a ≡ 0) × (b ≡ 0))
bit_or_iff a b = rw (bit_or-bitwise a b) (or_digits_iff a a b (omega arith))

differences_iff :
    (different : ℕ) (a b : Bytes)
    → length a ≡ length b
    → (differences different a b ≡ 0) ↔ ((different ≡ 0) × (a ≡ b))
unfolding differences
differences_iff different [] [] h = (λ e. (e, refl), λ e. e.0)
differences_iff different [] (y ∷ b) h = absurd (omega arith)
differences_iff different (x ∷ a) [] h = absurd (omega arith)
differences_iff different (x ∷ a) (y ∷ b) h =
    let (into, back) = differences_iff (bit_or different (bit_xor x y)) a b (omega arith) in
    (
      λ e.
          let (none_so_far, rest) = into e in
          let (before, now) = (bit_or_iff different (bit_xor x y)).0 none_so_far in
          let same = (bit_xor_iff x y).0 now in (before, ground arith),
      λ (before, same). back (
        (bit_or_iff different (bit_xor x y)).1 (before, (bit_xor_iff x y).1 (ground arith)),
        ground arith,
      ),
    )

-- The comparison by bits finds exactly the slices that are equal, of whatever lengths.
pub equal_mac-bytes_eq : (a b : Bytes) → equal_mac a b ≡ bytes_eq a b
unfolding equal_mac
equal_mac-bytes_eq a b = elim (Bool-cases (length a == length b)) [
  | inl long ↦
      let (into, back) = differences_iff 0 a b ((==_iff _ _).0 long) in
      elim (Bool-cases (bytes_eq a b)) [
        | inl same ↦ let none_found = back (refl, (bytes_eq_iff a b).0 same) in ground arith
        | inr apart ↦ elim (Bool-cases (differences 0 a b == 0)) [
          | inl none_found ↦
              let same = (bytes_eq_iff a b).1 (into ((==_iff _ _).0 none_found)).1 in ground arith
          | inr found ↦ ground arith
        ]
      ]
  | inr long ↦ elim (Bool-cases (bytes_eq a b)) [
    | inl same ↦ let sizes = ap length ((bytes_eq_iff a b).0 same) in ground arith
    | inr apart ↦ ground arith
  ]
]
