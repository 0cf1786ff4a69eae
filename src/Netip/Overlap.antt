-- ===== src/Netip/Overlap.antt =====
-- The overlap test of two prefixes is right.
use native.Mathlib.Nat.{div-div-eq-div-mul, mul-div_cancel, add-zero, add-suc, pow-suc}
use wsn.Prelude.{
  leb, leb→le, Bool-cases, nat_eq, bytes_key, ℕ, zero, suc, ◌+◌, ◌-◌, ◌*◌, ◌/◌, ◌^◌, ◌≤◌, ◌<◌, ◌≡◌,
  refl, sym, ap, ◌∙◌, ◌↔◌, inl, inr, true, false, ◌||◌, arith,
}
use wsn.Netip.{Prefix, contains, masked, prefixes_overlap}

pub two_pow_pos : (n : ℕ) → 0 < 2 ^ n
two_pow_pos zero = omega arith
two_pow_pos (suc n) = rw (pow-suc 2 n) (omega (arith, two_pow_pos n))

pow_split : (m n : ℕ) → 2 ^ (m + n) ≡ 2 ^ m * 2 ^ n
pow_split m zero = simp add-zero (omega arith)
pow_split m (suc n) = rw add-suc (rw (pow-suc 2 (m + n), pow-suc 2 n, pow_split m n) (omega arith))

coarser : (x y m n : ℕ) → x / 2 ^ m ≡ y / 2 ^ m → x / 2 ^ (m + n) ≡ y / 2 ^ (m + n)
coarser x y m n h = rw pow_split (
    sym (div-div-eq-div-mul x (2 ^ m) (2 ^ n))
    ∙ ap (λ (t : ℕ). t / 2 ^ n) h
    ∙ div-div-eq-div-mul y (2 ^ m) (2 ^ n))

pub contains_iff :
    (p : Prefix) (a : ℕ)
    → (contains p a ≡ true) ↔ (p.addr / 2 ^ (32 - p.bits) ≡ a / 2 ^ (32 - p.bits))
unfolding contains
contains_iff p a = ground arith

-- A prefix contains what agrees on at least its bits with something that it contains.
agree_on_fewer :
    (a b : Prefix) (x : ℕ)
    → a.bits ≤ b.bits
    → contains a x ≡ true
    → contains b x ≡ true
    → contains a b.addr ≡ true
agree_on_fewer a b x h ca cb =
    let wide : 32 - a.bits ≡ 32 - b.bits + (32 - a.bits - (32 - b.bits)) = omega arith in
    let same =
      coarser b.addr x (32 - b.bits) (32 - a.bits - (32 - b.bits)) ((contains_iff b x).0 cb) in
    (contains_iff a b.addr).1 ((contains_iff a x).0 ca ∙ sym (rw (← wide) at same))

-- Two prefixes overlap, as the repository tests it, exactly when some address is in both.
prefixes_overlap_iff :
    (a b : Prefix)
    → (prefixes_overlap a b ≡ true) ↔ ((x : ℕ) × (contains a x ≡ true) × (contains b x ≡ true))
unfolding prefixes_overlap
prefixes_overlap_iff a b = (common, overlap)
  where
    own : (p : Prefix) → contains p p.addr ≡ true
    own p = (contains_iff p p.addr).1 refl

    common :
        (contains a b.addr || contains b a.addr) ≡ true
        → (x : ℕ) × (contains a x ≡ true) × (contains b x ≡ true)
    common h = elim (Bool-cases (contains a b.addr)) [
      | inl in_a ↦ (b.addr, in_a, own b)
      | inr out ↦ (a.addr, own a, ground arith)
    ]

    overlap :
        (x : ℕ) × (contains a x ≡ true) × (contains b x ≡ true)
        → (contains a b.addr || contains b a.addr) ≡ true
    overlap (x, in_a, in_b) = elim (Bool-cases (leb a.bits b.bits)) [
      | inl fewer ↦ rw (agree_on_fewer a b x (leb→le a.bits b.bits fewer) in_a in_b)
      | inr more ↦ let in_b' = agree_on_fewer b a x (ground arith) in_b in_a in ground arith
    ]

-- Masking a prefix leaves its addresses as they are.
contains-masked : (p : Prefix) (x : ℕ) → contains (masked p) x ≡ contains p x
unfolding contains masked
contains-masked p x = rw (mul-div_cancel (p.addr / 2 ^ (32 - p.bits)) (two_pow_pos (32 - p.bits)))

-- The prefixes have no address in common.
abbrev pub AreDisjoint : Prefix → Prefix → Type 0
AreDisjoint a b = (x : ℕ) → contains a x ≡ true → contains b x ≡ false

pub not_overlap_iff : (a b : Prefix) → (prefixes_overlap a b ≡ false) ↔ AreDisjoint a b
not_overlap_iff a b = (into, back)
  where
    into : prefixes_overlap a b ≡ false → AreDisjoint a b
    into h x ca = elim (Bool-cases (contains b x)) [
      | inr out ↦ out
      | inl both ↦ let meets = (prefixes_overlap_iff a b).1 (x, ca, both) in ground arith
    ]

    back : AreDisjoint a b → prefixes_overlap a b ≡ false
    back d = elim (Bool-cases (prefixes_overlap a b)) [
      | inr out ↦ out
      | inl meet ↦
          let (x, ca, cb) = (prefixes_overlap_iff a b).0 meet in let apart = d x ca in ground arith
    ]
