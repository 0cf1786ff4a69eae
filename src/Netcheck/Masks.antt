-- ===== src/Netcheck/Masks.antt =====
-- `netMaskBits` of internal/netcheck/netcheck_linux.go.
use wsn.Prelude.{
  subst, ◌++◌, ◌≤◌, Bool, List, [], arith, false, some, suc, true, zero, ℕ, ◌+◌, ◌↔◌, ◌∷◌, ◌≡◌,
}
use wsn.Netcheck.{byte_bits, net_mask_bits, mask_loop}

-- So many ones, and then zeros.
abbrev pub IsMask : ℕ → List Bool → Type 0
IsMask n [] = n ≡ 0
IsMask zero (b ∷ l) = (b ≡ false) × IsMask zero l
IsMask (suc n) (b ∷ l) = (b ≡ true) × IsMask n l

zeros_left :
    (bits : ℕ) (l : List Bool) (r : ℕ)
    → (mask_loop bits true l ≡ some r) ↔ ((r ≡ bits) × IsMask 0 l)
unfolding mask_loop
zeros_left bits [] r = ground arith
zeros_left bits (true ∷ l) r = ground arith
zeros_left bits (false ∷ l) r = ground (arith, zeros_left bits l r)

mask_loop-grows :
    (bits : ℕ) (z : Bool) (l : List Bool) (r : ℕ) → mask_loop bits z l ≡ some r → bits ≤ r
unfolding mask_loop
mask_loop-grows bits z [] r h = ground arith
mask_loop-grows bits true (true ∷ l) r h = cc
mask_loop-grows bits true (false ∷ l) r h = mask_loop-grows bits true l r h
mask_loop-grows bits false (true ∷ l) r h =
    let more = mask_loop-grows (bits + 1) false l r h in omega arith
mask_loop-grows bits false (false ∷ l) r h = mask_loop-grows bits true l r h

mask_loop_lem :
    (bits : ℕ) (l : List Bool) (n : ℕ) → (mask_loop bits false l ≡ some (bits + n)) ↔ IsMask n l
unfolding mask_loop
mask_loop_lem bits [] n = ground arith
mask_loop_lem bits (true ∷ l) zero =
    (λ h. absurd (omega (arith, mask_loop-grows (bits + 1) false l (bits + 0) h)), λ (e, m). cc)
mask_loop_lem bits (true ∷ l) (suc n) =
    let rest = mask_loop_lem (bits + 1) l n in
    let same : bits + 1 + n ≡ bits + suc n = omega arith in ground arith
mask_loop_lem bits (false ∷ l) zero = ground (arith, zeros_left bits l (bits + 0))
mask_loop_lem bits (false ∷ l) (suc n) = ground (arith, zeros_left bits l (bits + suc n))

-- The bits of the four bytes, the highest first.
abbrev pub mask_bits : ℕ → ℕ → ℕ → ℕ → List Bool
mask_bits a b c d = byte_bits a ++ (byte_bits b ++ (byte_bits c ++ byte_bits d))

-- netMaskBits returns a number exactly for a mask that is so many ones and then zeros.
net_mask_bits_iff :
    (a b c d n : ℕ) → (net_mask_bits a b c d ≡ some n) ↔ IsMask n (mask_bits a b c d)
unfolding net_mask_bits
net_mask_bits_iff a b c d n =
    let read = mask_loop_lem 0 (mask_bits a b c d) n in
    let same : 0 + n ≡ n = omega arith in
    subst
      (λ (m : ℕ). (mask_loop 0 false (mask_bits a b c d) ≡ some m) ↔ IsMask n (mask_bits a b c d))
      same read
