-- ===== src/Netip/Usable.antt =====
-- `usableAddress` of internal/provision/provision.go.
use native.Mathlib.Nat.{div-add-mod', mod-lt, mul-le-mul_right}
use native.Mathlib.Decide.{dec_lt}
use wsn.Prelude.{
  nat_eq, bytes_key, ℕ, suc, ◌+◌, ◌-◌, ◌*◌, ◌/◌, ◌^◌, ◌≤◌, ◌<◌, ◌≡◌, ap, ◌↔◌, true, arith,
}
use wsn.Netip.{Prefix, masked, usable_address}
use wsn.Netip.Overlap.{contains_iff, two_pow_pos}

-- A block of `n` numbers that starts at a multiple of `n`.
block_iff : (q a n : ℕ) → 0 < n → (q ≡ a / n) ↔ ((q * n ≤ a) × (a < q * n + n))
block_iff q a n pos = (into, unique)
  where
    into : q ≡ a / n → (q * n ≤ a) × (a < q * n + n)
    into e = rw e (omega (arith, div-add-mod' a n, mod-lt a pos))

    unique : (q * n ≤ a) × (a < q * n + n) → q ≡ a / n
    unique (low, high) = elim (dec_lt q (a / n)) [
      | yes below ↦ absurd (
          omega (
            arith,
            div-add-mod' a n,
            mod-lt a pos,
            mul-le-mul_right {m = suc q} {n = a / n} n below,
          ))
      | no not_below ↦ elim (dec_lt (a / n) q) [
        | yes above ↦ absurd (
            omega (
              arith,
              div-add-mod' a n,
              mod-lt a pos,
              mul-le-mul_right {m = suc (a / n)} {n = q} n above,
            ))
        | no not_above ↦ omega arith
      ]
    ]

-- In a canonical prefix the usable addresses are those strictly between the network address, which is
-- the first, and the broadcast address, which is the last.
usable_address_iff :
    (p : Prefix) (a : ℕ)
    → masked p ≡ p
    → (usable_address p a ≡ true) ↔ ((p.addr < a) × (a < p.addr + (2 ^ (32 - p.bits) - 1)))
unfolding usable_address masked
usable_address_iff p a canonical =
    let size : ℕ = 2 ^ (32 - p.bits) in
    let start : p.addr / size * size ≡ p.addr = ap (λ (r : Prefix). r.addr) canonical in
    let inside = block_iff (p.addr / size) a size (two_pow_pos (32 - p.bits)) in
    ground (arith, contains_iff p a)
