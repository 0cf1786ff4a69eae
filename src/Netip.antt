-- ===== src/Netip.antt =====
-- IPv4 addresses and prefixes as the repository uses `net/netip`: the prefix tests of
-- internal/config/config.go, internal/netcheck/netcheck_linux.go and
-- internal/provision/provision.go. An address is its 32-bit number, the first byte the highest. Every
-- call site of a parser refuses what is no IPv4 address with the error of a text that does not parse,
-- so the addresses of other families are not modelled.
pub mod Overlap
pub mod Usable
mod Examples
use wsn.Prelude.{
  ltb, leb, ◌==◌, if◌then◌else◌, ltb→lt, leb→le, ==_iff, Bool-cases, Option-cases, bytes_eq,
  bytes_eq_iff, bytes_eq_refl, among, Eq, nat_eq, bytes_key, length, take, drop, Elem,
  length-append, take-append-drop, length-take, length-drop, All, All-append, Map, lookup, insert,
  remove, Distinct, Entry, lookup-insert, lookup-remove, insert-Distinct, remove-Distinct,
  Entry-of_lookup, lookup-of_Entry, Result, ◌>>=◌, ◌>>◌, refuse_if, or_err, Result-cases, ok, err,
  ℕ, zero, suc, ◌+◌, ◌-◌, ◌*◌, ◌/◌, ◌%◌, ◌^◌, ◌≤◌, ◌<◌, ◌≡◌, refl, sym, ap, subst, ◌∙◌, ◌≢◌, ◌↔◌,
  ◌⊎◌, inl, inr, Bool, true, false, not, ◌&&◌, ◌||◌, Option, none, some, List, [], ◌∷◌, ◌++◌, map,
  append_assoc, append-nil, arith,
}

pub record Prefix : Type 0 where
  pub addr : ℕ
  pub bits : ℕ

-- A prefix that `ParsePrefix` or `PrefixFrom` gives.
pub record IsPrefix (p : Prefix) : Type 0 where
  pub addr_fits : p.addr < 2 ^ 32
  pub bits_fit : p.bits ≤ 32

-- `Contains`: the addresses agree on the first `bits` bits.
unfoldable pub contains : Prefix → ℕ → Bool
contains p a = p.addr / 2 ^ (32 - p.bits) == a / 2 ^ (32 - p.bits)

-- `Masked`: the bits behind the prefix are zero.
unfoldable pub masked : Prefix → Prefix
masked p = record p { addr = p.addr / 2 ^ (32 - p.bits) * 2 ^ (32 - p.bits) }

-- `prefixesOverlap`, and `overlap` of netcheck.
unfoldable pub prefixes_overlap : Prefix → Prefix → Bool
unfolding contains
prefixes_overlap a b = contains a b.addr || contains b a.addr

-- `networkValue | ^mask` of `usableAddress`: the bits behind the prefix are set.
abbrev pub broadcast : Prefix → ℕ
broadcast p = p.addr / 2 ^ (32 - p.bits) * 2 ^ (32 - p.bits) + (2 ^ (32 - p.bits) - 1)

-- `usableAddress`.
unfoldable pub usable_address : Prefix → ℕ → Bool
unfolding contains
usable_address p a = if not (contains p a) || (a == p.addr) then false else not (a == broadcast p)
