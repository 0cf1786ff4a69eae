-- ===== src/Netip/Examples.antt =====
-- The networks 10.0.0.0/8 and 10.1.0.0/16, and 10.1.0.0/30 with its two usable addresses.
use wsn.Prelude.{nat_eq, bytes_key, ◌^◌, ◌*◌, ◌+◌, ◌≡◌, refl, true, false}
use wsn.Netip.{Prefix, masked, prefixes_overlap, usable_address}

abbrev wide : Prefix
wide = record { addr = 10 * 2 ^ 24; bits = 8 }

abbrev narrow : Prefix
narrow = record { addr = 10 * 2 ^ 24 + 2 ^ 16; bits = 16 }

abbrev tiny : Prefix
tiny = record { addr = 10 * 2 ^ 24 + 2 ^ 16; bits = 30 }

test_overlap : prefixes_overlap wide narrow ≡ true
unfolding prefixes_overlap
test_overlap = refl

test_network : usable_address tiny tiny.addr ≡ false
unfolding usable_address masked
test_network = refl

test_first : usable_address tiny (tiny.addr + 1) ≡ true
unfolding usable_address masked
test_first = refl

test_last : usable_address tiny (tiny.addr + 2) ≡ true
unfolding usable_address masked
test_last = refl

test_broadcast : usable_address tiny (tiny.addr + 3) ≡ false
unfolding usable_address masked
test_broadcast = refl
