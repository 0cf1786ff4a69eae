-- ===== src/Client/Examples.antt =====
-- One reconnection, one frame that is written in two parts.
use wsn.Prelude.{nat_eq, bytes_key, bytes_eq, ◌≡◌, refl, false, [], ◌∷◌, ◌/◌, All, arith}
use wsn.Protocol.{Bytes}
use wsn.Client.Mac.{equal_mac, equal_mac-bytes_eq}
use wsn.Client.Backoff.{Attempt, run}
use wsn.Client.Backoff.Bounds.{IsDelay, run-IsDelay}

abbrev attempt : Attempt
attempt = record {
  cancelled_before = false;
  elapsed = 5;
  cancelled_after = false;
  int63n = λ n. n / 2;
  cancelled_waiting = false;
}

run-IsDelay_example : All IsDelay (run (attempt ∷ attempt ∷ []))
run-IsDelay_example =
    run-IsDelay (attempt ∷ attempt ∷ []) (λ n. omega arith, (λ n. omega arith, tt))

test_run : run (attempt ∷ attempt ∷ []) ≡ 1_250_000_000 ∷ 2_500_000_000 ∷ []
unfolding run
test_run = refl

abbrev virtual_mac : Bytes
virtual_mac = 2 ∷ 0 ∷ 0 ∷ 0 ∷ 0 ∷ 1 ∷ []

abbrev frame : Bytes
frame = 2 ∷ 0 ∷ 0 ∷ 0 ∷ 0 ∷ 2 ∷ 2 ∷ 0 ∷ 0 ∷ 0 ∷ 0 ∷ 1 ∷ 8 ∷ 0 ∷ []

abbrev other_mac : Bytes
other_mac = 2 ∷ 0 ∷ 0 ∷ 0 ∷ 0 ∷ 3 ∷ []

equal_mac-bytes_eq_example : equal_mac virtual_mac other_mac ≡ bytes_eq virtual_mac other_mac
equal_mac-bytes_eq_example = equal_mac-bytes_eq virtual_mac other_mac

test_equal_mac : equal_mac virtual_mac other_mac ≡ false
unfolding equal_mac
test_equal_mac = refl
