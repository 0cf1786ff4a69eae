-- ===== src/Daemon/Examples.antt =====
-- A log of ten bytes that rotates once.
use wsn.Protocol.{Bytes}
use wsn.Prelude.{List, [], arith, none, ok, refl, true, ℕ, ◌++◌, ◌∷◌, ◌≡◌}
use wsn.Daemon.Generations.{IsCounted, IsWithin, IsWritten, write-IsWritten, write_all-IsWithin}
use wsn.Daemon.{Calls, RotatingFile, opened, write, write_all}

abbrev smooth : ℕ → Calls
smooth n = record {
  closes = true;
  removes = true;
  renames = true;
  reopens = true;
  stats = true;
  taken = n;
}

abbrev start : RotatingFile
start = opened 10 (1 ∷ 2 ∷ 3 ∷ 4 ∷ 5 ∷ 6 ∷ 7 ∷ 8 ∷ []) none

abbrev entry : Bytes
entry = 9 ∷ 9 ∷ 9 ∷ 9 ∷ []

abbrev writes : List (Calls × Bytes)
writes = (smooth 4, entry) ∷ (smooth 4, entry) ∷ []

test_write_all : (write_all writes start).current ≡ entry ++ entry
unfolding write_all
test_write_all = refl

write-IsWritten_example :
    ((write (smooth 4) entry start).0 ≡ ok 4)
    × IsCounted (write (smooth 4) entry start).1
    × IsWritten entry start (write (smooth 4) entry start).1
write-IsWritten_example = write-IsWritten (smooth 4) entry start refl refl refl (refl, refl)

write_all-IsWithin_example :
    IsCounted (write_all writes start) × IsWithin 10 (write_all writes start)
write_all-IsWithin_example =
    write_all-IsWithin writes start 10
      (
        ((refl, refl, refl, refl, refl), omega arith),
        (((refl, refl, refl, refl, refl), omega arith), tt),
      )
      (refl, refl) (refl, omega arith)
