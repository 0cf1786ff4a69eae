-- ===== src/Tap/Windows/Locks/Exclusion.antt =====
-- Close of the device of internal/tap/tap_windows.go against its reads and writes.
use wsn.Prelude.{Bool, true, false, ◌&&◌}
use wsn.Tap.Windows.Locks.{handle_closed, read_closed, close_read_event, close_write_event}
use wsn.Prelude.{List, [], ◌∷◌, ◌≡◌}
use wsn.Tap.Windows.Locks.{
  Pump, idle, pending, aborted, Closer, not_started, cancelled, has_read, has_both, closed, Locks,
  LockEvent, return_read, return_write, lock_read, lock_write, close_handle,
}

-- A mutex has one holder: a direction whose mutex Close holds has no request. From the closing of the
-- handle on neither direction has one, and once Close has returned there is no event either.
abbrev pub Exclusive : Closer → Locks → Type 0
Exclusive not_started s = Unit
Exclusive cancelled s = Unit
Exclusive has_read s = s.reader ≡ idle
Exclusive has_both s = (s.reader ≡ idle) × (s.writer ≡ idle)
Exclusive handle_closed s = (s.reader ≡ idle) × (s.writer ≡ idle)
Exclusive read_closed s = (s.reader ≡ idle) × (s.writer ≡ idle) × (s.read_event ≡ false)
Exclusive closed s =
    (s.reader ≡ idle) × (s.writer ≡ idle) × (s.read_event ≡ false) × (s.write_event ≡ false)

abbrev pub IsExclusive : Locks → Type 0
IsExclusive s = Exclusive s.closer s

-- What is left of Close where it waits for the mutex of the reads: the requests that were aborted
-- return, and it goes on to its end.
abbrev returning : Pump → LockEvent → List LockEvent → List LockEvent
returning aborted e rest = e ∷ rest
returning _ e rest = rest

abbrev pub rest_of_close : Locks → List LockEvent
rest_of_close s = returning s.reader return_read (
    returning s.writer return_write
      (lock_read ∷ lock_write ∷ close_handle ∷ close_read_event ∷ close_write_event ∷ []))

-- CancelIoEx was called, no mutex is taken, and the driver has no request.
abbrev is_answered : Pump → Bool
is_answered pending = false
is_answered _ = true

abbrev has_cancelled : Closer → Bool
has_cancelled cancelled = true
has_cancelled _ = false

abbrev pub can_finish : Locks → Bool
can_finish s = has_cancelled s.closer && (is_answered s.reader && is_answered s.writer)

abbrev pub closed_locks : Locks
closed_locks = record {
  reader = idle;
  writer = idle;
  closer = closed;
  read_event = false;
  write_event = false;
}
