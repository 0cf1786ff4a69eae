-- ===== src/Tap/Windows/Locks/Examples.antt =====
-- A device that is closed while a read is pending, and one whose next read starts after CancelIoEx.
use wsn.Prelude.{true, List, [], ◌∷◌, some, none, ◌≡◌, refl}
use wsn.Tap.Windows.Locks.{
  pending, aborted, cancelled, Locks, LockEvent, start_read, start_write, complete_write, cancel,
  lock_read, fresh_locks, run_locks, lock_step,
}
use wsn.Tap.Windows.Locks.Exclusion.{can_finish, closed_locks}

abbrev reading : Locks
reading = record fresh_locks { reader = aborted; closer = cancelled }

abbrev events : List LockEvent
events = start_read ∷ start_write ∷ complete_write ∷ cancel ∷ []

test_can_finish : can_finish reading ≡ true
test_can_finish = refl

-- A read of a device that is closed fails.
test_closed_read : run_locks (start_read ∷ []) closed_locks ≡ some closed_locks
unfolding run_locks lock_step
test_closed_read = refl

-- The read that starts after CancelIoEx is not cancelled: Close waits for the driver to complete it.
test_close_waits : run_locks (cancel ∷ start_read ∷ lock_read ∷ []) fresh_locks ≡ none
unfolding run_locks lock_step
test_close_waits = refl

test_still_pending :
    run_locks (cancel ∷ start_read ∷ []) fresh_locks
    ≡ some (record fresh_locks { reader = pending; closer = cancelled })
unfolding run_locks lock_step
test_still_pending = refl
