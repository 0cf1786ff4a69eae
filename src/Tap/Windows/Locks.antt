-- ===== src/Tap/Windows/Locks.antt =====
-- `Read`, `Write` and `Close` of the device of internal/tap/tap_windows.go as they interleave: the two
-- mutexes, the requests that the driver has and CancelIoEx. An event is one action of a goroutine or of
-- the driver.
pub mod Exclusion
mod Examples
use wsn.Prelude.{List, [], ◌∷◌, Option, none, some, Bool, true, false, if◌then◌else◌}

-- A direction: no request, one that the driver has, or one that was cancelled and is to return. With a
-- request its mutex is held.
pub data Pump : Type 0 where
  idle pending aborted : Pump

-- How far `Close` is: it holds the mutexes from `has_read` and `has_both` on, has closed the handle, the
-- event of the reads and that of the writes, and has released the mutexes where it is `closed`.
pub data Closer : Type 0 where
  not_started cancelled has_read has_both handle_closed read_closed closed : Closer

-- An event is there where the `HEvent` of its direction is not zero.
pub record Locks : Type 0 where
  pub reader : Pump
  pub writer : Pump
  pub closer : Closer
  pub read_event : Bool
  pub write_event : Bool

pub data LockEvent : Type 0 where
  start_read start_write : LockEvent
  complete_read complete_write : LockEvent
  return_read return_write : LockEvent
  cancel lock_read lock_write close_handle close_read_event close_write_event : LockEvent

abbrev pub fresh_locks : Locks
fresh_locks = record {
  reader = idle;
  writer = idle;
  closer = not_started;
  read_event = true;
  write_event = true;
}

-- Whether `Close` leaves the mutex of the reads, and that of the writes, to their pumps.
abbrev read_mutex_free : Closer → Bool
read_mutex_free not_started = true
read_mutex_free cancelled = true
read_mutex_free closed = true
read_mutex_free _ = false

abbrev write_mutex_free : Closer → Bool
write_mutex_free has_read = true
write_mutex_free closer = read_mutex_free closer

-- `await` under the mutex of its direction: `ResetEvent` fails where there is no event, and the request
-- is not made.
abbrev start_if : Bool → Bool → Pump → Option Pump
start_if true event idle = some (if event then pending else idle)
start_if _ event _ = none

abbrev complete_if : Pump → Option Pump
complete_if pending = some idle
complete_if idle = none
complete_if aborted = none

abbrev return_if : Pump → Option Pump
return_if aborted = some idle
return_if idle = none
return_if pending = none

-- CancelIoEx completes the requests that the driver has at that time as aborted.
abbrev abort : Pump → Pump
abort pending = aborted
abort idle = idle
abort aborted = aborted

abbrev set_reader : Locks → Option Pump → Option Locks
set_reader s none = none
set_reader s (some pump) = some (record s { reader = pump })

abbrev set_writer : Locks → Option Pump → Option Locks
set_writer s none = none
set_writer s (some pump) = some (record s { writer = pump })

-- `Lock` of a mutex waits while its pump has a request.
abbrev lock_if : Locks → Closer → Pump → Option Locks
lock_if s next idle = some (record s { closer = next })
lock_if s next pending = none
lock_if s next aborted = none

-- The actions of `Close`, in their order.
abbrev close_step : Closer → LockEvent → Locks → Option Locks
close_step not_started cancel s =
    some (record s { reader = abort s.reader; writer = abort s.writer; closer = cancelled })
close_step cancelled lock_read s = lock_if s has_read s.reader
close_step has_read lock_write s = lock_if s has_both s.writer
close_step has_both close_handle s = some (record s { closer = handle_closed })
close_step handle_closed close_read_event s =
    some (record s { closer = read_closed; read_event = false })
close_step read_closed close_write_event s =
    some (record s { closer = closed; write_event = false })
close_step _ _ s = none

-- `none` is an event that cannot happen in the state.
unfoldable pub lock_step : LockEvent → Locks → Option Locks
lock_step start_read s = set_reader s (start_if (read_mutex_free s.closer) s.read_event s.reader)
lock_step start_write s = set_writer s (start_if (write_mutex_free s.closer) s.write_event s.writer)
lock_step complete_read s = set_reader s (complete_if s.reader)
lock_step complete_write s = set_writer s (complete_if s.writer)
lock_step return_read s = set_reader s (return_if s.reader)
lock_step return_write s = set_writer s (return_if s.writer)
lock_step e s = close_step s.closer e s

abbrev then_run : Option Locks → (Locks → Option Locks) → Option Locks
then_run none rest = none
then_run (some s) rest = rest s

unfoldable pub run_locks : List LockEvent → Locks → Option Locks
unfolding lock_step
run_locks [] s = some s
run_locks (e ∷ events) s = then_run (lock_step e s) (run_locks events)
