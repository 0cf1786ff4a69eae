-- ===== src/Tap.antt =====
-- internal/tap: the TAP devices of the two systems. The system's calls are a list of what they return,
-- in the order in which they are made, and any list is possible; the state also records the handles that
-- were opened and closed.
pub mod Handles
pub mod Adapters
pub mod Linux
pub mod Windows
mod Examples
use wsn.Prelude.{ℕ, List, [], ◌∷◌, Result, ok, err, suc}
use wsn.Protocol.{Bytes}

pub data TapError : Type 0 where
  invalid_name no_tun attach_failed : TapError
  no_registry no_adapter bad_path open_failed no_event reset_failed io_failed no_media : TapError

-- What a call returns: success with a number, that the request pends (ERROR_IO_PENDING), or an error.
pub data Answer : Type 0 where
  done : ℕ → Answer
  pending failed : Answer

pub record System : Type 0 where
  pub answers : List Answer
  pub opened : List ℕ
  pub closed : List ℕ

abbrev next_answer : List Answer → Answer
next_answer [] = failed
next_answer (a ∷ rest) = a

abbrev later : List Answer → List Answer
later [] = []
later (a ∷ rest) = rest

abbrev opened_by : Answer → TapError → System → Result TapError ℕ × System
opened_by (done n) e s = (ok (suc n), record s { opened = suc n ∷ s.opened })
opened_by pending e s = (err e, s)
opened_by failed e s = (err e, s)

-- A call that opens a handle; a handle is not zero.
unfoldable pub acquire : TapError → System → Result TapError ℕ × System
acquire e s = opened_by (next_answer s.answers) e (record s { answers = later s.answers })

-- A call that returns a status, or that a request pends.
unfoldable pub call : System → Answer × System
call s = (next_answer s.answers, record s { answers = later s.answers })

-- A call that closes a handle, whatever it returns.
unfoldable pub release : ℕ → System → Answer × System
release h s = (next_answer s.answers, record s { answers = later s.answers; closed = h ∷ s.closed })

-- `Device`, as the client uses it: `Open` and the deferred `Close`.
pub record Tap : Type 1 where
  pub Device : Type 0
  pub open_device : Bytes → System → Result TapError Device × System
  pub close_device : Device → System → System
