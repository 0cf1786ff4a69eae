-- ===== src/Daemon.antt =====
-- `rotatingFile` of internal/daemon/daemon_windows.go: the log of the service. A generation is the
-- bytes of its file, and a file that is missing has none; what the calls of the operating system
-- return is given for each write. The mutex makes a write one step.
use wsn.Protocol.{Bytes}
use wsn.Prelude.{
  Bool, List, Option, Result, [], err, false, if◌then◌else◌, length, ltb, none, not, ok, some, take,
  true, ℕ, ◌&&◌, ◌++◌, ◌+◌, ◌==◌, ◌∷◌,
}
pub mod Generations
pub mod Service
mod Examples

pub record RotatingFile : Type 0 where
  pub limit : ℕ
  pub is_open : Bool
  pub size : ℕ
  pub current : Bytes
  pub previous : Option Bytes

pub data LogError : Type 0 where
  file_closed close_failed rename_failed reopen_failed stat_failed write_failed : LogError

-- Whether each call succeeds, and how many bytes `Write` took; it returns an error where these are
-- not all.
pub record Calls : Type 0 where
  pub closes : Bool
  pub removes : Bool
  pub renames : Bool
  pub reopens : Bool
  pub stats : Bool
  pub taken : ℕ

-- The generations after `Close`, `Remove` and `Rename`, and the error.
unfoldable pub move : Calls → RotatingFile → RotatingFile × Option LogError
move c f =
    if not c.closes
    then (record f { is_open = false }, some close_failed)
    else if not c.renames
    then (
      record f { is_open = false; previous = if c.removes then none else f.previous },
      some rename_failed,
    )
    else (record f { is_open = false; current = []; previous = some f.current }, none)

abbrev or_error : Option LogError → LogError → Option LogError
or_error none e = some e
or_error (some first) e = some first

-- The deferred function of `rotate`.
unfoldable pub restore : Calls → RotatingFile × Option LogError → RotatingFile × Option LogError
restore c (f, e) =
    if not c.reopens
    then (f, or_error e reopen_failed)
    else if c.stats
    then (record f { is_open = true; size = length f.current }, e)
    else (record f { is_open = true }, or_error e stat_failed)

unfoldable pub rotate : Calls → RotatingFile → RotatingFile × Option LogError
unfolding move restore
rotate c f = restore c (move c f)

abbrev error_of : Option LogError → LogError
error_of none = file_closed
error_of (some e) = e

-- The write that follows the test of the size.
unfoldable pub append : Calls → Bytes → RotatingFile → Result LogError ℕ × RotatingFile
append c p f = (
  if c.taken == length p then ok c.taken else err write_failed,
  record f { size = f.size + c.taken; current = f.current ++ take c.taken p },
)

abbrev append_rotated :
    Calls → Bytes → RotatingFile × Option LogError → Result LogError ℕ × RotatingFile
unfolding append
append_rotated c p (f, e) = if f.is_open then append c p f else (err (error_of e), f)

unfoldable pub write : Calls → Bytes → RotatingFile → Result LogError ℕ × RotatingFile
unfolding append rotate
write c p f =
    if not f.is_open
    then (err file_closed, f)
    else if ltb 0 f.size && ltb f.limit (f.size + length p)
    then append_rotated c p (rotate c f)
    else append c p f

-- `openRotatingFile` of a file that is there.
abbrev pub opened : ℕ → Bytes → Option Bytes → RotatingFile
opened limit current previous = record {
  limit = limit;
  is_open = true;
  size = length current;
  current = current;
  previous = previous;
}

unfoldable pub write_all : List (Calls × Bytes) → RotatingFile → RotatingFile
unfolding write
write_all [] f = f
write_all ((c, p) ∷ rest) f = write_all rest (write c p f).1

-- `Close`: the log is closed whatever the system's call returns.
unfoldable pub close_log : Bool → RotatingFile → Bool × RotatingFile
close_log closes f = if f.is_open then (closes, record f { is_open = false }) else (true, f)
