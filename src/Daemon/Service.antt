-- ===== src/Daemon/Service.antt =====
-- `Run`, `LogOutput` and the service handler of internal/daemon: what the service manager of Windows
-- says is given event by event, and what the function that runs returns is given too.
pub mod Lifecycle
mod Examples
use wsn.Prelude.{
  List, [], ◌∷◌, ◌++◌, Bool, true, false, if◌then◌else◌, Option, none, some, Result, ok, err, ℕ,
}

-- The states that `Execute` reports; an answer to Interrogate repeats what the request carries.
pub data Status : Type 0 where
  start_pending running stop_pending : Status
  current : ℕ → Status

pub data Request : Type 0 where
  interrogate : ℕ → Request
  stop shutdown other : Request

-- What `select` finds: the end of `run` with its error, if any, or a request.
pub data ServiceEvent (E : Type 0) : Type 0 where
  finished : Option E → ServiceEvent E
  requested : Request → ServiceEvent E

-- The states that were reported, the error of the handler, and whether it cancelled the context of `run`
-- and waited for its end.
pub record Executed (E : Type 0) : Type 0 where
  pub statuses : List Status
  pub error : Option E
  pub cancelled : Bool

module _ {E : Type 0} where
  abbrev reporting : Status → Option (Executed E) → Option (Executed E)
  reporting status none = none
  reporting status (some x) = some (record x { statuses = status ∷ x.statuses })

  abbrev ended : Option E → Bool → Option (Executed E)
  ended e cancelled =
      some (record { statuses = stop_pending ∷ []; error = e; cancelled = cancelled })

  -- The loop of `Execute`; `drained` is what `run` returns once its context is cancelled. A list that
  -- ends is a service that still runs.
  unfoldable pub execute_loop : Option E → List (ServiceEvent E) → Option (Executed E)
  execute_loop drained [] = none
  execute_loop drained (finished e ∷ events) = ended e false
  execute_loop drained (requested (interrogate n) ∷ events) =
      reporting (current n) (execute_loop drained events)
  execute_loop drained (requested stop ∷ events) = ended drained true
  execute_loop drained (requested shutdown ∷ events) = ended drained true
  execute_loop drained (requested other ∷ events) = execute_loop drained events

  unfoldable pub execute : Option E → List (ServiceEvent E) → Option (Executed E)
  unfolding execute_loop
  execute drained events = reporting start_pending (reporting running (execute_loop drained events))

pub data RunError (E : Type 0) : Type 0 where
  not_detected not_run : RunError E
  of_run : E → RunError E

abbrev of_handler : {E : Type 0} → Option E → Result (RunError E) (Unit {0})
of_handler none = ok tt
of_handler (some e) = err (of_run e)

-- What `svc.Run` returned, and the handler's error.
abbrev after_service : {E : Type 0} → Bool → Option E → Result (RunError E) (Unit {0})
after_service true e = of_handler e
after_service false e = err not_run

-- `Run` on Windows: whether the process is a service, if that can be told, whether svc.Run returned
-- no error, the handler's error and, in the foreground, that of `run`.
unfoldable pub run_daemon :
    {E : Type 0} → Option Bool → Bool → Option E → Option E → Result (RunError E) (Unit {0})
run_daemon none runs handler foreground = err not_detected
run_daemon (some false) runs handler foreground = of_handler foreground
run_daemon (some true) runs handler foreground = after_service runs handler

-- `Run` elsewhere returns what `run` does.
abbrev pub unix_run : {E : Type 0} → Option E → Result (RunError E) (Unit {0})
unix_run foreground = of_handler foreground

-- Where the logs go; the flag says whether the file is a service's own.
pub data LogOutput : Type 0 where
  stdout log_file : LogOutput

-- `LogOutput` on Windows: a log that cannot be opened does not stop the service.
unfoldable pub log_output : Option Bool → Bool → Option (LogOutput × Bool)
log_output none opens = none
log_output (some false) opens = some (stdout, false)
log_output (some true) opens = if opens then some (log_file, true) else some (stdout, false)

-- `LogOutput` elsewhere.
abbrev pub unix_log_output : Option (LogOutput × Bool)
unix_log_output = some (stdout, false)
