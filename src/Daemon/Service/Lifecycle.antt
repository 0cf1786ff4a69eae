-- ===== src/Daemon/Service/Lifecycle.antt =====
-- What the service manager sees of a service of internal/daemon/daemon_windows.go.
use wsn.Prelude.{List, [], ◌∷◌, ◌++◌, Bool, true, false, Option, none, some, ◌≡◌, ap, All, arith}
use wsn.Daemon.Service.{
  Status, start_pending, running, stop_pending, current, interrogate, stop, shutdown, other,
  ServiceEvent, finished, requested, execute, execute_loop, reporting,
}

module _ {E : Type 0} where
  -- The request does not end the service.
  abbrev pub GoesOn : ServiceEvent E → Type 0
  GoesOn (requested (interrogate n)) = Unit
  GoesOn (requested other) = Unit
  GoesOn (requested stop) = ⊥
  GoesOn (requested shutdown) = ⊥
  GoesOn (finished e) = ⊥

  -- The answers to the requests.
  abbrev pub answers : List (ServiceEvent E) → List Status
  answers [] = []
  answers (requested (interrogate n) ∷ events) = current n ∷ answers events
  answers (_ ∷ events) = answers events

  -- How an event ends the service: the error, and whether the context is cancelled.
  abbrev pub end_of : Option E → ServiceEvent E → Option (Option E × Bool)
  end_of drained (finished e) = some (e, false)
  end_of drained (requested stop) = some (drained, true)
  end_of drained (requested shutdown) = some (drained, true)
  end_of drained (requested (interrogate n)) = none
  end_of drained (requested other) = none

  loop_end :
      (drained error : Option E) (cancelled : Bool) (before after : List (ServiceEvent E))
      (last : ServiceEvent E)
      → All GoesOn before
      → end_of drained last ≡ some (error, cancelled)
      → execute_loop drained (before ++ last ∷ after)
        ≡ some (record {
          statuses = answers before ++ stop_pending ∷ [];
          error = error;
          cancelled = cancelled;
        })
  unfolding execute_loop
  loop_end drained error cancelled [] after (finished e) on h = ground arith
  loop_end drained error cancelled [] after (requested stop) on h = ground arith
  loop_end drained error cancelled [] after (requested shutdown) on h = ground arith
  loop_end drained error cancelled [] after (requested (interrogate n)) on h = ground arith
  loop_end drained error cancelled [] after (requested other) on h = ground arith
  loop_end drained error cancelled (requested (interrogate n) ∷ before) after last on h =
      ap (reporting (current n)) (loop_end drained error cancelled before after last on.1 h)
  loop_end drained error cancelled (requested other ∷ before) after last on h =
      loop_end drained error cancelled before after last on.1 h
  loop_end drained error cancelled (requested stop ∷ before) after last on h = absurd on.0
  loop_end drained error cancelled (requested shutdown ∷ before) after last on h = absurd on.0
  loop_end drained error cancelled (finished e ∷ before) after last on h = absurd on.0

  -- A service reports that it starts, that it runs and the answers to the requests up to the first event
  -- that ends it, then once that it stops, and nothing after that. Its error is that of the function
  -- that ran, which was cancelled and waited for where the service manager asked for the end.
  pub execute-reports :
      (drained error : Option E) (cancelled : Bool) (before after : List (ServiceEvent E))
      (last : ServiceEvent E)
      → All GoesOn before
      → end_of drained last ≡ some (error, cancelled)
      → execute drained (before ++ last ∷ after)
        ≡ some (record {
          statuses = start_pending ∷ running ∷ (answers before ++ stop_pending ∷ []);
          error = error;
          cancelled = cancelled;
        })
  unfolding execute
  execute-reports drained error cancelled before after last on h =
      ap (λ x. reporting start_pending (reporting running x))
        (loop_end drained error cancelled before after last on h)
