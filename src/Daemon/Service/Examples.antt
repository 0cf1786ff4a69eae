-- ===== src/Daemon/Service/Examples.antt =====
-- A service that is asked for its state and then to stop.
use wsn.Prelude.{[], ◌∷◌, ◌++◌, ◌≡◌, refl, true, none, some, ℕ, List}
use wsn.Daemon.Service.{
  ServiceEvent, requested, finished, interrogate, stop, other, execute, execute_loop, current,
  start_pending, running, stop_pending,
}
use wsn.Daemon.Service.Lifecycle.{execute-reports}

abbrev before : List (ServiceEvent ℕ)
before = requested other ∷ requested (interrogate 4) ∷ []

execute-reports_example :
    execute (some 7) (before ++ requested stop ∷ finished none ∷ [])
    ≡ some (record {
      statuses = start_pending ∷ running ∷ current 4 ∷ stop_pending ∷ [];
      error = some 7;
      cancelled = true;
    })
execute-reports_example =
    execute-reports (some 7) (some 7) true before (finished none ∷ []) (requested stop)
      (tt, (tt, tt)) refl

test_running : execute (some 7) before ≡ none
unfolding execute execute_loop
test_running = refl
