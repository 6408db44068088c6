-- ===== src/Tests/Goroutines.antt =====
-- The goroutines of cmd/api/main.go in one run: the connection to the broker is lost.
use investment_engine.Prelude.{◌≤◌, none, some, refl, true, ◌⊎◌}
use investment_engine.GoError.{GoError, new}
use investment_engine.Process.Api.{lost_error}
use investment_engine.Process.Goroutines.{
  State, begin, Step, returned, closing, exited, server_closed, breaks, reports, takes_loss, stops,
  returns, Reach, here, next,
}
use investment_engine.Process.Goroutines.Progress.{
  steps, IsEnding, IsOver, IsOwnStep, goroutines_end,
}

abbrev cause : GoError
cause = new "Exception (320): CONNECTION_FORCED"

abbrev drained : State
drained = record begin {
  server = returned server_closed;
  broker = closing;
  shutdown_called = true;
  main = exited (some (lost_error (some cause)));
  lost = some cause;
}

abbrev run : Reach drained
run =
    next
      (next
        (next (next (next here (breaks cause refl)) (reports cause refl refl))
          (takes_loss cause refl refl))
        (stops refl refl))
      (returns (some (lost_error (some cause))) none refl)

goroutines_end_example :
    (steps run ≤ 8)
    × (IsEnding drained
        → IsOver drained ⊎ ((s' : State) × (step : Step drained s') × IsOwnStep step))
goroutines_end_example = goroutines_end run
