-- ===== src/Process/Goroutines/Ending.antt =====
-- No goroutine of cmd/api/main.go waits for ever, and `run` tells the right cause.
use investment_engine.Prelude.{true, Option, none, some, ◌≡◌, ◌⊎◌, []}
use investment_engine.GoError.{GoError, wrap}
use investment_engine.Process.Api.{shut_down}
use investment_engine.Process.Goroutines.{Main, selecting, draining, exited, State}
use investment_engine.Process.Goroutines.Notes.{IsFailure}

-- Why the process drains: a signal, or the end of the connection with the error that it ended with.
abbrev pub Drains : State → Option GoError → Type 0
Drains s none = s.signalled ≡ true
Drains s (some x) =
    (e : GoError) × (s.lost ≡ some e) × (x ≡ wrap "api: rabbitmq connection lost: %w" e)

-- How `run` may have ended.
abbrev pub Ends : State → Option GoError → Type 0
Ends s r =
    ((e : GoError) × IsFailure s e × (r ≡ some (wrap "api: server failed: %w" e)))
    ⊎ ((stop_error shutdown_error : Option GoError) × Drains s stop_error
        × (r ≡ (shut_down shutdown_error stop_error []).0))

abbrev HasCause : State → Main → Type 0
HasCause s selecting = Unit
HasCause s (draining stop_error) = Drains s stop_error
HasCause s (exited r) = Ends s r

-- What has happened stays so.
abbrev Keeps : State → State → Type 0
Keeps s s' =
    (s.signalled ≡ true → s'.signalled ≡ true)
    × ((e : GoError) → s.lost ≡ some e → s'.lost ≡ some e)
    × ((e : GoError) → s.failure ≡ some e → s'.failure ≡ some e)
