-- ===== src/Process.antt =====
-- What the three binaries of cmd/ share: a function that acquires resources and defers their release.
-- Its log holds what it has done, the latest first. `deferring` is a `defer` with all that follows it
-- in the function: whatever that returns, the deferred call comes then.
pub mod Startup
pub mod Api
pub mod Consumer
pub mod PriceService
pub mod Orderly
pub mod Exit
pub mod Goroutines
use investment_engine.Prelude.{
  ℕ, String, Text, text_eq, if◌then◌else◌, Bool, true, false, ◌&&◌, ◌||◌, List, [], ◌∷◌, Option,
  none, some,
}
use investment_engine.GoError.{GoError, new}
use investment_engine.Result.{Result, ok, err}

pub data Resource : Type 0 where
  signals tracing database broker channel price_client : Resource

-- `serves` and `consumes` stand for the work of the process, `drained` for the end of
-- http.Server.Shutdown.
pub data Event : Type 0 where
  acquired : Resource → Event
  released : Resource → Event
  serves : Event
  consumes : Event
  drained : Event

abbrev pub Log : Type 0
Log = List Event

-- A function that returns an error; `none` is nil.
abbrev pub Action : Type 0
Action = Log → Option GoError × Log

abbrev pub fail : GoError → Action
fail e log = (some e, log)

abbrev pub release : Resource → Option GoError × Log → Option GoError × Log
release r (e, log) = (e, released r ∷ log)

abbrev pub deferring : Resource → Action → Action
deferring r rest log = release r (rest (acquired r ∷ log))

-- A call that makes a resource, whose error ends the function, and the `defer` behind it.
abbrev pub opening : Resource → Option GoError → (GoError → GoError) → Action → Action
opening r (some e) wrapped rest = fail (wrapped e)
opening r none wrapped rest = deferring r rest

-- `os.Getenv`, where the empty text is refused.
abbrev pub requiring : Text → String → Action → Action
requiring value message rest = if text_eq value [] then fail (new message) else rest

-- `main`: the exit code.
abbrev pub exit_code : Option GoError → ℕ
exit_code none = 0
exit_code (some e) = 1
