-- ===== src/Process/Orderly.antt =====
-- How the processes of cmd/api/main.go and cmd/consumer/main.go treat what they acquire.
use investment_engine.Prelude.{
  ℕ, Bool, true, false, ◌&&◌, ◌||◌, List, [], ◌∷◌, Option, none, some, if◌then◌else◌, ◌==◌, ◌≡◌,
  arith,
}
use investment_engine.GoError.{GoError}
use investment_engine.Process.{
  Resource, signals, tracing, database, broker, channel, price_client, Event, acquired, released,
  serves, consumes, drained, Log,
}
use investment_engine.Process.Api
use investment_engine.Process.Consumer

abbrev number : Resource → ℕ
number signals = 0
number tracing = 1
number database = 2
number broker = 3
number channel = 4
number price_client = 5

abbrev has : Resource → List Resource → Bool
has r [] = false
has r (q ∷ rs) = number q == number r || has r rs

abbrev allowed : Bool → List Resource → Option (List Resource)
allowed true rs = some rs
allowed false rs = none

-- What is held after an event, the latest first; `none` where it is out of order: what is acquired
-- is not held, what is released was acquired last, and work needs its connections.
abbrev after : Event → Option (List Resource) → Option (List Resource)
after e none = none
after (acquired r) (some rs) = if has r rs then none else some (r ∷ rs)
after (released r) (some []) = none
after (released r) (some (q ∷ rs)) = allowed (number q == number r) rs
after serves (some rs) = allowed (has database rs && has broker rs) rs
after drained (some rs) = allowed (has database rs && has broker rs) rs
after consumes (some rs) =
    allowed (has database rs && has broker rs && has price_client rs && has channel rs) rs

unfoldable pub held : Log → Option (List Resource)
held [] = some []
held (e ∷ log) = after e (held log)

-- Wherever the API stops, and why ever, it has released all that it acquired, in the reverse order,
-- and it served requests and drained them while it held its connections to the database and the
-- broker.
pub api-held : (env : Api.Environment) → held (Api.run env []).1 ≡ some []
unfolding held Api.run
api-held env = ground arith

-- So does the consumer, which holds its channel and the client of the price service, too, while it
-- takes deliveries.
pub consumer-held :
    (env : Consumer.Environment) (answer : Option GoError)
    → held (Consumer.run env answer []).1 ≡ some []
unfolding held Consumer.run
consumer-held env answer = ground arith
