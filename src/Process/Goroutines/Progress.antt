-- ===== src/Process/Goroutines/Progress.antt =====
-- Once something has ended the work of cmd/api/main.go, all its goroutines come to their ends.
use investment_engine.Prelude.{
  ℕ, ◌+◌, ◌≤◌, Bool, true, false, Option, none, some, ◌≡◌, ◌≢◌, refl, ◌⊎◌, inl, inr, arith,
}
use investment_engine.GoError.{GoError}
use investment_engine.Process.Goroutines.{
  Serving, listening, returned, sent, Broker, connected, reporting, closing, ended, Main, selecting,
  draining, exited, State, Step, fails, stops, sends, breaks, reports, hangs_up, closes, signals,
  takes_failure, takes_loss, takes_close, takes_signal, returns, Reach, here, next,
}
use investment_engine.Process.Goroutines.Sound.{IsSound, Reach-IsSound}

-- The steps that each part has before it, at most.
abbrev server_left : Serving → ℕ
server_left listening = 2
server_left (returned e) = 1
server_left sent = 0

abbrev broker_left : Broker → ℕ
broker_left connected = 3
broker_left (reporting e) = 2
broker_left closing = 1
broker_left ended = 0

abbrev main_left : Main → ℕ
main_left selecting = 2
main_left (draining x) = 1
main_left (exited r) = 0

abbrev signal_left : Bool → ℕ
signal_left false = 1
signal_left true = 0

abbrev left : State → ℕ
left s = server_left s.server + broker_left s.broker + main_left s.main + signal_left s.signalled

Step-left : {s s' : State} → Step s s' → left s' + 1 ≤ left s
Step-left {s} (fails e own l) = ground arith
Step-left {s} (stops l c) = ground arith
Step-left {s} (sends e l b) = ground arith
Step-left {s} (breaks e l) = ground arith
Step-left {s} (reports e l b) = ground arith
Step-left {s} (hangs_up r m b) = ground arith
Step-left {s} (closes b) = ground arith
Step-left {s} (signals n) = ground arith
Step-left {s} (takes_failure e m b) = ground arith
Step-left {s} (takes_loss e m b) = ground arith
Step-left {s} (takes_close m b c) = ground arith
Step-left {s} (takes_signal m b) = ground arith
Step-left {s} (returns x y m) = ground arith

abbrev pub steps : {s : State} → Reach s → ℕ
steps here = 0
steps (next r step) = steps r + 1

steps-left : {s : State} (r : Reach s) → steps r + left s ≤ 8
steps-left here = omega arith
steps-left (next r step) = omega (arith, steps-left r, Step-left step)

-- A step of the program or its libraries, and not an event from outside.
abbrev pub IsOwnStep : {s s' : State} → Step s s' → Type 0
IsOwnStep (fails e own l) = ⊥
IsOwnStep (breaks e l) = ⊥
IsOwnStep (signals n) = ⊥
IsOwnStep _ = Unit

-- Something that ends the work of the process has happened.
abbrev pub IsEnding : State → Type 0
IsEnding s = (s.signalled ≡ true) ⊎ (s.server ≢ listening) ⊎ (s.broker ≢ connected)

abbrev pub IsOver : State → Type 0
IsOver s = (s.server ≡ sent) × (s.broker ≡ ended) × (r : Option GoError) × (s.main ≡ exited r)

abbrev CanStep : State → Type 0
CanStep s = (s' : State) × (step : Step s s') × IsOwnStep step

module _ (s : State) (i : IsSound s) where
  broker-CanStep :
      (r : Option GoError) (b : Broker)
      → s.main ≡ exited r
      → s.server ≡ sent
      → s.broker ≡ b
      → IsOver s ⊎ CanStep s
  broker-CanStep r connected m v e = inr (_, hangs_up r m e, tt)
  broker-CanStep r (reporting x) m v e = inr (_, reports x e (i.unreported (rw e refl)).0, tt)
  broker-CanStep r closing m v e = inr (_, closes e, tt)
  broker-CanStep r ended m v e = inl (v, e, r, m)

  exited-CanStep :
      (r : Option GoError) (v : Serving) → s.main ≡ exited r → s.server ≡ v → IsOver s ⊎ CanStep s
  exited-CanStep r listening m e = inr (_, stops e (i.called (rw e refl) (rw m refl)), tt)
  exited-CanStep r (returned x) m e = inr (_, sends x e (i.unsent (rw e refl)), tt)
  exited-CanStep r sent m e = broker-CanStep r s.broker m e refl

  server-CanStep :
      (v : Serving) (b : Option GoError)
      → s.main ≡ selecting
      → s.server ≡ v
      → s.server_err ≡ b
      → s.server ≢ listening
      → CanStep s
  server-CanStep listening b m e f n = absurd (n e)
  server-CanStep (returned x) b m e f n = (_, sends x e (i.unsent (rw e refl)), tt)
  server-CanStep sent (some x) m e f n = (_, takes_failure x m f, tt)
  server-CanStep sent none m e f n = absurd (ground (arith, i.waits))

  connection-CanStep :
      (v : Broker) (b : Option GoError)
      → s.main ≡ selecting
      → s.broker ≡ v
      → s.conn_closed ≡ b
      → s.broker ≢ connected
      → CanStep s
  connection-CanStep connected b m e f n = absurd (n e)
  connection-CanStep (reporting x) b m e f n = (_, reports x e (i.unreported (rw e refl)).0, tt)
  connection-CanStep closing (some x) m e f n = (_, takes_loss x m f, tt)
  connection-CanStep closing none m e f n = absurd (ground (arith, i.heard))
  connection-CanStep ended (some x) m e f n = (_, takes_loss x m f, tt)
  connection-CanStep ended none m e f n = absurd (ground (arith, i.heard))

  ends_or_steps : (m : Main) → s.main ≡ m → IsEnding s → IsOver s ⊎ CanStep s
  ends_or_steps (exited r) m h = exited-CanStep r s.server m refl
  ends_or_steps (draining x) m h = inr (_, returns x none m, tt)
  ends_or_steps selecting m (inl h) = inr (_, takes_signal m h, tt)
  ends_or_steps selecting m (inr (inl h)) = inr (server-CanStep s.server s.server_err m refl refl h)
  ends_or_steps selecting m (inr (inr h)) =
      inr (connection-CanStep s.broker s.conn_closed m refl refl h)

-- While the API serves, no run has more than eight steps; and once a signal has come, the server has
-- failed or the connection is lost, the program always has a step of its own, until `run` has
-- returned and both goroutines have ended: neither of them waits for ever for room in its channel, and
-- the `select` misses neither. Shutdown returns at the end of its timeout at the latest.
pub goroutines_end :
    {s : State} (r : Reach s)
    → (steps r ≤ 8) × (IsEnding s → IsOver s ⊎ ((s' : State) × (step : Step s s') × IsOwnStep step))
goroutines_end {s} r =
    (omega (arith, steps-left r), λ h. ends_or_steps s (Reach-IsSound r) s.main refl h)
