-- ===== src/Process/Goroutines/Sound.antt =====
-- What keeps the goroutines of cmd/api/main.go from waiting for each other.
use investment_engine.Prelude.{Bool, true, false, none, ◌≡◌, refl, arith}
use investment_engine.Process.Goroutines.{
  Serving, sent, Broker, closing, ended, Main, selecting, State, begin, Step, fails, stops, sends,
  breaks, reports, hangs_up, closes, signals, takes_failure, takes_loss, takes_close, takes_signal,
  returns, Reach, here, next,
}

abbrev pub is_sent : Serving → Bool
is_sent sent = true
is_sent _ = false

-- The library has nothing more to report.
abbrev pub is_reported : Broker → Bool
is_reported closing = true
is_reported ended = true
is_reported _ = false

abbrev pub is_selecting : Main → Bool
is_selecting selecting = true
is_selecting _ = false

-- What keeps the sends from waiting, and the `select` from missing them.
pub record IsSound (s : State) : Type 0 where
  pub unsent : is_sent s.server ≡ false → s.server_err ≡ none
  pub waits : is_sent s.server ≡ true → s.server_err ≡ none → is_selecting s.main ≡ false
  pub unreported :
      is_reported s.broker ≡ false → (s.conn_closed ≡ none) × (s.channel_closed ≡ false)
  pub heard : is_reported s.broker ≡ true → s.conn_closed ≡ none → is_selecting s.main ≡ false
  pub before : is_selecting s.main ≡ true → s.shutdown_called ≡ false
  pub called : is_sent s.server ≡ false → is_selecting s.main ≡ false → s.shutdown_called ≡ true

begin-IsSound : IsSound begin
begin-IsSound = record {
  unsent = λ e. refl;
  waits = λ e. ground arith;
  unreported = λ e. (refl, refl);
  heard = λ e. ground arith;
  before = λ e. refl;
  called = λ e h. ground arith;
}

Step-IsSound : {s s' : State} → Step s s' → IsSound s → IsSound s'
Step-IsSound {s} (fails e own l) i = ground (arith, i)
Step-IsSound {s} (stops l c) i = ground (arith, i)
Step-IsSound {s} (sends e l b) i = ground (arith, i)
Step-IsSound {s} (breaks e l) i = ground (arith, i)
Step-IsSound {s} (reports e l b) i = ground (arith, i)
Step-IsSound {s} (hangs_up r m b) i = ground (arith, i)
Step-IsSound {s} (closes b) i = ground (arith, i)
Step-IsSound {s} (signals n) i = ground (arith, i)
Step-IsSound {s} (takes_failure e m b) i = ground (arith, i)
Step-IsSound {s} (takes_loss e m b) i = ground (arith, i)
Step-IsSound {s} (takes_close m b c) i = ground (arith, i)
Step-IsSound {s} (takes_signal m b) i = ground (arith, i)
Step-IsSound {s} (returns x y m) i = ground (arith, i)

pub Reach-IsSound : {s : State} → Reach s → IsSound s
Reach-IsSound here = begin-IsSound
Reach-IsSound (next r step) = Step-IsSound step (Reach-IsSound r)
