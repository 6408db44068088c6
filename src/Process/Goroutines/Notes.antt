-- ===== src/Process/Goroutines/Notes.antt =====
-- Which errors the goroutines of cmd/api/main.go pass on through their channels.
use investment_engine.Prelude.{false, none, some, ◌≡◌, ◌≢◌, refl, ◌⊎◌, inl, inr, arith}
use investment_engine.GoError.{GoError}
use investment_engine.Process.Goroutines.{
  server_closed, listening, returned, connected, reporting, State, begin, Step, fails, stops, sends,
  breaks, reports, hangs_up, closes, signals, takes_failure, takes_loss, takes_close, takes_signal,
  returns, Reach, here, next,
}
use investment_engine.Process.Goroutines.Sound.{IsSound, Reach-IsSound}

-- An error of the server that is not the one of a shutdown.
abbrev pub IsFailure : State → GoError → Type 0
IsFailure s e = (e ≢ server_closed) × (s.failure ≡ some e)

-- The error of the server is its own unless Shutdown was called, and that of the connection is the
-- one with which it was lost.
pub record IsNoted (s : State) : Type 0 where
  own : (e : GoError) → s.shutdown_called ≡ false → s.server ≡ returned e → IsFailure s e
  pub own_sent : (e : GoError) → s.shutdown_called ≡ false → s.server_err ≡ some e → IsFailure s e
  pub fresh : s.server ≡ listening → s.failure ≡ none
  pub whole : s.broker ≡ connected → (s.lost ≡ none) × (s.conn_closed ≡ none)
  noticed : (e : GoError) → s.broker ≡ reporting e → s.lost ≡ some e
  pub passed_on : (e : GoError) → s.conn_closed ≡ some e → s.lost ≡ some e

Step-own :
    {s s' : State}
    → Step s s'
    → IsSound s
    → IsNoted s
    → (e : GoError) → s'.shutdown_called ≡ false
    → ((s'.server ≡ returned e) ⊎ (s'.server_err ≡ some e))
    → IsFailure s' e
Step-own {s} (fails e' own l) i t e c h = ground (arith, t.own e, t.own_sent e, i)
Step-own {s} (stops l c') i t e c h = ground (arith, t.own e, t.own_sent e)
Step-own {s} (sends e' l b) i t e c h = ground (arith, t.own e, t.own_sent e, t.own e')
Step-own {s} (breaks e' l) i t e c h = ground (arith, t.own e, t.own_sent e)
Step-own {s} (reports e' l b) i t e c h = ground (arith, t.own e, t.own_sent e)
Step-own {s} (hangs_up r m b) i t e c h = ground (arith, t.own e, t.own_sent e)
Step-own {s} (closes b) i t e c h = ground (arith, t.own e, t.own_sent e)
Step-own {s} (signals n) i t e c h = ground (arith, t.own e, t.own_sent e)
Step-own {s} (takes_failure e' m b) i t e c h = ground (arith, t.own e, t.own_sent e)
Step-own {s} (takes_loss e' m b) i t e c h = ground (arith, t.own e, t.own_sent e)
Step-own {s} (takes_close m b c') i t e c h = ground (arith, t.own e, t.own_sent e)
Step-own {s} (takes_signal m b) i t e c h = ground (arith, t.own e, t.own_sent e)
Step-own {s} (returns x y m) i t e c h = ground (arith, t.own e, t.own_sent e)

Step-fresh : {s s' : State} → Step s s' → IsNoted s → s'.server ≡ listening → s'.failure ≡ none
Step-fresh {s} (fails e' own l) t h = ground (arith, t.fresh)
Step-fresh {s} (stops l c') t h = ground (arith, t.fresh)
Step-fresh {s} (sends e' l b) t h = ground (arith, t.fresh)
Step-fresh {s} (breaks e' l) t h = ground (arith, t.fresh)
Step-fresh {s} (reports e' l b) t h = ground (arith, t.fresh)
Step-fresh {s} (hangs_up r m b) t h = ground (arith, t.fresh)
Step-fresh {s} (closes b) t h = ground (arith, t.fresh)
Step-fresh {s} (signals n) t h = ground (arith, t.fresh)
Step-fresh {s} (takes_failure e' m b) t h = ground (arith, t.fresh)
Step-fresh {s} (takes_loss e' m b) t h = ground (arith, t.fresh)
Step-fresh {s} (takes_close m b c') t h = ground (arith, t.fresh)
Step-fresh {s} (takes_signal m b) t h = ground (arith, t.fresh)
Step-fresh {s} (returns x y m) t h = ground (arith, t.fresh)

-- What the broker's goroutine and its channel hold of the loss.
abbrev IsLost : State → Type 0
IsLost s =
    (s.broker ≡ connected → (s.lost ≡ none) × (s.conn_closed ≡ none))
    × ((e : GoError) → s.broker ≡ reporting e → s.lost ≡ some e)
    × ((e : GoError) → s.conn_closed ≡ some e → s.lost ≡ some e)

Step-IsLost : {s s' : State} → Step s s' → IsNoted s → IsLost s'
Step-IsLost {s} (fails e' own l) t = (
  λ h. ground (arith, t.whole),
  λ x h. ground (arith, t.noticed x),
  λ x h. ground (arith, t.whole, t.noticed x, t.passed_on x),
)
Step-IsLost {s} (stops l c') t = (
  λ h. ground (arith, t.whole),
  λ x h. ground (arith, t.noticed x),
  λ x h. ground (arith, t.whole, t.noticed x, t.passed_on x),
)
Step-IsLost {s} (sends e' l b) t = (
  λ h. ground (arith, t.whole),
  λ x h. ground (arith, t.noticed x),
  λ x h. ground (arith, t.whole, t.noticed x, t.passed_on x),
)
Step-IsLost {s} (breaks e' l) t = (
  λ h. ground (arith, t.whole),
  λ x h. ground (arith, t.noticed x),
  λ x h. ground (arith, t.whole, t.noticed x, t.passed_on x),
)
Step-IsLost {s} (reports e' l b) t = (
  λ h. ground (arith, t.whole),
  λ x h. ground (arith, t.noticed x),
  λ x h. ground (arith, t.whole, t.noticed x, t.passed_on x),
)
Step-IsLost {s} (hangs_up r m b) t = (
  λ h. ground (arith, t.whole),
  λ x h. ground (arith, t.noticed x),
  λ x h. ground (arith, t.whole, t.noticed x, t.passed_on x),
)
Step-IsLost {s} (closes b) t = (
  λ h. ground (arith, t.whole),
  λ x h. ground (arith, t.noticed x),
  λ x h. ground (arith, t.whole, t.noticed x, t.passed_on x),
)
Step-IsLost {s} (signals n) t = (
  λ h. ground (arith, t.whole),
  λ x h. ground (arith, t.noticed x),
  λ x h. ground (arith, t.whole, t.noticed x, t.passed_on x),
)
Step-IsLost {s} (takes_failure e' m b) t = (
  λ h. ground (arith, t.whole),
  λ x h. ground (arith, t.noticed x),
  λ x h. ground (arith, t.whole, t.noticed x, t.passed_on x),
)
Step-IsLost {s} (takes_loss e' m b) t = (
  λ h. ground (arith, t.whole),
  λ x h. ground (arith, t.noticed x),
  λ x h. ground (arith, t.whole, t.noticed x, t.passed_on x),
)
Step-IsLost {s} (takes_close m b c') t = (
  λ h. ground (arith, t.whole),
  λ x h. ground (arith, t.noticed x),
  λ x h. ground (arith, t.whole, t.noticed x, t.passed_on x),
)
Step-IsLost {s} (takes_signal m b) t = (
  λ h. ground (arith, t.whole),
  λ x h. ground (arith, t.noticed x),
  λ x h. ground (arith, t.whole, t.noticed x, t.passed_on x),
)
Step-IsLost {s} (returns x y m) t = (
  λ h. ground (arith, t.whole),
  λ x h. ground (arith, t.noticed x),
  λ x h. ground (arith, t.whole, t.noticed x, t.passed_on x),
)

Step-IsNoted : {s s' : State} → Step s s' → IsSound s → IsNoted s → IsNoted s'
Step-IsNoted step i t = record {
  own = λ e c h. Step-own step i t e c (inl h);
  own_sent = λ e c h. Step-own step i t e c (inr h);
  fresh = Step-fresh step t;
  whole = (Step-IsLost step t).0;
  noticed = (Step-IsLost step t).1;
  passed_on = (Step-IsLost step t).2;
}

begin-IsNoted : IsNoted begin
begin-IsNoted = record {
  own = λ e c h. absurd (cc);
  own_sent = λ e c h. absurd (cc);
  fresh = λ h. refl;
  whole = λ h. (refl, refl);
  noticed = λ e h. absurd (cc);
  passed_on = λ e h. absurd (cc);
}

pub Reach-IsNoted : {s : State} → Reach s → IsNoted s
Reach-IsNoted here = begin-IsNoted
Reach-IsNoted (next r step) = Step-IsNoted step (Reach-IsSound r) (Reach-IsNoted r)
