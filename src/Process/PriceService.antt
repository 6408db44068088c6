-- ===== src/Process/PriceService.antt =====
-- cmd/priceservice/main.go. `os.Exit` ends the process at once: no deferred call runs.
use investment_engine.Prelude.{ℕ, [], ◌∷◌, Option, none, some, ◌≡◌, ◌↔◌, arith}
use investment_engine.GoError.{GoError}
use investment_engine.Process.{tracing, acquired, released, serves, Log}
use investment_engine.Process.Startup.{Telemetry, init, error_of}

pub record Environment : Type 0 where
  pub telemetry : Telemetry
  pub listen_error : Option GoError
  pub serve_error : Option GoError

abbrev os_exit : Log → ℕ × Log
os_exit log = (1, log)

abbrev returning : Log → ℕ × Log
returning log = (0, released tracing ∷ log)

abbrev served : Option GoError → Log → ℕ × Log
served (some e) log = os_exit log
served none log = returning log

abbrev listened : Option GoError → Option GoError → Log → ℕ × Log
listened (some e) serve_error log = os_exit log
listened none serve_error log = served serve_error (serves ∷ log)

abbrev started : Option GoError → Option GoError → Option GoError → Log → ℕ × Log
started (some e) listen_error serve_error log = os_exit log
started none listen_error serve_error log =
    listened listen_error serve_error (acquired tracing ∷ log)

-- `main`: the exit code and the log.
unfoldable pub main : Environment → ℕ × Log
unfolding init
main env = started (error_of (init env.telemetry)) env.listen_error env.serve_error []

-- The spans are flushed exactly if the server ends without an error: an exit code other than 0 means
-- that tracing, where it was set up, was left as it was.
pub main-flushes_iff :
    (env : Environment)
    → ((main env).0 ≡ 0) ↔ ((main env).1 ≡ released tracing ∷ serves ∷ acquired tracing ∷ [])
unfolding main
main-flushes_iff env = (λ h. ground arith, λ h. ground arith)
