-- ===== src/Clock.antt =====
-- What the program uses of Go's package time to measure durations: in nanoseconds, which `Seconds`
-- would only write in another unit.
use investment_engine.Prelude.{ℕ, ◌-◌}

-- `time.Since`: the monotonic clock does not go back.
abbrev pub since : ℕ → ℕ → ℕ
since start now = now - start
