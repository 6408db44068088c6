-- ===== src/Execution/Consumer/DeadLetters.antt =====
-- When internal/execution/consumer.go gives a message up.
use investment_engine.Prelude.{pos, leb_ℤ, true, Option, none, some, ◌≡◌, ◌⊎◌}
use investment_engine.GoError.{GoError, GrpcCode}
use investment_engine.Execution.Failure.{permanent_failure, classify_failure}
use investment_engine.Execution.Headers.{retry_attempt}
use investment_engine.Execution.Consumer.{Delivery}

-- The failure is permanent, or the header says that two deliveries have failed before this one.
abbrev pub GivesUp : (GoError → GrpcCode) → Delivery → Option GoError → Type 0
GivesUp code d none = ⊥
GivesUp code d (some e) =
    (classify_failure code e ≡ permanent_failure) ⊎ (leb_ℤ (pos 2) (retry_attempt d.headers) ≡ true)
