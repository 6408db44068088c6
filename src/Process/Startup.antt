-- ===== src/Process/Startup.antt =====
-- internal/postgres/connection.go, internal/telemetry/telemetry.go, internal/logging/logging.go and
-- the calls of internal/rabbitmq/connection.go and internal/priceservice/client.go that open and
-- close connections: what they make of the answers of the libraries below them.
use investment_engine.Prelude.{
  List, ◌∷◌, leb, String, ℕ, Text, codes, text_eq, texts, if◌then◌else◌, Bool, true, false, ◌||◌,
  not, [], Option, none, some, ◌≡◌, refl, ◌↔◌,
}
use investment_engine.GoError.{GoError, wrap}
use investment_engine.Result.{Result, ok, err}
use investment_engine.Strings.{to_lower}

-- `Connect`: the error, and whether a pool of connections stays open.
unfoldable pub connect : Option GoError → Option GoError → Option GoError × Bool
connect (some e) ping = (some (wrap "postgres: failed to open connection: %w" e), false)
connect none (some e) = (some (wrap "postgres: failed to reach database: %w" e), false)
connect none none = (none, true)

-- The variables OTEL_EXPORTER_OTLP_ENDPOINT and OTEL_EXPORTER_OTLP_TRACES_ENDPOINT, and the errors
-- of the two calls of `Init`.
pub record Telemetry : Type 0 where
  pub endpoint : Text
  pub traces_endpoint : Text
  pub exporter : Option GoError
  pub resource : Option GoError

unfoldable pub endpoint_configured : Telemetry → Bool
endpoint_configured t = not (text_eq t.endpoint []) || not (text_eq t.traces_endpoint [])

-- What `Init` leaves installed: the propagator, and perhaps an exporting provider.
pub data Tracing : Type 0 where
  forwarding exporting : Tracing

abbrev provider : Option GoError → Option GoError → Result Tracing
provider (some e) resource = err (wrap "telemetry: failed to create OTLP exporter: %w" e)
provider none (some e) = err (wrap "telemetry: failed to build resource: %w" e)
provider none none = ok exporting

unfoldable pub init : Telemetry → Result Tracing
unfolding endpoint_configured
init t = if not (endpoint_configured t) then ok forwarding else provider t.exporter t.resource

abbrev pub error_of {ℓ} : {A : Type ℓ} → Result A → Option GoError
error_of (ok a) = none
error_of (err e) = some e

-- `rabbitmq.Dial`, `Connection.Channel` and `priceservice.NewClient`.
abbrev wrapped_with : (GoError → GoError) → Option GoError → Option GoError
wrapped_with f none = none
wrapped_with f (some e) = some (f e)

unfoldable pub dial : Option GoError → Option GoError
dial e = wrapped_with (wrap "rabbitmq: failed to connect: %w") e

unfoldable pub open_channel : Option GoError → Option GoError
open_channel e = wrapped_with (wrap "rabbitmq: failed to open channel: %w") e

unfoldable pub new_client : Option GoError → Option GoError
new_client e = wrapped_with (wrap "creating new client: %w") e

-- `Connection.Close` and `Client.Close`.
unfoldable pub close_connection : Option GoError → Option GoError
close_connection e = wrapped_with (wrap "rabbitmq: failed to close connection: %w") e

unfoldable pub close_client : Option GoError → Option GoError
close_client e = e

pub data Level : Type 0 where
  debug info warn error : Level

-- `levelFromEnv`, on the variable LOG_LEVEL.
unfoldable pub level_from_env : (ℕ → ℕ) → Text → Level
unfolding to_lower
level_from_env lower value =
    if text_eq (to_lower lower value) (codes "debug")
    then debug
    else if text_eq (to_lower lower value) (codes "warn")
    then warn
    else if text_eq (to_lower lower value) (codes "error")
    then error
    else info

-- A logger of log/slog: its level and the attributes of all its records.
pub record Logger : Type 0 where
  pub level : Level
  pub attributes : List (String × String)

-- `New`
unfoldable pub new_logger : (ℕ → ℕ) → Text → String → Logger
unfolding level_from_env
new_logger lower value service = record {
  level = level_from_env lower value;
  attributes = ("service", service) ∷ [];
}

-- slog.Level as a number, 4 above that of the library, and whether a logger writes a record of this
-- level.
abbrev level_number : Level → ℕ
level_number debug = 0
level_number info = 4
level_number warn = 8
level_number error = 12

unfoldable pub writes : Logger → Level → Bool
writes logger level = leb (level_number logger.level) (level_number level)

error_written : (l : Level) → leb (level_number l) 12 ≡ true
error_written debug = refl
error_written info = refl
error_written warn = refl
error_written error = refl

-- Whatever LOG_LEVEL holds, errors are written.
pub new_logger-error :
    (lower : ℕ → ℕ) (value : Text) (service : String)
    → writes (new_logger lower value service) error ≡ true
unfolding writes new_logger
new_logger-error lower value service = error_written (level_from_env lower value)

-- `Init` exports nothing, and cannot fail, exactly if neither variable gives an endpoint.
pub init-forwarding_iff :
    (t : Telemetry) → (init t ≡ ok forwarding) ↔ ((t.endpoint ≡ []) × (t.traces_endpoint ≡ []))
unfolding init endpoint_configured text_eq
init-forwarding_iff t = (λ h. grind texts, λ (e, e'). rw (e, e') refl)
