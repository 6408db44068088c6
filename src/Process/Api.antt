-- ===== src/Process/Api.antt =====
-- cmd/api/main.go: start, serve, drain and stop. The metrics server, which takes no part in the
-- shutdown, is left out.
use investment_engine.Prelude.{ℕ, Text, [], ◌∷◌, Option, none, some}
use investment_engine.GoError.{GoError, new, wrap}
use investment_engine.Execution.Topology.{Channel, setup_messaging}
use investment_engine.Process.{
  signals, tracing, database, broker, channel, acquired, released, serves, drained, Log, Action,
  fail, deferring, opening, requiring, exit_code,
}
use investment_engine.Process.Startup.{Telemetry, init, connect, error_of, dial, open_channel}

-- Which case of the `select` runs: the server failed, the connection to the broker closed (with its
-- error, if there is one), or a signal came.
pub data Stop : Type 0 where
  server_failed : GoError → Stop
  connection_lost : Option GoError → Stop
  signalled : Stop

pub record Environment : Type 0 where
  pub telemetry : Telemetry
  pub database_url : Text
  pub open_error : Option GoError
  pub ping_error : Option GoError
  pub rabbitmq_url : Text
  pub dial_error : Option GoError
  pub channel_error : Option GoError
  pub declarations : Channel
  pub stop : Stop
  pub shutdown_error : Option GoError

abbrev pub lost_error : Option GoError → GoError
lost_error none = new "api: rabbitmq connection lost"
lost_error (some e) = wrap "api: rabbitmq connection lost: %w" e

abbrev stop_error : Stop → Option GoError
stop_error (server_failed e) = none
stop_error (connection_lost e) = some (lost_error e)
stop_error signalled = none

-- `srv.Shutdown`, with `stopErr` at hand.
abbrev pub shut_down : Option GoError → Option GoError → Action
shut_down (some e) stop_err log = (some (wrap "api: graceful shutdown failed: %w" e), log)
shut_down none stop_err log = (stop_err, drained ∷ log)

abbrev select_stop : Stop → Option GoError → Action
select_stop (server_failed e) shutdown_error log = (some (wrap "api: server failed: %w" e), log)
select_stop (connection_lost e) shutdown_error log =
    shut_down shutdown_error (stop_error (connection_lost e)) log
select_stop signalled shutdown_error log = shut_down shutdown_error none log

abbrev serving : Stop → Option GoError → Action
serving stop shutdown_error log = select_stop stop shutdown_error (serves ∷ log)

abbrev then_serving : Option GoError → Action → Action
then_serving (some e) rest log = (some (wrap "api: order messaging setup: %w" e), log)
then_serving none rest log = rest log

-- The setup channel is closed on both paths.
abbrev setting_up : Option GoError → Option GoError → Action → Action
setting_up (some e) declare_error rest log = fail (wrap "api: order messaging setup: %w" e) log
setting_up none declare_error rest log =
    then_serving declare_error rest (released channel ∷ acquired channel ∷ log)

-- `run`
unfoldable pub run : Environment → Action
unfolding init connect dial open_channel setup_messaging
run env = deferring signals (
    opening tracing (error_of (init env.telemetry)) (wrap "api: telemetry setup: %w") (
      requiring env.database_url "DATABASE_URL environment variable is required" (
        opening database (connect env.open_error env.ping_error).0 (wrap "api: database setup: %w")
          (requiring env.rabbitmq_url "RABBITMQ_URL environment variable is required" (
            opening broker (dial env.dial_error) (wrap "api: rabbitmq setup: %w") (
              setting_up (open_channel env.channel_error) (setup_messaging env.declarations).0
                (serving env.stop env.shutdown_error)))))))

-- `main`
abbrev pub main : Environment → ℕ × Log
main env = let (e, log) = run env [] in (exit_code e, log)
