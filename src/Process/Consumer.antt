-- ===== src/Process/Consumer.antt =====
-- cmd/consumer/main.go: start, consume and stop. The metrics server is left out.
use investment_engine.Prelude.{ℕ, Text, List, [], ◌∷◌, Option, none, some}
use investment_engine.GoError.{GoError, wrap}
use investment_engine.Execution.Consumer
use investment_engine.Execution.Consumer.{
  Libraries, State, Signal, Setup, Exit, running, stopped, failed, Outcome, setup_error,
}
use investment_engine.Execution.Topology.{Channel, setup_topology}
use investment_engine.Process.{
  signals, tracing, database, broker, price_client, consumes, Log, Action, deferring, opening,
  requiring, exit_code, channel,
}
use investment_engine.Process.Startup.{
  Telemetry, init, connect, error_of, dial, open_channel, new_client,
}

pub record Environment : Type 0 where
  pub telemetry : Telemetry
  pub database_url : Text
  pub open_error : Option GoError
  pub ping_error : Option GoError
  pub rabbitmq_url : Text
  pub dial_error : Option GoError
  pub price_service_addr : Text
  pub client_error : Option GoError
  pub channel_error : Option GoError
  pub declarations : Channel
  pub qos_error : Option GoError
  pub consume_error : Option GoError

-- What the calls before the loop of the consumer answer here.
abbrev pub setup : Environment → Setup
setup env = record {
  channel = open_channel env.channel_error;
  topology = (setup_topology env.declarations).0;
  qos = env.qos_error;
  consume = env.consume_error;
}

abbrev wrapped : Option GoError → Option GoError
wrapped none = none
wrapped (some e) = some (wrap "consumer returned an error while running: %w" e)

-- The loop of `consumer.Run` is reached only if the calls before it go through.
abbrev working : Option GoError → Log → Log
working none log = consumes ∷ log
working (some e) log = log

-- `consumer.Run`, which has returned `answer`; its own channel is closed by a `defer`.
abbrev with_channel : Option GoError → Option GoError → Option GoError → Action
with_channel (some e) setup_failed answer log = (answer, log)
with_channel none setup_failed answer log =
    deferring channel (λ log. (answer, working setup_failed log)) log

abbrev consuming : Option GoError → Option GoError → Option GoError → Action
consuming channel_error setup_failed answer log =
    let (e, log') = with_channel channel_error setup_failed answer log in (wrapped e, log')

-- `run`, where `consumer.Run` returns `answer`.
unfoldable pub run : Environment → Option GoError → Action
unfolding init connect dial open_channel new_client setup_error
run env answer = deferring signals (
    opening tracing (error_of (init env.telemetry)) (wrap "consumer: telemetry setup: %w") (
      requiring env.database_url "DATABASE_URL environment variable is required" (
        opening database (connect env.open_error env.ping_error).0
          (wrap "consumer: database setup: %w")
          (requiring env.rabbitmq_url "RABBITMQ_URL environment variable is required" (
            opening broker (dial env.dial_error) (wrap "consumer failed to dial: %w") (
              requiring env.price_service_addr "PRICE_SERVICE_ADDR environment variable is required"
                (opening price_client (new_client env.client_error)
                  (wrap "consumer: price service client setup: %w")
                  (consuming (open_channel env.channel_error) (setup_error (setup env))
                    answer))))))))

-- What `consumer.Run` has returned, if it has.
abbrev pub returned : Exit → Option (Option GoError)
returned running = none
returned stopped = some none
returned (failed e) = some (some e)

abbrev pub main_with : Environment → Option (Option GoError) → Option (ℕ × Log)
main_with env none = none
main_with env (some answer) = let (e, log) = run env answer [] in some (exit_code e, log)

-- `main` over what the consumer's `select` sees; `none` while the consumer runs on.
unfoldable pub main :
    {S : Type 0} → Environment → Libraries → List (Signal S) → State S → Option (ℕ × Log)
main env lib arrivals st = main_with env (returned (Consumer.run lib (setup env) arrivals st).exit)
