-- ===== src/Tests/Process.antt =====
-- The binaries of cmd/ at concrete inputs.
use investment_engine.Prelude.{◌≡◌, refl, none, some, [], ◌∷◌, List, codes, false, text_eq}
use investment_engine.GoError.{new}
use investment_engine.Order.Store.{Db}
use investment_engine.Execution.Consumer
use investment_engine.Execution.Consumer.{Signal, shutdown, arrives}
use investment_engine.Execution.Topology.{setup_messaging, declare_direct_exchange}
use investment_engine.Process.{
  signals, tracing, database, broker, channel, price_client, acquired, released, serves, consumes,
  drained, Log,
}
use investment_engine.Process.Startup.{
  Telemetry, init, endpoint_configured, connect, dial, open_channel,
}
use investment_engine.Process.Api
use investment_engine.Process.Api.{signalled, connection_lost}
use investment_engine.Process.Consumer as ConsumerProcess
use investment_engine.Process.Orderly.{held, api-held}
use investment_engine.Process.Exit.{api_exit}
use investment_engine.Tests.Data.{conditions, delivery}
use investment_engine.System.{circumstances}

abbrev no_tracing : Telemetry
no_tracing = record { endpoint = []; traces_endpoint = []; exporter = none; resource = none }

abbrev api : Api.Environment
api = record {
  telemetry = no_tracing;
  database_url = codes "postgres://db";
  open_error = none;
  ping_error = none;
  rabbitmq_url = codes "amqp://broker";
  dial_error = none;
  channel_error = none;
  declarations = λ d. none;
  stop = signalled;
  shutdown_error = none;
}

abbrev broker_lost : Api.Environment
broker_lost = record api {
  stop = connection_lost (some (new "EOF"));
  shutdown_error = some (new "timeout");
}

api-held_example : held (Api.run broker_lost []).1 ≡ some []
api-held_example = api-held broker_lost

api_code : (Api.main api).0 ≡ 0
unfolding Api.run init endpoint_configured connect dial open_channel setup_messaging
    declare_direct_exchange text_eq
api_code = refl

api_exit_example :
    (api.stop ≡ signalled)
    × ((Api.main api).1
        ≡ released signals
          ∷ released tracing
          ∷ released database
          ∷ released broker
          ∷ drained
          ∷ serves
          ∷ released channel
          ∷ acquired channel
          ∷ acquired broker
          ∷ acquired database
          ∷ acquired tracing
          ∷ acquired signals
          ∷ [])
api_exit_example = api_exit api api_code

abbrev consumer : ConsumerProcess.Environment
consumer = record {
  telemetry = no_tracing;
  database_url = codes "postgres://db";
  open_error = none;
  ping_error = none;
  rabbitmq_url = codes "amqp://broker";
  dial_error = none;
  price_service_addr = codes "prices:50051";
  client_error = none;
  channel_error = none;
  declarations = λ d. none;
  qos_error = none;
  consume_error = none;
}

abbrev arrivals : List (Signal Db)
arrivals = arrives false (circumstances conditions) delivery ∷ shutdown ∷ []

abbrev consumer_log : Log
consumer_log =
    released signals
    ∷ released tracing
    ∷ released database
    ∷ released broker
    ∷ released price_client
    ∷ released channel
    ∷ consumes
    ∷ acquired channel
    ∷ acquired price_client
    ∷ acquired broker
    ∷ acquired database
    ∷ acquired tracing
    ∷ acquired signals
    ∷ []
