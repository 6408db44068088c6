-- ===== src/Tests/Consumer.antt =====
-- The consumer of internal/execution at concrete inputs.
use investment_engine.Prelude.{String, ◌⊎◌, length, ◌+◌, ◌≡◌, false, List, [], ◌∷◌, none}
use investment_engine.Result.{ok}
use investment_engine.Order.Store.{Db}
use investment_engine.Order.PostgresStore.{postgres_execution_store}
use investment_engine.Execution.Handler.{handle_order_created}
use investment_engine.Execution.Handler.Contract.{by_kind, decoded_kind, handle_order_created-kinds}
use investment_engine.Execution.Consumer.{Signal, arrives, process, loop, Setup}
use investment_engine.Execution.Consumer.Settling.{Settled, process-Settled, processed_in_all}
use investment_engine.Execution.Consumer.Loop.{settled_deliveries, loop-metrics}
use investment_engine.System.{circumstances}
use investment_engine.Tests.Data.{
  status_code, status_code-IsStatusCode, libraries, conditions, no_prices, delivery, third_delivery,
  start, one_order, sample_event,
}

handle_order_created-kinds_example :
    by_kind status_code
      (postgres_execution_store conditions.faults 9 8)
      libraries.unmarshal
      no_prices.prices
      (handle_order_created
        (postgres_execution_store conditions.faults 9 8)
        libraries.unmarshal
        no_prices.prices
        delivery.body
        one_order)
    ≡ decoded_kind status_code
        (postgres_execution_store conditions.faults 9 8)
        libraries.unmarshal
        no_prices.prices
        (ok sample_event)
        one_order
handle_order_created-kinds_example =
    handle_order_created-kinds status_code (postgres_execution_store conditions.faults 9 8)
      libraries.unmarshal no_prices.prices status_code-IsStatusCode delivery.body one_order

process-Settled_example :
    Settled third_delivery
      (handle_order_created
        (circumstances no_prices).store
        libraries.unmarshal
        no_prices.prices
        third_delivery.body
        one_order).0
      (process libraries (circumstances no_prices) third_delivery start).1
process-Settled_example = process-Settled libraries (circumstances no_prices) third_delivery start

abbrev signals : List (Signal Db)
signals =
    arrives false (circumstances no_prices) delivery
    ∷ arrives false (circumstances conditions) third_delivery
    ∷ []

abbrev no_errors : Setup
no_errors = record { channel = none; topology = none; qos = none; consume = none }

abbrev other : String
other = "permanent_failure"

loop-metrics_example :
    let out = loop libraries signals start in
    (processed_in_all out.state.messages_processed ≡ 0 + settled_deliveries out.log)
    × (length out.durations ≡ settled_deliveries out.log)
    × (out.durations ≡ 600 ∷ 600 ∷ [])
    × ((other ≡ "success")
        ⊎ (other ≡ "permanent")
        ⊎ (other ≡ "transient")
        ⊎ (out.state.messages_processed other ≡ 0))
loop-metrics_example = loop-metrics libraries signals start other
