-- ===== src/Tests/Broker.antt =====
-- The publisher and the topology at concrete inputs.
use investment_engine.Prelude.{
  ℕ, ◌≡◌, refl, ◌+◌, length, List, [], ◌∷◌, true, false, none, some, ◌⊎◌, codes,
}
use investment_engine.GoError.{GoError, new}
use investment_engine.Result.{ok}
use investment_engine.Order.Publisher.{
  Attempt, Connection, publish_order_created, await_return, begin, publishes, returns,
  events_exchange,
}
use investment_engine.Order.Publisher.Channels.{Run-Balanced, publish_order_created-sent}
use investment_engine.Execution.Topology.{
  Channel, binding, setup_topology, order_queue, setup_messaging, declare_direct_exchange,
  declare_durable_queue, bind_queue,
}
use investment_engine.Execution.Topology.Routing.{
  time_to_live, routes, dead_letters, is_ordered, setup_topology-routes,
}
use investment_engine.Tracing.{inject_trace_context}
use investment_engine.Execution.Headers.{int32}
use investment_engine.Prelude.{some, pos}
use investment_engine.Tests.Data.{sample_event}

abbrev attempt : Attempt
attempt = record {
  open_error = none;
  marshal = λ event. ok (codes "event");
  trace_fields = ("traceparent", "00-1") ∷ [];
  publish_error = none;
  routed = true;
}

abbrev failing : Attempt
failing = record attempt { publish_error = some (new "channel closed") }

abbrev idle : Connection
idle = record { opened = 0; closed = 0; sent = []; waiting = []; warned = [] }

abbrev after_two : Connection
after_two =
    (publish_order_created failing sample_event
      (publish_order_created attempt sample_event idle).1).1

one_waits : after_two.waiting ≡ 5 ∷ []
unfolding publish_order_created
one_waits = refl

Run-Balanced_example :
    (await_return true [] 5 [] after_two).opened
    ≡ (await_return true [] 5 [] after_two).closed
      + length (await_return true [] 5 [] after_two).waiting
Run-Balanced_example =
    Run-Balanced
      (returns true [] 5 [] one_waits
        (publishes failing sample_event (publishes attempt sample_event begin)))
      refl

publish_order_created-sent_example :
    (((publish_order_created attempt sample_event idle).0 ≡ none)
      × ((body : List ℕ) × (attempt.marshal sample_event ≡ ok body)
          × ((publish_order_created attempt sample_event idle).1.sent
              ≡ record {
                exchange = "order_events";
                routing_key = "order.created";
                mandatory = true;
                persistent = true;
                content_type = "application/json";
                headers = inject_trace_context (("traceparent", "00-1") ∷ []) [];
                body = body;
              }
                ∷ [])
          × ((publish_order_created attempt sample_event idle).1.waiting ≡ 5 ∷ [])))
    ⊎ (((e : GoError) × ((publish_order_created attempt sample_event idle).0 ≡ some e))
        × ((publish_order_created attempt sample_event idle).1.sent ≡ [])
        × ((publish_order_created attempt sample_event idle).1.waiting ≡ []))
publish_order_created-sent_example = publish_order_created-sent attempt sample_event idle

abbrev willing : Channel
willing d = none

willing-nil : (setup_topology willing).0 ≡ none
unfolding setup_topology setup_messaging declare_direct_exchange declare_durable_queue bind_queue
willing-nil = refl

setup_topology-routes_example :
    let made = (setup_topology willing).1 in
    (routes made "order_events" "order.created" ≡ "order_execution" ∷ [])
    × (dead_letters made "order_execution" ≡ "order_execution.dlq" ∷ [])
    × (dead_letters made "order_execution.retry" ≡ "order_execution" ∷ [])
    × (dead_letters made "order_execution.dlq" ≡ [])
    × (routes made "" "order_execution.retry" ≡ "order_execution.retry" ∷ [])
    × (time_to_live made "order_execution.retry" ≡ some (int32 (pos 5000)))
setup_topology-routes_example = setup_topology-routes willing willing-nil

-- A binding before its queue is out of order.
binding_too_early : is_ordered [] (binding order_queue events_exchange "" ∷ []) ≡ false
unfolding is_ordered
binding_too_early = refl
