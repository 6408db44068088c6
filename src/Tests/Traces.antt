-- ===== src/Tests/Traces.antt =====
-- Traces of messages (internal/rabbitmq/tracing.go) at concrete inputs.
use investment_engine.Prelude.{true, ap, ◌∙◌, select, ◌≡◌, refl, [], ◌∷◌, none, codes, All, text_eq}
use investment_engine.GoError.{new}
use investment_engine.Result.{ok}
use investment_engine.Http.{Response, user_id_from_context}
use investment_engine.Strings.{
  to_upper, to_upper_rune, trim_space, trim_left, is_space, is_upper_letter, is_digit,
}
use investment_engine.Order.Model.{is_valid_side, is_valid_execution_type, is_valid_status}
use investment_engine.Order.Store.{
  Db, empty_db, done, create, after_insert, admits_order, count_orders, fits_integer,
}
use investment_engine.Order.Listing.Pages.{healthy}
use investment_engine.Order.Api.{State}
use investment_engine.Order.CreateOrder.{
  request, matches_asset_symbol_pattern, symbol_errors, quantity_errors, side_errors,
  execution_type_errors, normalized_symbol, field_errors, new_order, create_order,
}
use investment_engine.Order.PostgresStore.{postgres_order_store}
use investment_engine.Order.Publisher.{Attempt, Connection, publish_order_created, event_message}
use investment_engine.Order.AmqpPublisher.{amqp_publisher}
use investment_engine.System.Messages.{
  World, posted, settled, processed, unused, Run, posts, takes, here, next, empty_world,
}
use investment_engine.Execution.Consumer.{Delivery}
use investment_engine.Tests.Data.{no_prices, upper, wire, sample_request, libraries, no_messages}
use investment_engine.Tracing.{Propagator, IsPropagator, inject_trace_context}
use investment_engine.System.Messages.Origins.{Joins, deliveries_join_trace}
use investment_engine.Execution.Headers.{
  carrier_set, insert, int, int32, str, other, Value, text_of,
}
use investment_engine.Prelude.{String, some}

-- A context that is its trace.
abbrev propagator : Propagator String
propagator = record {
  fields = "traceparent" ∷ [];
  set_calls = λ c. ("traceparent", c) ∷ [];
  extract = λ get c. get "traceparent";
}

propagator-IsPropagator : IsPropagator propagator some
propagator-IsPropagator = record {
  apart = (refl, tt);
  reads = λ get get' c same. same.0;
  distinct = λ c. (tt, tt);
  joins = λ get c c' t has set. ap some set.0 ∙ has;
}

abbrev attempt : Attempt
attempt = record {
  open_error = none;
  marshal = λ event. ok (codes "event");
  trace_fields = ("traceparent", "00-1") ∷ [];
  publish_error = none;
  routed = true;
}

abbrev answered : Response × State Db Connection
answered =
    create_order upper (postgres_order_store healthy done (new "driver") 7) (amqp_publisher attempt)
      (request sample_request) 5 (record { store = empty_db; publisher = unused })

abbrev after_request : World
after_request = posted wire attempt.routed answered empty_world

abbrev traced : Delivery
traced = record { headers = ("traceparent", str "00-1") ∷ []; body = codes "event" }

-- The price service does not answer, and so a copy waits in the retry queue.
abbrev after_delivery : World
after_delivery =
    let (st, actions) = processed libraries wire no_prices traced no_messages after_request in
    settled wire no_prices.copy_kept traced actions st.store
      (record { ready = []; retrying = []; dead = []; lost = [] }) after_request

one_waits : after_request.queues.ready ≡ traced ∷ []
unfolding create_order field_errors symbol_errors quantity_errors side_errors execution_type_errors
    normalized_symbol matches_asset_symbol_pattern is_valid_side is_valid_execution_type to_upper
    to_upper_rune trim_space trim_left is_space is_upper_letter is_digit user_id_from_context
    new_order create after_insert admits_order count_orders fits_integer is_valid_status
    publish_order_created event_message inject_trace_context carrier_set insert text_eq select
one_waits = refl

abbrev request_and_delivery : Run libraries wire empty_world after_delivery
request_and_delivery =
    next (next here (posts upper healthy done (new "driver") 7 attempt 5 (request sample_request)))
      (takes no_prices traced no_messages [] [] one_waits)

wire_texts : (v : Value) → text_of (some (wire v)) ≡ text_of (some v)
wire_texts (int n) = refl
wire_texts (int32 n) = refl
wire_texts (str s) = refl
wire_texts other = refl

deliveries_join_trace_example :
    let joins =
      Joins wire wire_texts propagator some propagator-IsPropagator libraries after_delivery.sent in
    All joins after_delivery.queues.ready
    × All joins after_delivery.queues.retrying
    × All joins after_delivery.queues.dead
deliveries_join_trace_example =
    deliveries_join_trace wire wire_texts propagator some propagator-IsPropagator libraries
      request_and_delivery
