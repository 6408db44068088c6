-- ===== src/Tests/Messages.antt =====
-- A request, whose event goes through the order queue to a consumer.
use investment_engine.Prelude.{
  true, select, ◌≡◌, ◌≤◌, ◌⊎◌, refl, [], ◌∷◌, none, codes, All, text_eq,
}
use investment_engine.GoError.{new}
use investment_engine.Result.{ok}
use investment_engine.Http.{Response, user_id_from_context}
use investment_engine.Strings.{
  to_upper, to_upper_rune, trim_space, trim_left, is_space, is_upper_letter, is_digit,
}
use investment_engine.Order.Model.{is_valid_side, is_valid_execution_type, is_valid_status}
use investment_engine.Order.Event.{OrderCreatedEvent}
use investment_engine.Order.Store.{
  Db, empty_db, done, create, after_insert, admits_order, count_orders, fits_integer,
  count_executions,
}
use investment_engine.Order.Listing.Pages.{healthy}
use investment_engine.Order.Api.{State}
use investment_engine.Order.CreateOrder.{
  request, matches_asset_symbol_pattern, symbol_errors, quantity_errors, side_errors,
  execution_type_errors, normalized_symbol, field_errors, new_order, create_order,
}
use investment_engine.Order.PostgresStore.{postgres_order_store}
use investment_engine.Order.Publisher.{Attempt, Connection, publish_order_created, event_message}
use investment_engine.Order.AmqpPublisher.{amqp_publisher}
use investment_engine.System.Messages.{
  World, posted, settled, processed, unused, Run, posts, takes, here, next, empty_world, queued,
  count_bodies,
}
use investment_engine.System.Messages.Kept.{messages_kept}
use investment_engine.Prelude.{List}
use investment_engine.Tracing.{inject_trace_context}
use investment_engine.System.{Conditions}
use investment_engine.Execution.Consumer.{loop, Delivery}
use investment_engine.Tests.Data.{third_delivery}
use investment_engine.Order.Event.{new_order_created_event}
use investment_engine.Order.Model.{Order}
use investment_engine.Execution.Consumer.{Libraries}
use investment_engine.Order.CreateOrder.Laws.{create_order-IsCreated}
use investment_engine.Execution.Consumer.{shutdown}
use investment_engine.System.Messages.Published.{created_order_kept}
use investment_engine.System.Messages.Consuming.{kept_copies, consumed, signals, loop_consumes}
use investment_engine.Execution.Headers.{retry_attempt, lookup}
use investment_engine.System.Messages.{Move}
use investment_engine.System.Messages.Work.{IsCounted}
use investment_engine.System.Messages.Drained.{IsDraining, queues_drain, moves, stays}
use investment_engine.Prelude.{length, ◌+◌, ◌*◌}
use investment_engine.Tests.Data.{
  one_order, wire-IsWire, no_prices, upper, wire, sample_request, conditions, libraries, delivery,
  no_messages,
}

abbrev attempt : Attempt
attempt = record {
  open_error = none;
  marshal = λ event. ok (codes "event");
  trace_fields = [];
  publish_error = none;
  routed = true;
}

abbrev answered : Response × State Db Connection
answered =
    create_order upper (postgres_order_store healthy done (new "driver") 7) (amqp_publisher attempt)
      (request sample_request) 5 (record { store = empty_db; publisher = unused })

abbrev after_request : World
after_request = posted wire attempt.routed answered empty_world

abbrev after_delivery : World
after_delivery =
    let (st, actions) = processed libraries wire conditions delivery no_messages after_request in
    settled wire conditions.copy_kept delivery actions st.store
      (record { ready = []; retrying = []; dead = []; lost = [] }) after_request

one_waits : after_request.queues.ready ≡ delivery ∷ []
unfolding create_order field_errors symbol_errors quantity_errors side_errors execution_type_errors
    normalized_symbol matches_asset_symbol_pattern is_valid_side is_valid_execution_type to_upper
    to_upper_rune trim_space trim_left is_space is_upper_letter is_digit user_id_from_context
    new_order create after_insert admits_order count_orders fits_integer is_valid_status
    publish_order_created event_message inject_trace_context text_eq select
one_waits = refl

abbrev request_and_delivery : Run libraries wire empty_world after_delivery
request_and_delivery =
    next (next here (posts upper healthy done (new "driver") 7 attempt 5 (request sample_request)))
      (takes conditions delivery no_messages [] [] one_waits)

messages_kept_example :
    All
      (λ m.
        (1 ≤ queued m.body after_delivery.queues)
        ⊎ (1 ≤ count_bodies m.body after_delivery.queues.lost)
        ⊎ ((event : OrderCreatedEvent) × (libraries.unmarshal m.body ≡ ok event)
            × (count_executions event.order_id after_delivery.db.executions ≡ 1)))
      after_delivery.sent
messages_kept_example = messages_kept libraries wire request_and_delivery

-- A message about an order that waits, and a price service that does not answer.
abbrev waiting : World
waiting = record {
  db = one_order;
  queues = record { ready = delivery ∷ []; retrying = []; dead = []; lost = [] };
  sent = [];
}

delivery-IsCounted : IsCounted delivery
unfolding retry_attempt lookup
delivery-IsCounted = (0, refl)

abbrev after_failure : World
after_failure =
    let (st, actions) = processed libraries wire no_prices delivery no_messages waiting in
    settled wire no_prices.copy_kept delivery actions st.store
      (record { ready = []; retrying = []; dead = []; lost = [] }) waiting

queues_drain_example :
    (1 ≤ 5 * length (delivery ∷ []) + 6 * 0)
    × (((after_failure.queues.ready ≡ []) × (after_failure.queues.retrying ≡ []))
        ⊎ ((next_world : World) × (m : Move libraries wire after_failure next_world) × IsDraining
              wire wire-IsWire libraries m))
queues_drain_example =
    queues_drain wire wire-IsWire libraries conditions refl ((delivery-IsCounted, tt), tt)
      (moves stays (takes no_prices delivery no_messages [] [] refl) refl)

-- The consumer takes the message twice: a price is missing first, and the copy is not there yet.
abbrev twice : List (Conditions × Delivery)
twice = (no_prices, delivery) ∷ (conditions, delivery) ∷ []

abbrev two_waiting : World
two_waiting = record waiting {
  queues = record {
    ready = delivery ∷ delivery ∷ third_delivery ∷ [];
    retrying = [];
    dead = [];
    lost = [];
  };
}

loop_consumes_example : Run libraries wire two_waiting (
    consumed libraries wire
      (kept_copies twice)
      two_waiting
      (record two_waiting.queues { ready = [] })
      (third_delivery ∷ [])
      (loop libraries
        (signals twice (shutdown ∷ []))
        (record { store = one_order; messages_processed = no_messages })))
loop_consumes_example =
    loop_consumes libraries wire twice (shutdown ∷ []) two_waiting (third_delivery ∷ []) no_messages
      tt refl

created_201 : answered.0.status ≡ 201
unfolding create_order field_errors symbol_errors quantity_errors side_errors execution_type_errors
    normalized_symbol matches_asset_symbol_pattern is_valid_side is_valid_execution_type to_upper
    to_upper_rune trim_space trim_left is_space is_upper_letter is_digit user_id_from_context
    new_order create after_insert admits_order count_orders fits_integer is_valid_status
    publish_order_created event_message text_eq
created_201 = refl

abbrev created : Order
created =
    (create_order-IsCreated upper (postgres_order_store healthy done (new "driver") 7)
      (amqp_publisher attempt) 5 (record { store = empty_db; publisher = unused })
      (request sample_request) created_201).created

-- The body of the message is the event of this order.
abbrev published : Libraries
published = record libraries { unmarshal = λ body. ok (new_order_created_event created) }

abbrev after_published : World
after_published =
    let (st, actions) = processed published wire conditions delivery no_messages after_request in
    settled wire conditions.copy_kept delivery actions st.store
      (record { ready = []; retrying = []; dead = []; lost = [] }) after_request

created_order_kept_example :
    (1 ≤ queued (codes "event") after_published.queues)
    ⊎ (1 ≤ count_bodies (codes "event") after_published.queues.lost)
    ⊎ (count_executions 5 after_published.db.executions ≡ 1)
created_order_kept_example =
    created_order_kept published wire upper healthy done (new "driver") 7 attempt 5
      (request sample_request) empty_world created_201 (codes "event") refl refl refl refl here
      (next here (takes conditions delivery no_messages [] [] one_waits))
