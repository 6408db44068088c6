-- ===== src/Tests/System.antt =====
-- The whole program at concrete inputs.
use investment_engine.Prelude.{◌≡◌, ◌≤◌, refl, pos, [], ◌∷◌, arith, none, text_eq, true}
use investment_engine.GoError.{new}
use investment_engine.Result.{ok}
use investment_engine.Http.{Response, user_id_from_context}
use investment_engine.Strings.{
  to_upper, to_upper_rune, trim_space, trim_left, is_space, is_upper_letter, is_digit,
}
use investment_engine.Order.Model.{
  status_pending, status_executed, is_valid_side, is_valid_execution_type, is_valid_status,
}
use investment_engine.Order.Event.{validate, validate_limit_price}
use investment_engine.Order.Store.{
  Db, empty_db, done, create, after_insert, admits_order, count_orders, fits_integer, count_with,
  count_executions, count_execution_ids,
}
use investment_engine.Order.Store.Invariant.{executed}
use investment_engine.Order.Listing.Pages.{healthy}
use investment_engine.Order.Api.{State}
use investment_engine.Order.CreateOrder.{
  request, matches_asset_symbol_pattern, symbol_errors, quantity_errors, side_errors,
  execution_type_errors, normalized_symbol, field_errors, new_order, create_order,
}
use investment_engine.Order.CreateOrder.Laws.{create_order-IsCreated}
use investment_engine.Order.PostgresStore.{postgres_order_store}
use investment_engine.Execution.Consumer.{Libraries, increment, process}
use investment_engine.System.{silent, circumstances, creates, delivers, here, next}
use investment_engine.System.AtMostOnce.{at_most_once}
use investment_engine.System.Recovery.{outage_recovers, IsOutage}
use investment_engine.System.Statuses.{reached_statuses}
use investment_engine.System.UnknownSymbol.{unknown_symbol_rejected}
use investment_engine.System.{Conditions, Reach}
use investment_engine.Execution.Consumer.{reject, Libraries}
use investment_engine.Execution.Consumer.Retries
use investment_engine.Execution.Consumer.Retries.{follow}
use investment_engine.Execution.Headers.{retry_attempt, lookup}
use investment_engine.PriceService.{FloatOps, base_price, base_prices, get_price, get_quote}
use investment_engine.Tests.Data.{wire, wire-IsWire, status_code-IsStatusCode, no_prices}
use investment_engine.Execution.Failure.{classify_failure, classify_code, transient_failure}
use investment_engine.GoError.{errors_is, status, unavailable}
use investment_engine.Order.Event.{OrderCreatedEvent}
use investment_engine.Prelude.{All, false, ◌⊎◌, codes, map, ◌++◌}
use investment_engine.Tests.Data.{
  upper, sample_request, sample_event, one_order, one_order-IsConsistent, healthy_faults-IsHealthy,
  conditions, libraries, delivery, no_messages, sample_price,
}

abbrev pub begin : State Db (Unit {0})
begin = record { store = empty_db; publisher = tt }

abbrev pub answered : Response × State Db (Unit {0})
answered =
    create_order upper (postgres_order_store healthy done (new "driver") 7) silent
      (request sample_request) 5 begin

-- The order is created, and the same message is delivered twice.
abbrev first_delivery : Db
first_delivery =
    (process libraries (circumstances conditions) delivery
      (record { store = answered.1.store; messages_processed = no_messages })).0.store

abbrev second_delivery : Db
second_delivery =
    (process libraries (circumstances (record conditions { execution_id = 10 })) delivery
      (record { store = first_delivery; messages_processed = no_messages })).0.store

created_and_delivered : Reach libraries empty_db second_delivery
created_and_delivered =
    next
      (next (next here (creates upper healthy done (new "driver") 7 5 (request sample_request)))
        (delivers conditions delivery no_messages))
      (delivers (record conditions { execution_id = 10 }) delivery no_messages)

at_most_once_example :
    (count_executions 5 second_delivery.executions ≤ 1)
    × (count_executions 5 second_delivery.executions
        ≡ count_with status_executed 5 second_delivery.orders)
at_most_once_example = at_most_once libraries created_and_delivered 5

reached_statuses_example :
    All (λ o. (o.status ≡ status_pending) ⊎ (o.status ≡ status_executed)) second_delivery.orders
reached_statuses_example = reached_statuses libraries created_and_delivered

fits : fits_integer (pos 10) ≡ true
unfolding fits_integer
fits = refl

pending : count_with status_pending 5 one_order.orders ≡ 1
unfolding count_with text_eq
pending = refl

pub no_execution : count_execution_ids 9 [] ≡ 0
unfolding count_execution_ids
no_execution = refl

valid : validate sample_event ≡ none
unfolding validate validate_limit_price is_valid_side is_valid_execution_type text_eq
valid = refl

pub created_201 : answered.0.status ≡ 201
unfolding create_order field_errors symbol_errors quantity_errors side_errors execution_type_errors
    normalized_symbol matches_asset_symbol_pattern is_valid_side is_valid_execution_type to_upper
    to_upper_rune trim_space trim_left is_space is_upper_letter is_digit text_eq
    user_id_from_context new_order create after_insert admits_order count_orders fits_integer
    is_valid_status
created_201 = refl

abbrev pub created : investment_engine.Order.Model.Order
created =
    (create_order-IsCreated upper (postgres_order_store healthy done (new "driver") 7) silent 5
      begin (request sample_request) created_201).created

temporary :
    classify_failure libraries.status_code (status unavailable "connection refused")
    ≡ transient_failure
unfolding classify_failure errors_is classify_code
temporary = refl

first_time : retry_attempt delivery.headers ≡ pos 0
unfolding retry_attempt lookup
first_time = refl

abbrev outage : IsOutage libraries sample_event no_prices
outage = record {
  error = status unavailable "connection refused";
  answers = refl;
  transient = temporary;
  publishes = refl;
}

outage_recovers_example :
    let (r, st) =
      follow libraries wire
        (map circumstances (no_prices ∷ no_prices ∷ []) ++ circumstances conditions ∷ [])
        delivery
        (record { store = one_order; messages_processed = no_messages }) in
    (r ≡ Retries.executed) × (st.store ≡ executed 9 8 5 sample_price (pos 10) one_order)
outage_recovers_example =
    outage_recovers libraries status_code-IsStatusCode sample_event delivery.body one_order refl
      valid wire wire-IsWire (no_prices ∷ no_prices ∷ []) [] conditions sample_price
      delivery.headers no_messages (outage, (outage, tt)) (omega arith) refl
      healthy_faults-IsHealthy one_order-IsConsistent no_execution fits pending first_time

-- An event for a well-formed symbol that the price service does not know.
abbrev unknown_event : OrderCreatedEvent
unknown_event = record sample_event { asset_symbol = codes "XXXX3" }

abbrev unknown_libraries : Libraries
unknown_libraries = record libraries { unmarshal = λ body. ok unknown_event }

-- Each operation answers its first operand.
abbrev ops : FloatOps
ops = record { add = λ x y. x; sub = λ x y. x; mul = λ x y. x }

abbrev asking : Conditions
asking = record conditions { prices = get_price (get_quote ops 0 8) }

valid_unknown : validate unknown_event ≡ none
unfolding validate validate_limit_price is_valid_side is_valid_execution_type text_eq
valid_unknown = refl

no_base_price : base_price (codes "XXXX3") base_prices ≡ none
unfolding base_price text_eq
no_base_price = refl

unknown_symbol_rejected_example :
    process unknown_libraries
      (circumstances asking)
      delivery
      (record { store = one_order; messages_processed = no_messages })
    ≡ (
      record { store = one_order; messages_processed = increment "permanent" no_messages },
      reject false ∷ [],
    )
unknown_symbol_rejected_example =
    unknown_symbol_rejected unknown_libraries status_code-IsStatusCode asking one_order
      unknown_event delivery no_messages refl valid_unknown ops 0 8 no_base_price refl
