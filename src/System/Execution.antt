-- ===== src/System/Execution.antt =====
-- One delivery of a PENDING order to a consumer on PostgreSQL, when nothing fails.
use investment_engine.Prelude.{◌∙◌, ap, ◌≡◌, none, [], ◌∷◌, arith, true}
use investment_engine.Result.{ok}
use investment_engine.Float64.{Float64}
use investment_engine.Order.Model.{status_pending}
use investment_engine.Order.Event.{OrderCreatedEvent, validate}
use investment_engine.Order.Store.{Db, count_with, count_execution_ids, fits_integer, execute_order}
use investment_engine.Order.Store.Invariant.{IsConsistent, executed}
use investment_engine.Order.Store.Execute.{IsHealthy, execute_order-healthy}
use investment_engine.Execution.Handler.{handle_order_created, execute_at, processed}
use investment_engine.Execution.Handler.Contract.{handle_order_created_valid}
use investment_engine.Execution.Consumer.{
  Libraries, Delivery, Counter, ack, increment, process, settle,
}
use investment_engine.System.{Conditions, circumstances}

module _ (c : Conditions) (event : OrderCreatedEvent) (price : Float64) (db : Db)
    (healthy : IsHealthy c.faults) (consistent : IsConsistent db)
    (fresh : count_execution_ids c.execution_id db.executions ≡ 0)
    (fits : fits_integer event.quantity ≡ true)
    (pending : count_with status_pending event.order_id db.orders ≡ 1) where
  executes :
      execute_order c.faults c.execution_id c.now event.order_id price event.quantity db
      ≡ (ok true, executed c.execution_id c.now event.order_id price event.quantity db)
  executes = ground (
    arith,
    execute_order-healthy c.faults c.execution_id c.now event.order_id price event.quantity db
        healthy consistent fresh fits,
  )

  pub handles :
      (lib : Libraries) (d : Delivery)
      → lib.unmarshal d.body ≡ ok event
      → validate event ≡ none
      → c.prices event.asset_symbol ≡ ok price
      → handle_order_created (circumstances c).store lib.unmarshal c.prices d.body db
        ≡ (none, executed c.execution_id c.now event.order_id price event.quantity db)
  handles lib d decodes valid quoted =
      let store = (circumstances c).store in
      handle_order_created_valid store lib.unmarshal c.prices d.body db event decodes valid
      ∙ ap (λ r. execute_at store event r db) quoted
      ∙ ap (λ r. (processed store r.0, r.1)) executes

  -- If the body decodes to a valid event about a PENDING order of consistent tables, the price
  -- service quotes a price, the driver fails nowhere, the drawn id is new and the quantity fits the
  -- column, then the order becomes EXECUTED with one execution at that price, the delivery is
  -- acked and nothing else is sent, and it is counted as a success.
  pub delivery_executes :
      (lib : Libraries) (d : Delivery) (m : Counter)
      → lib.unmarshal d.body ≡ ok event
      → validate event ≡ none
      → c.prices event.asset_symbol ≡ ok price
      → process lib (circumstances c) d (record { store = db; messages_processed = m }) ≡ (
        record {
          store = executed c.execution_id c.now event.order_id price event.quantity db;
          messages_processed = increment "success" m;
        },
        ack ∷ [],
      )
  unfolding process
  delivery_executes lib d m decodes valid quoted =
      ap (λ r. settle lib (circumstances c) d m r.0 r.1) (handles lib d decodes valid quoted)
